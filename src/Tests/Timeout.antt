-- ===== src/Tests/Timeout.antt =====
-- A blocking receive on a queue without messages, with a clock that moves by half a millisecond at each read.
use v4_engine.Base.{ℕ, ◌/◌, ◌+◌, ◌≢◌, refl, u32, arith}
use v4_engine.Task.{task_receive_blocking}
use v4_engine.Task.Clock.{Ticks}
use v4_engine.Task.Timeout.{task_receive_blocking_ends}
use v4_engine.Tests.{clock_env, vm}
use v4_engine.Vm.{Env, starved}

-- Half a millisecond goes by at each read, so each tick is read twice.
abbrev moving_env : Env ℕ
moving_env = record clock_env { tick_ms = λ t. record { now = u32 (t / 2); world = t + 1 } }

moving_env-Ticks : Ticks moving_env (λ t. t) 2 1
moving_env-Ticks = record {
  some_units = omega arith;
  now = λ w. refl;
  later = λ w. omega arith;
  soon = λ w. omega arith;
}

task_receive_blocking_ends_example : task_receive_blocking moving_env 11 0 5 vm ≢ starved
task_receive_blocking_ends_example =
    task_receive_blocking_ends (λ t. t) moving_env 2 1 moving_env-Ticks 11 0 5 vm (omega arith)
      (omega arith) (omega arith)
