-- ===== src/Tests/Disabled.antt =====
-- A build without tasks.
use v4_engine.Base.{ℕ, ◌≡◌, refl, some, false, []}
use v4_engine.Disabled.Agree.{TaskCall, opcode_of, stub_code, exec_op-stub_code}
use v4_engine.Interp.Loop.{exec_op}
use v4_engine.Panic.{report_panic}
use v4_engine.Tests.{clock_env, vm}
use v4_engine.Vm.{Env, stop, starved}

abbrev no_tasks_env : Env ℕ
no_tasks_env = record clock_env { tasks_enabled = false }

exec_op-stub_code_example :
    exec_op no_tasks_env
      (opcode_of (TaskCall.hear 3))
      (λ _ _. starved)
      5
      (record { bytes = []; len = 0 })
      1
      vm
    ≡ stop
        (stub_code (TaskCall.hear 3) (some vm))
        (report_panic vm.panic_handler vm (stub_code (TaskCall.hear 3) (some vm)))
exec_op-stub_code_example =
    exec_op-stub_code no_tasks_env (TaskCall.hear 3) (λ _ _. starved) 5
      (record { bytes = []; len = 0 }) 1 vm refl
