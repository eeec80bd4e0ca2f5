-- ===== src/Tests.antt =====
-- A machine to run, and the theorems at inputs that meet their hypotheses.
mod Arena
mod Bare
mod Panic
mod Disabled
mod Hal
mod Queue
mod Run
mod Rtos
mod Switch
mod Timeout
mod Tasks
mod Words
mod Memory
mod Programs
use v4_engine.Base.{◌<◌, ℕ, none, some, true, [], ◌∷◌, ◌≡◌, ◌↔◌, refl, arith}
use v4_engine.Lifecycle.{VmConfig, fresh_vm, vm_create}
use v4_engine.Interp.Loop.{exec_op, vm_exec}
use v4_engine.Opcode.{Op, opcode, decode}
use v4_engine.Opcode.Table.{decode-eq-some_iff}
use v4_engine.Safety.{IsValid, Safe}
use v4_engine.Safety.Init.{
  fresh_vm-IsValid, vm_create-IsValid, vm_register_word-Safe, vm_register_mmio-IsValid,
}
use v4_engine.Safety.Run.{LeavesValid, vm_exec-LeavesValid}
use v4_engine.Dictionary.{vm_register_word}
use v4_engine.Lifecycle.{vm_register_mmio}
use v4_engine.Scheduler.{vm_schedule}
use v4_engine.Stack.{ds_push}
use v4_engine.Stack.Abstract.{Refines, push_spec, ds_push-Refines, view, stack_of}
use v4_engine.Stack.Ops.{go_on}
use v4_engine.Stack.Exact.{exact_spec, exec_op-Exact}
use v4_engine.Vm.{Vm, Env, Word, Mmio, starved}

-- The outside world of the tests is a clock.
abbrev clock_env : Env ℕ
clock_env = record {
  tick_ms = λ t. record { now = t; world = t };
  critical_enter = λ t. t;
  critical_exit = λ t. t;
  malloc = λ t _. record { met = true; world = t };
  sys_handler = none;
  unset_data = λ t. 0;
  unset_src = λ t. 0;
  tasks_enabled = true;
}

abbrev config : VmConfig ℕ
config = record { mem = some (λ _. 0); mem_size = 64; mmio = none; mmio_count = 0; arena = none }

abbrev vm : Vm ℕ
vm = fresh_vm config 0

-- LIT_U8 20, ADD on one operand: StackUnderflow.
abbrev entry : Word
entry = record { name = none; code = some (0x76 ∷ 20 ∷ 0x10 ∷ []); code_len = 3 }

vm_exec-LeavesValid_example : LeavesValid (vm_exec clock_env 100 entry vm)
vm_exec-LeavesValid_example =
    vm_exec-LeavesValid clock_env tt 100 entry vm (fresh_vm-IsValid config 0)

abbrev two_deep : Vm ℕ
two_deep = record vm { ds = λ i. i; sp = 2 }

two_deep-words : (i : ℕ) → i < 2 → i < 4294967296
two_deep-words i h = omega arith

exec_op-Exact_example :
    view (exec_op clock_env Op.sub (λ _ _. starved) 5 (record { bytes = []; len = 0 }) 1 two_deep)
    ≡ go_on 1 (exact_spec Op.sub (stack_of two_deep))
exec_op-Exact_example =
    exec_op-Exact clock_env Op.sub (λ _ _. starved) 5 (record { bytes = []; len = 0 }) 1 two_deep tt
      (omega arith) two_deep-words

decode-eq-some_iff_example : (decode 0x10 ≡ some Op.add) ↔ (opcode Op.add ≡ 0x10)
decode-eq-some_iff_example = decode-eq-some_iff 0x10 Op.add
