-- ===== src/Tests/Programs.antt =====
-- Structured programs at concrete machines, and a sequence of calls.
use v4_engine.Api.{
  Request, register_sys_handler, perform_all, register_word, exec, push, pop, spawn, yield,
}
use v4_engine.Base.{ℕ, List, ◌+◌, ◌≤◌, ◌≡◌, none, some, [], ◌∷◌, refl, arith}
use v4_engine.Interp.{plain, dup_op, unary_op}
use v4_engine.Interp.Loop.{exec_op, vm_exec}
use v4_engine.Lifecycle.{fresh_vm, vm_create}
use v4_engine.Opcode.{opcode, Op}
use v4_engine.Program.{
  Program, op, literal, seq, repeat, Runs, effect, of_op, in_turn, finished, once_more, word_bytes,
  word_code,
}
use v4_engine.Program.Simulation.{returned, vm_exec-Runs}
use v4_engine.Program.Lists.{ended, list_run, vm_exec-list_run}
use v4_engine.Stack.Abstract.{view}
use v4_engine.Interp.Operands.{Lands, exec_op-Lands}
use v4_engine.Opcode.Kinds.{kind}
use v4_engine.Probe.{probe_main}
use v4_engine.Probe.Outcomes.{probe_vm, exits, probe_main-Runs}
use v4_engine.Safety.Api.{GoesOn, perform_all-created}
use v4_engine.Stack.{ds_push, ds_pop, ds_peek}
use v4_engine.Tests.{clock_env, config, vm, entry}
use v4_engine.Vm.{Vm, Word, ok, starved}

-- LIT1, and as long as a copy of the top is not 0, DEC.
abbrev countdown : Program
countdown = seq (op Op.lit1) (repeat (op Op.dup) (op Op.dec))

abbrev counting : Word
counting = record { name = none; code = some (word_bytes countdown); code_len = 10 }

counted : (left : Vm ℕ) × Runs clock_env countdown vm (ok tt left)
unfolding effect exec_op plain ds_push ds_pop ds_peek dup_op unary_op fresh_vm
counted = (
  _,
  in_turn of_op (once_more of_op refl (λ e. absurd (omega arith)) of_op (finished of_op refl)),
)

vm_exec-Runs_example :
    (enough : ℕ) × ((fuel : ℕ)
      → enough ≤ fuel
      → vm_exec clock_env fuel counting vm ≡ returned (ok tt counted.0))
vm_exec-Runs_example =
    vm_exec-Runs clock_env countdown counting vm (ok tt counted.0) counted.1
      (tt, (tt, tt, omega arith)) refl refl

created : vm_create clock_env 0 config 0 ≡ some vm
unfolding vm_create
created = refl

-- A SYS handler and a word are registered, a word is run, the stack is popped until it is empty and once more, and
-- a task is made.
abbrev calls : List (Request ℕ)
calls =
    register_sys_handler (some (λ vm id a b c. record { result = a; vm = vm }))
    ∷ register_word none (some (0x73 ∷ 0x51 ∷ [])) 2
    ∷ exec entry
    ∷ push 7
    ∷ pop
    ∷ pop
    ∷ spawn 0 3 0 0
    ∷ yield
    ∷ []

perform_all-created_example : GoesOn (perform_all clock_env 50 calls vm)
perform_all-created_example =
    perform_all-created clock_env 50 0 config 0 vm calls tt
      ((λ vm id a b c v. v), (tt, (tt, (tt, (tt, (tt, (tt, (tt, tt)))))))) created

-- 20 22 +
abbrev adding_program : Program
adding_program = seq (literal 20) (seq (literal 22) (op Op.add))

abbrev adding : Word
adding = record { name = none; code = some (word_bytes adding_program); code_len = 12 }

vm_exec-list_run_example :
    (enough : ℕ) × ((fuel : ℕ)
      → enough ≤ fuel
      → view (vm_exec clock_env fuel adding vm) ≡ ended (list_run adding_program []))
unfolding fresh_vm
vm_exec-list_run_example =
    vm_exec-list_run clock_env adding_program adding vm (tt, (tt, tt))
      (omega arith, (omega arith, tt)) (omega arith) refl refl

-- LIT_I16 in a build with tasks.
exec_op-Lands_example :
    Lands
      (kind Op.lit_i16)
      (word_code countdown)
      1
      (exec_op clock_env Op.lit_i16 (λ _ _. starved) 5 (word_code countdown) 1 vm)
exec_op-Lands_example =
    exec_op-Lands clock_env Op.lit_i16 (λ _ _. starved) 5 (word_code countdown) 1 vm (omega arith)

-- LIT1, INC
abbrev incremented : Program
incremented = seq (op Op.lit1) (op Op.inc)

two_left :
    (left : Vm ℕ) × Runs clock_env incremented (probe_vm (word_bytes incremented) 0) (ok tt left)
unfolding effect exec_op plain ds_push ds_pop unary_op fresh_vm
two_left = (_, in_turn of_op of_op)

probe_main-Runs_example :
    (enough : ℕ) × ((fuel : ℕ)
      → enough ≤ fuel
      → probe_main clock_env (λ t. t + 1) fuel 4000 (some (word_bytes incremented)) 0
        ≡ exits (λ t. t + 1) (ok tt two_left.0))
unfolding opcode
probe_main-Runs_example =
    probe_main-Runs clock_env (λ t. t + 1) incremented 4000 0 (ok tt two_left.0) (tt, tt)
      (refl, (refl, (refl, tt))) (omega arith) refl two_left.1
