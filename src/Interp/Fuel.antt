-- ===== src/Interp/Fuel.antt =====
-- The loop of vm_exec_raw in src/core.cpp with different amounts of fuel.
use v4_engine.Base.{
  ℕ, zero, suc, ◌+◌, ◌≤◌, ◌≡◌, ◌≢◌, refl, Bool, true, false, Option, none, some, List, arith, leb,
  ltb, ◌==◌, if◌then◌else◌, inl, inr, Bool-cases, u8, u16,
}
use v4_engine.Interp.{Code, byte_at, read_i16_le, operand, plain}
use v4_engine.Interp.Call.{
  Runner, return_from, call_code, call_word, call_op, task_receive_blocking_op, push_received,
}
use v4_engine.Interp.Loop.{exec_task_op, exec_op, exec_byte, exec_from, vm_exec}
use v4_engine.Opcode.{Op, decode}
use v4_engine.Task.{task_receive, timed_out, receive_wait, task_receive_blocking}
use v4_engine.Vm.{
  Vm, Env, Word, Message, Outcome, ok, stop, fault, starved, then_run, M, pure, ◌>>=◌,
}
use v4_engine.Err.{Err}
use v4_engine.Panic.{vm_panic}
use v4_engine.Stack.{ds_pop}

-- The second outcome is the first, unless the first ran out of fuel.
pub data Extends {W A : Type 0} : Outcome W A → Outcome W A → Type 0 where
  same : {r : Outcome W A} → Extends r r
  hungry : {r : Outcome W A} → Extends starved r

module _ {W A : Type 0} where
  Extends-if :
      (b : Bool) {x y x' y' : Outcome W A}
      → Extends x x'
      → Extends y y'
      → Extends (if b then x else y) (if b then x' else y')
  Extends-if true hx hy = hx
  Extends-if false hx hy = hy

  Extends-eq : {r r' : Outcome W A} → Extends r r' → r ≢ starved → r' ≡ r
  Extends-eq same fed = refl
  Extends-eq hungry fed = absurd (fed refl)

module _ {W A B : Type 0} where
  then_run-Extends :
      {r r' : Outcome W A} (f f' : A → M W B)
      → Extends r r'
      → ((a : A) (vm : Vm W) → Extends (f a vm) (f' a vm))
      → Extends (then_run r f) (then_run r' f')
  then_run-Extends {r = ok a vm} f f' same h = h a vm
  then_run-Extends {r = stop e vm} f f' same h = same
  then_run-Extends {r = fault} f f' same h = same
  then_run-Extends {r = starved} f f' same h = same
  then_run-Extends f f' hungry h = hungry

module _ {W : Type 0} where
  abbrev RunnerExtends : Runner W → Runner W → Type 0
  RunnerExtends run run' = (code : Code) (vm : Vm W) → Extends (run code vm) (run' code vm)

  return_from-Extends :
      (fp : Option ℕ) (ip : ℕ) {r r' : Outcome W ⊥}
      → Extends r r'
      → Extends (return_from fp ip r) (return_from fp ip r')
  unfolding return_from
  return_from-Extends fp ip same = same
  return_from-Extends fp ip hungry = hungry

  call_code-Extends :
      {run run' : Runner W} (code : Option (List ℕ)) (len ip : ℕ) (vm : Vm W)
      → RunnerExtends run run'
      → Extends (call_code run code len ip vm) (call_code run' code len ip vm)
  unfolding call_code
  call_code-Extends none len ip vm h = same
  call_code-Extends (some bytes) len ip vm h =
      Extends-if (len == 0) same (return_from-Extends vm.fp ip (h _ _))

  call_word-Extends :
      {run run' : Runner W} (idx ip : ℕ) (vm : Vm W)
      → RunnerExtends run run'
      → Extends (call_word run idx ip vm) (call_word run' idx ip vm)
  unfolding call_word
  call_word-Extends idx ip vm h =
      Extends-if (leb (u16 vm.word_count) idx) same
        (call_code-Extends (vm.words idx).code (vm.words idx).code_len ip vm h)

  call_op-Extends :
      {run run' : Runner W} (code : Code) (ip : ℕ) (vm : Vm W)
      → RunnerExtends run run'
      → Extends (call_op run code ip vm) (call_op run' code ip vm)
  unfolding call_op
  call_op-Extends {run = run} {run' = run'} code ip vm h =
      then_run-Extends {r = operand 2 Err.truncated_jump code ip vm}
        (λ _. call_word run (read_i16_le code ip) (ip + 2))
        (λ _. call_word run' (read_i16_le code ip) (ip + 2)) same
        λ _ vm'. call_word-Extends (read_i16_le code ip) (ip + 2) vm' h

module _ {W : Type 0} (env : Env W) where
  receive_wait-Extends :
      (fuel fuel' start msg_type timeout : ℕ) (vm : Vm W)
      → fuel ≤ fuel'
      → Extends
          (receive_wait env fuel start msg_type timeout vm)
          (receive_wait env fuel' start msg_type timeout vm)
  unfolding receive_wait
  receive_wait-Extends zero fuel' start msg_type timeout vm h = hungry
  receive_wait-Extends (suc fuel) zero start msg_type timeout vm h = absurd (omega arith)
  receive_wait-Extends (suc fuel) (suc fuel') start msg_type timeout vm h =
      go (task_receive msg_type vm).0 refl
        (λ vm'. receive_wait-Extends fuel fuel' start msg_type timeout vm' (omega arith))
    where
      go :
          (o : Option Message)
          → (task_receive msg_type vm).0 ≡ o
          → ((vm' : Vm W)
              → Extends
                  (receive_wait env fuel start msg_type timeout vm')
                  (receive_wait env fuel' start msg_type timeout vm'))
          → Extends
              (receive_wait env (suc fuel) start msg_type timeout vm)
              (receive_wait env (suc fuel') start msg_type timeout vm)
      go (some m) e rest = rw (e, receive_wait) same
      go none e rest =
          rw (e, receive_wait)
            (Extends-if (timed_out env start timeout (task_receive msg_type vm).1).0 same (
              then_run-Extends (λ _. receive_wait env fuel start msg_type timeout)
                (λ _. receive_wait env fuel' start msg_type timeout) same λ _ vm'. rest vm'))

  receive_blocking-Extends :
      (fuel fuel' : ℕ) (vm : Vm W)
      → fuel ≤ fuel'
      → Extends (task_receive_blocking_op env fuel vm) (task_receive_blocking_op env fuel' vm)
  unfolding task_receive_blocking_op task_receive_blocking
  receive_blocking-Extends fuel fuel' vm h =
      then_run-Extends {r = ds_pop vm} (after fuel) (after fuel') same λ timeout vm₁.
        then_run-Extends {r = ds_pop vm₁} (waits fuel timeout) (waits fuel' timeout) same
          λ msg_type vm₂.
            then_run-Extends (push_received env) (push_received env)
              (receive_wait-Extends fuel fuel' (env.tick_ms vm₂.world).now (u8 msg_type) timeout _
                h)
              λ _ _. same
    where
      waits : ℕ → ℕ → ℕ → M W (Unit {0})
      waits n timeout msg_type =
          task_receive_blocking env n (u8 msg_type) timeout >>= push_received env

      after : ℕ → ℕ → M W (Unit {0})
      after n timeout = ds_pop >>= waits n timeout

  exec_task_op-Extends :
      (op : Op) (fuel fuel' ip : ℕ) (vm : Vm W)
      → fuel ≤ fuel'
      → Extends (exec_task_op env op fuel ip vm) (exec_task_op env op fuel' ip vm)
  unfolding exec_task_op plain
  exec_task_op-Extends Op.task_receive_blocking fuel fuel' ip vm h =
      then_run-Extends (λ _. pure ip) (λ _. pure ip) (receive_blocking-Extends fuel fuel' vm h)
        λ _ _. same
  exec_task_op-Extends _ fuel fuel' ip vm h = same

  exec_op-Extends :
      (op : Op) {run run' : Runner W} (fuel fuel' : ℕ) (code : Code) (ip : ℕ) (vm : Vm W)
      → fuel ≤ fuel'
      → RunnerExtends run run'
      → Extends (exec_op env op run fuel code ip vm) (exec_op env op run' fuel' code ip vm)
  unfolding exec_op exec_task_op
  exec_op-Extends Op.call fuel fuel' code ip vm h hr = call_op-Extends code ip vm hr
  exec_op-Extends Op.task_receive_blocking fuel fuel' code ip vm h hr =
      on_tasks env.tasks_enabled (exec_task_op env Op.task_receive_blocking fuel ip)
        (exec_task_op env Op.task_receive_blocking fuel' ip) (vm_panic Err.unknown_op)
        (exec_task_op-Extends Op.task_receive_blocking fuel fuel' ip vm h)
    where
      on_tasks :
          (b : Bool) (m m' k : M W ℕ)
          → Extends (m vm) (m' vm)
          → Extends ((if b then m else k) vm) ((if b then m' else k) vm)
      on_tasks true m m' k e = e
      on_tasks false m m' k e = same
  exec_op-Extends _ fuel fuel' code ip vm h hr = same

  exec_byte-Extends :
      (o : Option Op) {run run' : Runner W} (fuel fuel' : ℕ) (code : Code) (ip : ℕ) (vm : Vm W)
      → fuel ≤ fuel'
      → RunnerExtends run run'
      → Extends (exec_byte env o run fuel code ip vm) (exec_byte env o run' fuel' code ip vm)
  unfolding exec_byte
  exec_byte-Extends none fuel fuel' code ip vm h hr = same
  exec_byte-Extends (some op) fuel fuel' code ip vm h hr =
      exec_op-Extends op fuel fuel' code ip vm h hr

  exec_from-Extends :
      (fuel fuel' : ℕ) (code : Code) (ip : ℕ) (vm : Vm W)
      → fuel ≤ fuel'
      → Extends (exec_from env fuel code ip vm) (exec_from env fuel' code ip vm)
  unfolding exec_from
  exec_from-Extends zero fuel' code ip vm h = hungry
  exec_from-Extends (suc fuel) zero code ip vm h = absurd (omega arith)
  exec_from-Extends (suc fuel) (suc fuel') code ip vm h = elim (Bool-cases (ltb ip code.len)) [
    | inl more ↦
        rw (more, exec_from)
          (then_run-Extends (exec_from env fuel code) (exec_from env fuel' code)
            (exec_byte-Extends (decode (byte_at code ip)) fuel fuel' code (ip + 1) vm (omega arith)
              (λ callee vm'. exec_from-Extends fuel fuel' callee 0 vm' (omega arith)))
            (λ ip' vm'. exec_from-Extends fuel fuel' code ip' vm' (omega arith)))
    | inr over ↦ rw (over, exec_from) same
  ]

  -- A run of vm_exec that did not run out of fuel has the same outcome with any larger fuel: the outcome does not
  -- depend on the bound, calls and blocking receives included.
  vm_exec-more_fuel :
      (fuel fuel' : ℕ) (entry : Word) (vm : Vm W)
      → fuel ≤ fuel'
      → vm_exec env fuel entry vm ≢ starved
      → vm_exec env fuel' entry vm ≡ vm_exec env fuel entry vm
  unfolding vm_exec
  vm_exec-more_fuel fuel fuel' entry vm h fed = Extends-eq (go entry.code refl) fed
    where
      go :
          (o : Option (List ℕ))
          → entry.code ≡ o
          → Extends (vm_exec env fuel entry vm) (vm_exec env fuel' entry vm)
      go none e = rw (e, vm_exec) same
      go (some bytes) e = rw (e, vm_exec) (exec_from-Extends fuel fuel' _ 0 vm h)
