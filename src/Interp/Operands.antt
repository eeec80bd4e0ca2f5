-- ===== src/Interp/Operands.antt =====
-- The operands that vm_exec_raw in src/core.cpp reads, and the operand kinds of include/v4/opcodes.def.
use v4_engine.Base.{
  ℕ, ◌+◌, ◌≤◌, ◌≡◌, ◌≢◌, refl, Bool, true, false, Option, some, arith, ltb, inl, inr, Bool-cases,
  if◌then◌else◌, not_ltb→le, subst, sym, Option-cases,
}
use v4_engine.Err.{Err}
use v4_engine.Interp.{
  Code, jump_target, jump_to, operand, plain, literal_op, jmp_op, branch_op, read_i16_le,
}
use v4_engine.Interp.Call.{Runner, indexed, call_op}
use v4_engine.Interp.Frames.{FrameKept, call_op-FrameKept}
use v4_engine.Interp.Loop.{exec_op, exec_task_op, exit_op, returns}
use v4_engine.Opcode.{Op}
use v4_engine.Opcode.Kinds.{PrimKind, no_imm, imm8, imm16, imm32, rel16, idx16, kind, operand_size}
use v4_engine.Panic.{vm_panic}
use v4_engine.Stack.{ds_pop}
use v4_engine.Task.{task_exit}
use v4_engine.Vm.{Vm, Env, Outcome, ok, stop, fault, starved, then_run, M, pure}

-- An operand of that kind was within the code, execution goes on within the code or at its end, and but for a jump
-- it does so right behind the operand.
abbrev pub Lands : {W : Type 0} → PrimKind → Code → ℕ → Outcome W ℕ → Type 0
Lands k code ip (ok next vm) =
    (ip + operand_size k ≤ code.len) × (next ≤ code.len) × (k ≢ rel16 → next ≡ ip + operand_size k)
Lands k code ip (stop e vm) = Unit
Lands k code ip fault = Unit
Lands k code ip starved = Unit

target_in : (len ip off t : ℕ) → jump_target len ip off ≡ some t → t ≤ len
unfolding jump_target
target_in len ip off t h = ground arith

module _ {W : Type 0} (code : Code) (ip : ℕ) where
  behind :
      (k : PrimKind) (r : Outcome W (Unit {0}))
      → ip + operand_size k ≤ code.len
      → Lands k code ip (then_run r (λ _. pure (ip + operand_size k)))
  behind k (ok _ vm) h = (h, h, λ _. refl)
  behind k (stop e vm) h = tt
  behind k fault h = tt
  behind k starved h = tt

  Lands-if :
      (b : Bool) (k : PrimKind) (x y : Outcome W ℕ)
      → Lands k code ip x
      → Lands k code ip y
      → Lands k code ip (if b then x else y)
  Lands-if true k x y hx hy = hx
  Lands-if false k x y hx hy = hy

  -- The step behind the test that the operand is there.
  guarded :
      (k : PrimKind) (e : Err) (m : M W ℕ) (vm : Vm W)
      → (ip + operand_size k ≤ code.len → Lands k code ip (m vm))
      → Lands k code ip (then_run (operand (operand_size k) e code ip vm) (λ _. m))
  unfolding operand vm_panic
  guarded k e m vm h = elim (Bool-cases (ltb code.len (ip + operand_size k))) [
    | inl short ↦ rw short tt
    | inr there ↦ rw there (h (not_ltb→le code.len _ there))
  ]

  plain-Lands :
      (m : M W (Unit {0})) (vm : Vm W) → ip ≤ code.len → Lands no_imm code ip (plain m ip vm)
  unfolding plain
  plain-Lands m vm h = at (m vm)
    where
      at : (r : Outcome W (Unit {0})) → Lands no_imm code ip (then_run r (λ _. pure ip))
      at (ok _ vm) = (omega arith, h, λ _. omega arith)
      at (stop e vm) = tt
      at fault = tt
      at starved = tt

  literal_op-Lands :
      (k : PrimKind) (value : Code → ℕ → ℕ) (vm : Vm W)
      → Lands k code ip (literal_op (operand_size k) value code ip vm)
  unfolding literal_op
  literal_op-Lands k value vm = guarded k _ _ vm (λ fits. behind k _ fits)

  indexed-Lands : (m : ℕ → M W (Unit {0})) (vm : Vm W) → Lands imm8 code ip (indexed m code ip vm)
  unfolding indexed
  indexed-Lands m vm = guarded imm8 _ _ vm (λ fits. behind imm8 _ fits)

  jump_to-Lands :
      (next off : ℕ) (vm : Vm W)
      → ip + 2 ≤ code.len
      → Lands rel16 code ip (jump_to code.len next off vm)
  unfolding vm_panic jump_to
  jump_to-Lands next off vm fits = elim (Option-cases (jump_target code.len next off)) [
    | inl out ↦ rw (out, jump_to) tt
    | inr (t, lands) ↦
        rw (lands, jump_to) (fits, target_in code.len next off t lands, λ h. absurd (h refl))
  ]

  jmp_op-Lands : (vm : Vm W) → Lands rel16 code ip (jmp_op code ip vm)
  unfolding jmp_op
  jmp_op-Lands vm = guarded rel16 _ _ vm (λ fits. jump_to-Lands (ip + 2) _ vm fits)

  branch_op-Lands :
      (wanted : ℕ → Bool) (vm : Vm W) → Lands rel16 code ip (branch_op wanted code ip vm)
  unfolding branch_op
  branch_op-Lands wanted vm = guarded rel16 _ _ vm (λ fits. popped (ds_pop vm) fits)
    where
      chosen :
          (b : Bool) (vm : Vm W)
          → ip + 2 ≤ code.len
          → Lands rel16 code ip
              ((if b then jump_to code.len (ip + 2) (read_i16_le code ip) else pure (ip + 2)) vm)
      chosen true vm fits = jump_to-Lands (ip + 2) _ vm fits
      chosen false vm fits = (fits, fits, λ h. absurd (h refl))

      popped :
          (r : Outcome W ℕ)
          → ip + 2 ≤ code.len
          → Lands rel16 code ip (
              then_run r (λ cond.
                if wanted cond
                then jump_to code.len (ip + 2) (read_i16_le code ip)
                else pure (ip + 2)))
      popped (ok cond vm) fits = chosen (wanted cond) vm fits
      popped (stop e vm) fits = tt
      popped fault fits = tt
      popped starved fits = tt

  kept-Lands :
      (fp : Option ℕ) (r : Outcome W ℕ)
      → ip + 2 ≤ code.len
      → FrameKept fp (ip + 2) r
      → Lands idx16 code ip r
  kept-Lands fp (ok next vm) fits h = (fits, subst (λ n. n ≤ code.len) (sym h.0) fits, λ _. h.0)
  kept-Lands fp (stop e vm) fits h = tt
  kept-Lands fp fault fits h = tt
  kept-Lands fp starved fits h = tt

  call_op-Lands : (run : Runner W) (vm : Vm W) → Lands idx16 code ip (call_op run code ip vm)
  unfolding call_op operand vm_panic
  call_op-Lands run vm = elim (Bool-cases (ltb code.len (ip + 2))) [
    | inl short ↦ rw (short, call_op) tt
    | inr there ↦
        kept-Lands vm.fp _ (not_ltb→le code.len _ there) (call_op-FrameKept run code ip vm)
  ]

  vm_panic-Lands : (k : PrimKind) (e : Err) (vm : Vm W) → Lands k code ip (vm_panic {A = ℕ} e vm)
  unfolding vm_panic
  vm_panic-Lands k e vm = tt

module _ {W : Type 0} (env : Env W) where
  exit_op-Lands : (code : Code) (ip : ℕ) (vm : Vm W) → Lands no_imm code ip (exit_op env vm)
  unfolding exit_op returns
  exit_op-Lands code ip vm = left (task_exit env vm)
    where
      left : (r : Outcome W (Unit {0})) → Lands no_imm code ip (then_run r (λ _ vm. stop 0 vm))
      left (ok _ vm) = tt
      left (stop e vm) = tt
      left fault = tt
      left starved = tt

  exec_task_op-Lands :
      (op : Op) (fuel : ℕ) (code : Code) (ip : ℕ) (vm : Vm W)
      → ip ≤ code.len
      → Lands no_imm code ip (exec_task_op env op fuel ip vm)
  unfolding exec_task_op
  exec_task_op-Lands Op.task_spawn fuel code ip vm h = plain-Lands code ip _ vm h
  exec_task_op-Lands Op.task_exit fuel code ip vm h = exit_op-Lands code ip vm
  exec_task_op-Lands Op.task_sleep fuel code ip vm h = plain-Lands code ip _ vm h
  exec_task_op-Lands Op.task_yield fuel code ip vm h = plain-Lands code ip _ vm h
  exec_task_op-Lands Op.critical_enter fuel code ip vm h = plain-Lands code ip _ vm h
  exec_task_op-Lands Op.critical_exit fuel code ip vm h = plain-Lands code ip _ vm h
  exec_task_op-Lands Op.task_send fuel code ip vm h = plain-Lands code ip _ vm h
  exec_task_op-Lands Op.task_receive fuel code ip vm h = plain-Lands code ip _ vm h
  exec_task_op-Lands Op.task_receive_blocking fuel code ip vm h = plain-Lands code ip _ vm h
  exec_task_op-Lands Op.task_self fuel code ip vm h = plain-Lands code ip _ vm h
  exec_task_op-Lands Op.task_count fuel code ip vm h = plain-Lands code ip _ vm h
  exec_task_op-Lands _ fuel code ip vm h = vm_panic-Lands code ip no_imm _ vm

  -- A task opcode in either build.
  task_op-Lands :
      (op : Op) (fuel : ℕ) (code : Code) (ip : ℕ) (vm : Vm W)
      → ip ≤ code.len
      → Lands no_imm code ip
          ((if env.tasks_enabled then exec_task_op env op fuel ip else vm_panic Err.unknown_op) vm)
  task_op-Lands op fuel code ip vm h = in_build env.tasks_enabled
    where
      in_build :
          (b : Bool)
          → Lands no_imm code ip
              ((if b then exec_task_op env op fuel ip else vm_panic Err.unknown_op) vm)
      in_build true = exec_task_op-Lands op fuel code ip vm h
      in_build false = vm_panic-Lands code ip no_imm _ vm

  -- The operand kinds of the opcode table are those that the interpreter goes by. Behind the opcode's byte, for
  -- each of the 73 opcodes, whatever the machine and the code: if the opcode goes on, then all bytes of an
  -- operand of its kind were within the code, the next instruction is within the code or at its end, and,
  -- but for a jump, it is the one right behind the operand.
  pub exec_op-Lands :
      (op : Op) (run : Runner W) (fuel : ℕ) (code : Code) (ip : ℕ) (vm : Vm W)
      → ip ≤ code.len
      → Lands (kind op) code ip (exec_op env op run fuel code ip vm)
  unfolding exec_op kind returns
  exec_op-Lands Op.lit run fuel code ip vm h = literal_op-Lands code ip imm32 _ vm
  exec_op-Lands Op.dup run fuel code ip vm h = plain-Lands code ip _ vm h
  exec_op-Lands Op.drop run fuel code ip vm h = plain-Lands code ip _ vm h
  exec_op-Lands Op.swap run fuel code ip vm h = plain-Lands code ip _ vm h
  exec_op-Lands Op.over run fuel code ip vm h = plain-Lands code ip _ vm h
  exec_op-Lands Op.add run fuel code ip vm h = plain-Lands code ip _ vm h
  exec_op-Lands Op.sub run fuel code ip vm h = plain-Lands code ip _ vm h
  exec_op-Lands Op.mul run fuel code ip vm h = plain-Lands code ip _ vm h
  exec_op-Lands Op.div run fuel code ip vm h = plain-Lands code ip _ vm h
  exec_op-Lands Op.modulo run fuel code ip vm h = plain-Lands code ip _ vm h
  exec_op-Lands Op.divu run fuel code ip vm h = plain-Lands code ip _ vm h
  exec_op-Lands Op.modu run fuel code ip vm h = plain-Lands code ip _ vm h
  exec_op-Lands Op.inc run fuel code ip vm h = plain-Lands code ip _ vm h
  exec_op-Lands Op.dec run fuel code ip vm h = plain-Lands code ip _ vm h
  exec_op-Lands Op.eq run fuel code ip vm h = plain-Lands code ip _ vm h
  exec_op-Lands Op.ne run fuel code ip vm h = plain-Lands code ip _ vm h
  exec_op-Lands Op.lt run fuel code ip vm h = plain-Lands code ip _ vm h
  exec_op-Lands Op.le run fuel code ip vm h = plain-Lands code ip _ vm h
  exec_op-Lands Op.gt run fuel code ip vm h = plain-Lands code ip _ vm h
  exec_op-Lands Op.ge run fuel code ip vm h = plain-Lands code ip _ vm h
  exec_op-Lands Op.ltu run fuel code ip vm h = plain-Lands code ip _ vm h
  exec_op-Lands Op.leu run fuel code ip vm h = plain-Lands code ip _ vm h
  exec_op-Lands Op.and run fuel code ip vm h = plain-Lands code ip _ vm h
  exec_op-Lands Op.or run fuel code ip vm h = plain-Lands code ip _ vm h
  exec_op-Lands Op.xor run fuel code ip vm h = plain-Lands code ip _ vm h
  exec_op-Lands Op.invert run fuel code ip vm h = plain-Lands code ip _ vm h
  exec_op-Lands Op.shl run fuel code ip vm h = plain-Lands code ip _ vm h
  exec_op-Lands Op.shr run fuel code ip vm h = plain-Lands code ip _ vm h
  exec_op-Lands Op.sar run fuel code ip vm h = plain-Lands code ip _ vm h
  exec_op-Lands Op.load run fuel code ip vm h = plain-Lands code ip _ vm h
  exec_op-Lands Op.store run fuel code ip vm h = plain-Lands code ip _ vm h
  exec_op-Lands Op.load8u run fuel code ip vm h = plain-Lands code ip _ vm h
  exec_op-Lands Op.load16u run fuel code ip vm h = plain-Lands code ip _ vm h
  exec_op-Lands Op.store8 run fuel code ip vm h = plain-Lands code ip _ vm h
  exec_op-Lands Op.store16 run fuel code ip vm h = plain-Lands code ip _ vm h
  exec_op-Lands Op.load8s run fuel code ip vm h = plain-Lands code ip _ vm h
  exec_op-Lands Op.load16s run fuel code ip vm h = plain-Lands code ip _ vm h
  exec_op-Lands Op.jmp run fuel code ip vm h = jmp_op-Lands code ip vm
  exec_op-Lands Op.jz run fuel code ip vm h = branch_op-Lands code ip _ vm
  exec_op-Lands Op.jnz run fuel code ip vm h = branch_op-Lands code ip _ vm
  exec_op-Lands Op.select run fuel code ip vm h = plain-Lands code ip _ vm h
  exec_op-Lands Op.call run fuel code ip vm h = call_op-Lands code ip run vm
  exec_op-Lands Op.ret run fuel code ip vm h = tt
  exec_op-Lands Op.sys run fuel code ip vm h = plain-Lands code ip _ vm h
  exec_op-Lands Op.tor run fuel code ip vm h = plain-Lands code ip _ vm h
  exec_op-Lands Op.fromr run fuel code ip vm h = plain-Lands code ip _ vm h
  exec_op-Lands Op.rfetch run fuel code ip vm h = plain-Lands code ip _ vm h
  exec_op-Lands Op.lit0 run fuel code ip vm h = plain-Lands code ip _ vm h
  exec_op-Lands Op.lit1 run fuel code ip vm h = plain-Lands code ip _ vm h
  exec_op-Lands Op.litn1 run fuel code ip vm h = plain-Lands code ip _ vm h
  exec_op-Lands Op.lit_u8 run fuel code ip vm h = literal_op-Lands code ip imm8 _ vm
  exec_op-Lands Op.lit_i8 run fuel code ip vm h = literal_op-Lands code ip imm8 _ vm
  exec_op-Lands Op.lit_i16 run fuel code ip vm h = literal_op-Lands code ip imm16 _ vm
  exec_op-Lands Op.lget run fuel code ip vm h = indexed-Lands code ip _ vm
  exec_op-Lands Op.lset run fuel code ip vm h = indexed-Lands code ip _ vm
  exec_op-Lands Op.ltee run fuel code ip vm h = indexed-Lands code ip _ vm
  exec_op-Lands Op.lget0 run fuel code ip vm h = plain-Lands code ip _ vm h
  exec_op-Lands Op.lget1 run fuel code ip vm h = plain-Lands code ip _ vm h
  exec_op-Lands Op.lset0 run fuel code ip vm h = plain-Lands code ip _ vm h
  exec_op-Lands Op.lset1 run fuel code ip vm h = plain-Lands code ip _ vm h
  exec_op-Lands Op.linc run fuel code ip vm h = indexed-Lands code ip _ vm
  exec_op-Lands Op.ldec run fuel code ip vm h = indexed-Lands code ip _ vm
  exec_op-Lands Op.task_spawn run fuel code ip vm h = task_op-Lands Op.task_spawn fuel code ip vm h
  exec_op-Lands Op.task_exit run fuel code ip vm h = task_op-Lands Op.task_exit fuel code ip vm h
  exec_op-Lands Op.task_sleep run fuel code ip vm h = task_op-Lands Op.task_sleep fuel code ip vm h
  exec_op-Lands Op.task_yield run fuel code ip vm h = task_op-Lands Op.task_yield fuel code ip vm h
  exec_op-Lands Op.critical_enter run fuel code ip vm h =
      task_op-Lands Op.critical_enter fuel code ip vm h
  exec_op-Lands Op.critical_exit run fuel code ip vm h =
      task_op-Lands Op.critical_exit fuel code ip vm h
  exec_op-Lands Op.task_send run fuel code ip vm h = task_op-Lands Op.task_send fuel code ip vm h
  exec_op-Lands Op.task_receive run fuel code ip vm h =
      task_op-Lands Op.task_receive fuel code ip vm h
  exec_op-Lands Op.task_receive_blocking run fuel code ip vm h =
      task_op-Lands Op.task_receive_blocking fuel code ip vm h
  exec_op-Lands Op.task_self run fuel code ip vm h = task_op-Lands Op.task_self fuel code ip vm h
  exec_op-Lands Op.task_count run fuel code ip vm h = task_op-Lands Op.task_count fuel code ip vm h
