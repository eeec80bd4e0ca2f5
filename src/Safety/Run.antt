-- ===== src/Safety/Run.antt =====
-- The invariant and the loop of vm_exec_raw in src/core.cpp.
use v4_engine.Base.{
  ℕ, zero, suc, ◌+◌, ◌≡◌, refl, Option, none, some, List, ltb, ◌==◌, u8, u16, u32, Bool-cases, inl,
  inr,
}
use v4_engine.Interp.{Code, byte_at, read_i16_le}
use v4_engine.Interp.Call.{Runner}
use v4_engine.Interp.Loop.{exec_op, exec_byte, exec_from, vm_exec}
use v4_engine.Opcode.{Op, decode}
use v4_engine.Safety.{
  IsValid, Safe, goes_on, returned, faulted, ran_out, Keeps, Keeps-if, then_run-Safe,
}
use v4_engine.Safety.Core.{
  vm_panic-Keeps, ds_push-Keeps, mem_read32-Keeps, mem_write32-Keeps, mem_read8-Keeps,
  mem_read16-Keeps, mem_write8-Keeps, mem_write16-Keeps,
}
use v4_engine.Safety.Steps.{
  unary_op-Keeps, pop_two-Keeps, binary_op-Keeps, dup_op-Keeps, drop_op-Keeps, swap_op-Keeps,
  over_op-Keeps, select_op-Keeps, load_op-Keeps, store_op-Keeps, tor_op-Keeps, fromr_op-Keeps,
  rfetch_op-Keeps, jmp_op-Keeps, branch_op-Keeps, literal_op-Keeps, plain-Keeps, lget_op-Keeps,
  lset_op-Keeps, ltee_op-Keeps, lmodify_op-Keeps,
}
use v4_engine.Alu.{bitwise, invert, shift_left, shift_right, shift_arith}
use v4_engine.Interp.{read_i32_le}
use v4_engine.Base.{minus, not, sign_extend8, sign_extend16, ◌-◌, ◌^◌}
use v4_engine.Vm.{Vm, Env, Word, Outcome, ok, stop, fault, starved}
use v4_engine.Safety.Calls.{
  HandlerKeeps, RunnerKeeps, call_op-Keeps, indexed-Keeps, returns-Keeps, sys_op-Keeps,
  exec_task_op-Keeps,
}

module _ {W : Type 0} (env : Env W) (sys : HandlerKeeps env.sys_handler) where
  exec_op-Keeps :
      (op : Op) {run : Runner W} (fuel : ℕ) (code : Code) (ip : ℕ)
      → RunnerKeeps run
      → Keeps (exec_op env op run fuel code ip)
  unfolding exec_op
  exec_op-Keeps Op.lit fuel code ip h = literal_op-Keeps 4 read_i32_le code ip
  exec_op-Keeps Op.dup fuel code ip h = plain-Keeps ip (dup_op-Keeps)
  exec_op-Keeps Op.drop fuel code ip h = plain-Keeps ip (drop_op-Keeps)
  exec_op-Keeps Op.swap fuel code ip h = plain-Keeps ip (swap_op-Keeps)
  exec_op-Keeps Op.over fuel code ip h = plain-Keeps ip (over_op-Keeps)
  exec_op-Keeps Op.add fuel code ip h = plain-Keeps ip (binary_op-Keeps Op.add)
  exec_op-Keeps Op.sub fuel code ip h = plain-Keeps ip (binary_op-Keeps Op.sub)
  exec_op-Keeps Op.mul fuel code ip h = plain-Keeps ip (binary_op-Keeps Op.mul)
  exec_op-Keeps Op.div fuel code ip h = plain-Keeps ip (binary_op-Keeps Op.div)
  exec_op-Keeps Op.modulo fuel code ip h = plain-Keeps ip (binary_op-Keeps Op.modulo)
  exec_op-Keeps Op.divu fuel code ip h = plain-Keeps ip (binary_op-Keeps Op.divu)
  exec_op-Keeps Op.modu fuel code ip h = plain-Keeps ip (binary_op-Keeps Op.modu)
  exec_op-Keeps Op.inc fuel code ip h = plain-Keeps ip (unary_op-Keeps (λ a. u32 (a + 1)))
  exec_op-Keeps Op.dec fuel code ip h =
      plain-Keeps ip (unary_op-Keeps (λ a. u32 (a + (2 ^ 32 - 1))))
  exec_op-Keeps Op.eq fuel code ip h = plain-Keeps ip (binary_op-Keeps Op.eq)
  exec_op-Keeps Op.ne fuel code ip h = plain-Keeps ip (binary_op-Keeps Op.ne)
  exec_op-Keeps Op.lt fuel code ip h = plain-Keeps ip (binary_op-Keeps Op.lt)
  exec_op-Keeps Op.le fuel code ip h = plain-Keeps ip (binary_op-Keeps Op.le)
  exec_op-Keeps Op.gt fuel code ip h = plain-Keeps ip (binary_op-Keeps Op.gt)
  exec_op-Keeps Op.ge fuel code ip h = plain-Keeps ip (binary_op-Keeps Op.ge)
  exec_op-Keeps Op.ltu fuel code ip h = plain-Keeps ip (binary_op-Keeps Op.ltu)
  exec_op-Keeps Op.leu fuel code ip h = plain-Keeps ip (binary_op-Keeps Op.leu)
  exec_op-Keeps Op.and fuel code ip h = plain-Keeps ip (pop_two-Keeps (bitwise Op.and))
  exec_op-Keeps Op.or fuel code ip h = plain-Keeps ip (pop_two-Keeps (bitwise Op.or))
  exec_op-Keeps Op.xor fuel code ip h = plain-Keeps ip (pop_two-Keeps (bitwise Op.xor))
  exec_op-Keeps Op.invert fuel code ip h = plain-Keeps ip (unary_op-Keeps invert)
  exec_op-Keeps Op.shl fuel code ip h = plain-Keeps ip (pop_two-Keeps shift_left)
  exec_op-Keeps Op.shr fuel code ip h = plain-Keeps ip (pop_two-Keeps shift_right)
  exec_op-Keeps Op.sar fuel code ip h = plain-Keeps ip (pop_two-Keeps shift_arith)
  exec_op-Keeps Op.load fuel code ip h = plain-Keeps ip (load_op-Keeps (λ v. v) mem_read32-Keeps)
  exec_op-Keeps Op.store fuel code ip h = plain-Keeps ip (store_op-Keeps mem_write32-Keeps)
  exec_op-Keeps Op.load8u fuel code ip h = plain-Keeps ip (load_op-Keeps (λ v. v) mem_read8-Keeps)
  exec_op-Keeps Op.load16u fuel code ip h = plain-Keeps ip (load_op-Keeps (λ v. v) mem_read16-Keeps)
  exec_op-Keeps Op.store8 fuel code ip h = plain-Keeps ip (store_op-Keeps mem_write8-Keeps)
  exec_op-Keeps Op.store16 fuel code ip h = plain-Keeps ip (store_op-Keeps mem_write16-Keeps)
  exec_op-Keeps Op.load8s fuel code ip h =
      plain-Keeps ip (load_op-Keeps (λ v. sign_extend8 (u8 v)) mem_read8-Keeps)
  exec_op-Keeps Op.load16s fuel code ip h =
      plain-Keeps ip (load_op-Keeps (λ v. sign_extend16 (u16 v)) mem_read16-Keeps)
  exec_op-Keeps Op.jmp fuel code ip h = jmp_op-Keeps code ip
  exec_op-Keeps Op.jz fuel code ip h = branch_op-Keeps (λ cond. cond == 0) code ip
  exec_op-Keeps Op.jnz fuel code ip h = branch_op-Keeps (λ cond. not (cond == 0)) code ip
  exec_op-Keeps Op.select fuel code ip h = plain-Keeps ip (select_op-Keeps)
  exec_op-Keeps Op.call fuel code ip h = call_op-Keeps code ip h
  exec_op-Keeps Op.ret fuel code ip h = returns-Keeps _
  exec_op-Keeps Op.sys fuel code ip h = plain-Keeps ip (sys_op-Keeps env sys)
  exec_op-Keeps Op.tor fuel code ip h = plain-Keeps ip (tor_op-Keeps)
  exec_op-Keeps Op.fromr fuel code ip h = plain-Keeps ip (fromr_op-Keeps)
  exec_op-Keeps Op.rfetch fuel code ip h = plain-Keeps ip (rfetch_op-Keeps)
  exec_op-Keeps Op.lit0 fuel code ip h = plain-Keeps ip (ds_push-Keeps 0)
  exec_op-Keeps Op.lit1 fuel code ip h = plain-Keeps ip (ds_push-Keeps 1)
  exec_op-Keeps Op.litn1 fuel code ip h = plain-Keeps ip (ds_push-Keeps (minus 1))
  exec_op-Keeps Op.lit_u8 fuel code ip h = literal_op-Keeps 1 byte_at code ip
  exec_op-Keeps Op.lit_i8 fuel code ip h =
      literal_op-Keeps 1 (λ c p. sign_extend8 (byte_at c p)) code ip
  exec_op-Keeps Op.lit_i16 fuel code ip h =
      literal_op-Keeps 2 (λ c p. sign_extend16 (read_i16_le c p)) code ip
  exec_op-Keeps Op.lget fuel code ip h = indexed-Keeps code ip lget_op-Keeps
  exec_op-Keeps Op.lset fuel code ip h = indexed-Keeps code ip lset_op-Keeps
  exec_op-Keeps Op.ltee fuel code ip h = indexed-Keeps code ip ltee_op-Keeps
  exec_op-Keeps Op.lget0 fuel code ip h = plain-Keeps ip (lget_op-Keeps 0)
  exec_op-Keeps Op.lget1 fuel code ip h = plain-Keeps ip (lget_op-Keeps 1)
  exec_op-Keeps Op.lset0 fuel code ip h = plain-Keeps ip (lset_op-Keeps 0)
  exec_op-Keeps Op.lset1 fuel code ip h = plain-Keeps ip (lset_op-Keeps 1)
  exec_op-Keeps Op.linc fuel code ip h = indexed-Keeps code ip (lmodify_op-Keeps (λ a. u32 (a + 1)))
  exec_op-Keeps Op.ldec fuel code ip h =
      indexed-Keeps code ip (lmodify_op-Keeps (λ a. u32 (a + (2 ^ 32 - 1))))
  exec_op-Keeps op fuel code ip h =
      Keeps-if env.tasks_enabled (exec_task_op-Keeps env op fuel ip) (vm_panic-Keeps _)

  exec_byte-Keeps :
      (o : Option Op) {run : Runner W} (fuel : ℕ) (code : Code) (ip : ℕ)
      → RunnerKeeps run
      → Keeps (exec_byte env o run fuel code ip)
  unfolding exec_byte
  exec_byte-Keeps none fuel code ip h = vm_panic-Keeps _
  exec_byte-Keeps (some op) fuel code ip h = exec_op-Keeps op fuel code ip h

  pub exec_from-Keeps : (fuel : ℕ) (code : Code) (ip : ℕ) → Keeps (exec_from env fuel code ip)
  unfolding exec_from
  exec_from-Keeps zero code ip vm v = ran_out
  exec_from-Keeps (suc fuel) code ip vm v = elim (Bool-cases (ltb ip code.len)) [
    | inl more ↦
        rw (more, exec_from)
          (then_run-Safe
            (exec_byte-Keeps (decode (byte_at code ip)) fuel code (ip + 1)
              (λ callee. exec_from-Keeps fuel callee 0) vm v)
            (exec_from-Keeps fuel code))
    | inr over ↦ rw (over, exec_from) (vm_panic-Keeps _ vm v)
  ]

-- What `vm_exec` leaves behind: nothing, a machine and a code, or a step that C++ leaves undefined.
abbrev pub LeavesValid : {W : Type 0} → Outcome W ⊥ → Type 0
LeavesValid (ok a vm) = ⊥
LeavesValid (stop e vm) = IsValid vm
LeavesValid fault = Unit
LeavesValid starved = Unit

Safe-LeavesValid : {W : Type 0} {r : Outcome W ⊥} → Safe r → LeavesValid r
Safe-LeavesValid (goes_on {a} v) = a
Safe-LeavesValid (returned v) = v
Safe-LeavesValid faulted = tt
Safe-LeavesValid ran_out = tt

module _ {W : Type 0} (env : Env W) (sys : HandlerKeeps env.sys_handler) where
  -- If the SYS handler keeps the machine valid, then `vm_exec` does, on any entry with any bytes,
  -- well formed or not: the stack pointers, the frame pointer, the dictionary, the window table, the task
  -- table and the message queue stay within their arrays whatever code it returns.
  pub vm_exec-LeavesValid :
      (fuel : ℕ) (entry : Word) (vm : Vm W) → IsValid vm → LeavesValid (vm_exec env fuel entry vm)
  unfolding vm_exec
  vm_exec-LeavesValid fuel entry vm v = Safe-LeavesValid (go entry.code refl)
    where
      go : (o : Option (List ℕ)) → entry.code ≡ o → Safe (vm_exec env fuel entry vm)
      go none e = rw (e, vm_exec) (returned v)
      go (some bytes) e = rw (e, vm_exec) (exec_from-Keeps env sys fuel _ 0 vm v)
