-- ===== src/Safety/Steps.antt =====
-- The invariant and the opcodes of src/core.cpp that act on the stacks, the memory, the locals and the
-- instruction pointer.
use v4_engine.Base.{ℕ, ◌+◌, ◌≡◌, refl, Bool, Option, none, some, ltb, leb}
use v4_engine.Alu.{Computed, value, panics, traps, binary}
use v4_engine.Err.{Err}
use v4_engine.Interp.{
  Code, jump_target, operand, unary_op, pop_two, finish_binary, binary_op, dup_op, drop_op, swap_op,
  over_op, select_op, load_op, store_op, tor_op, fromr_op, rfetch_op, jump_to, jmp_op, branch_op,
  literal_op, plain,
}
use v4_engine.Interp.Local.{frame_slot, local_slot, rs_write, lget_op, lset_op, ltee_op, lmodify_op}
use v4_engine.Opcode.{Op}
use v4_engine.Safety.{Safe, goes_on, faulted, Keeps, Keeps-bind, Keeps-if, Safe-if}
use v4_engine.Safety.Core.{
  stacks-IsValid, vm_panic-Keeps, ds_push-Keeps, ds_pop-Keeps, ds_peek-Keeps, rs_push-Keeps,
  rs_pop-Keeps, rs_peek-Keeps,
}
use v4_engine.Vm.{M}

module _ {W : Type 0} where
  pub unary_op-Keeps : (f : ℕ → ℕ) → Keeps (unary_op {W = W} f)
  unfolding unary_op
  unary_op-Keeps f = Keeps-bind ds_pop-Keeps λ a. ds_push-Keeps (f a)

  pub pop_two-Keeps : (f : ℕ → ℕ → ℕ) → Keeps (pop_two {W = W} f)
  unfolding pop_two
  pop_two-Keeps f = Keeps-bind ds_pop-Keeps λ b. Keeps-bind ds_pop-Keeps λ a. ds_push-Keeps (f a b)

  finish_binary-Keeps : (c : Computed) → Keeps (finish_binary {W = W} c)
  unfolding finish_binary
  finish_binary-Keeps (value r) = ds_push-Keeps r
  finish_binary-Keeps (panics e) = vm_panic-Keeps e
  finish_binary-Keeps traps = λ vm v. faulted

  pub binary_op-Keeps : (op : Op) → Keeps (binary_op {W = W} op)
  unfolding binary_op
  binary_op-Keeps op =
      Keeps-bind ds_pop-Keeps λ b. Keeps-bind ds_pop-Keeps λ a. finish_binary-Keeps (binary op a b)

  pub dup_op-Keeps : Keeps (dup_op {W = W})
  unfolding dup_op
  dup_op-Keeps = Keeps-bind (ds_peek-Keeps 0) ds_push-Keeps

  pub drop_op-Keeps : Keeps (drop_op {W = W})
  unfolding drop_op
  drop_op-Keeps = Keeps-bind ds_pop-Keeps λ _ vm v. goes_on v

  pub swap_op-Keeps : Keeps (swap_op {W = W})
  unfolding swap_op
  swap_op-Keeps =
      Keeps-bind ds_pop-Keeps
        λ a. Keeps-bind ds_pop-Keeps λ b. Keeps-bind (ds_push-Keeps a) λ _. ds_push-Keeps b

  pub over_op-Keeps : Keeps (over_op {W = W})
  unfolding over_op
  over_op-Keeps = Keeps-bind (ds_peek-Keeps 1) ds_push-Keeps

  pub select_op-Keeps : Keeps (select_op {W = W})
  unfolding select_op
  select_op-Keeps =
      Keeps-bind ds_pop-Keeps
        λ a. Keeps-bind ds_pop-Keeps λ b. Keeps-bind ds_pop-Keeps λ flag. ds_push-Keeps _

  pub load_op-Keeps :
      {read : ℕ → M W ℕ} (extend : ℕ → ℕ)
      → ((addr : ℕ) → Keeps (read addr))
      → Keeps (load_op read extend)
  unfolding load_op
  load_op-Keeps extend h =
      Keeps-bind ds_pop-Keeps λ addr. Keeps-bind (h addr) λ val. ds_push-Keeps (extend val)

  pub store_op-Keeps :
      {write : ℕ → ℕ → M W (Unit {0})}
      → ((addr val : ℕ) → Keeps (write addr val))
      → Keeps (store_op write)
  unfolding store_op
  store_op-Keeps h = Keeps-bind ds_pop-Keeps λ addr. Keeps-bind ds_pop-Keeps λ val. h addr val

  pub tor_op-Keeps : Keeps (tor_op {W = W})
  unfolding tor_op
  tor_op-Keeps = Keeps-bind ds_pop-Keeps rs_push-Keeps

  pub fromr_op-Keeps : Keeps (fromr_op {W = W})
  unfolding fromr_op
  fromr_op-Keeps = Keeps-bind rs_pop-Keeps ds_push-Keeps

  pub rfetch_op-Keeps : Keeps (rfetch_op {W = W})
  unfolding rfetch_op
  rfetch_op-Keeps = Keeps-bind (rs_peek-Keeps 0) ds_push-Keeps

  pub operand-Keeps : (n : ℕ) (e : Err) (code : Code) (ip : ℕ) → Keeps (operand {W = W} n e code ip)
  unfolding operand
  operand-Keeps n e code ip vm v =
      Safe-if (ltb code.len (ip + n)) (vm_panic-Keeps e vm v) (goes_on v)

  jump_to-Keeps : (len ip off : ℕ) → Keeps (jump_to {W = W} len ip off)
  unfolding jump_to
  jump_to-Keeps len ip off vm v = go (jump_target len ip off) refl
    where
      go : (o : Option ℕ) → jump_target len ip off ≡ o → Safe (jump_to len ip off vm)
      go none e = rw (e, jump_to) (vm_panic-Keeps Err.jump_out_of_range vm v)
      go (some t) e = rw (e, jump_to) (goes_on v)

  pub jmp_op-Keeps : (code : Code) (ip : ℕ) → Keeps (jmp_op {W = W} code ip)
  unfolding jmp_op
  jmp_op-Keeps code ip =
      Keeps-bind (operand-Keeps 2 _ code ip) λ _. jump_to-Keeps code.len (ip + 2) _

  pub branch_op-Keeps :
      (wanted : ℕ → Bool) (code : Code) (ip : ℕ) → Keeps (branch_op {W = W} wanted code ip)
  unfolding branch_op
  branch_op-Keeps wanted code ip = Keeps-bind (operand-Keeps 2 _ code ip) λ _.
      Keeps-bind ds_pop-Keeps
        λ cond. Keeps-if (wanted cond) (jump_to-Keeps code.len (ip + 2) _) (λ vm v. goes_on v)

  pub literal_op-Keeps :
      (n : ℕ) (decode : Code → ℕ → ℕ) (code : Code) (ip : ℕ)
      → Keeps (literal_op {W = W} n decode code ip)
  unfolding literal_op
  literal_op-Keeps n decode code ip =
      Keeps-bind (operand-Keeps n _ code ip)
        λ _. Keeps-bind (ds_push-Keeps (decode code ip)) λ _ vm v. goes_on v

  pub plain-Keeps : {m : M W (Unit {0})} (ip : ℕ) → Keeps m → Keeps (plain m ip)
  unfolding plain
  plain-Keeps ip h = Keeps-bind h λ _ vm v. goes_on v

  frame_slot-Keeps : (fp : Option ℕ) (idx : ℕ) → Keeps (frame_slot {W = W} fp idx)
  unfolding frame_slot
  frame_slot-Keeps none idx vm v = vm_panic-Keeps _ vm v
  frame_slot-Keeps (some f) idx vm v =
      Safe-if (leb vm.rp (f + idx)) (vm_panic-Keeps _ vm v) (goes_on v)

  local_slot-Keeps : (idx : ℕ) → Keeps (local_slot {W = W} idx)
  unfolding local_slot
  local_slot-Keeps idx vm v = frame_slot-Keeps vm.fp idx vm v

  rs_write-Keeps : (i val : ℕ) → Keeps (rs_write {W = W} i val)
  unfolding rs_write
  rs_write-Keeps i val vm v = goes_on (stacks-IsValid vm.ds _ vm.sp vm.rp v.sp_in v.rp_in v)

  pub lget_op-Keeps : (idx : ℕ) → Keeps (lget_op {W = W} idx)
  unfolding lget_op
  lget_op-Keeps idx = Keeps-bind (local_slot-Keeps idx) λ i vm v. ds_push-Keeps (vm.rs i) vm v

  pub lset_op-Keeps : (idx : ℕ) → Keeps (lset_op {W = W} idx)
  unfolding lset_op
  lset_op-Keeps idx =
      Keeps-bind (local_slot-Keeps idx) λ i. Keeps-bind ds_pop-Keeps λ val. rs_write-Keeps i val

  pub ltee_op-Keeps : (idx : ℕ) → Keeps (ltee_op {W = W} idx)
  unfolding ltee_op
  ltee_op-Keeps idx =
      Keeps-bind (local_slot-Keeps idx)
        λ i. Keeps-bind (ds_peek-Keeps 0) λ val. rs_write-Keeps i val

  pub lmodify_op-Keeps : (f : ℕ → ℕ) (idx : ℕ) → Keeps (lmodify_op {W = W} f idx)
  unfolding lmodify_op
  lmodify_op-Keeps f idx =
      Keeps-bind (local_slot-Keeps idx) λ i vm v. rs_write-Keeps i (f (vm.rs i)) vm v
