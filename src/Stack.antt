-- ===== src/Stack.antt =====
-- src/core.cpp: the data stack, the return stack and the functions that reset, inspect, save and restore them.
pub mod Abstract
pub mod Steps
pub mod Ops
pub mod Exact
pub mod Snapshot
use v4_engine.Base.{
  ℕ, ◌+◌, ◌-◌, ◌*◌, Bool, Option, none, some, ltb, leb, ◌==◌, ◌||◌, ◌&&◌, not, if◌then◌else◌,
  update, copy_cells, is_negative,
}
use v4_engine.Err.{Err}
use v4_engine.Panic.{vm_panic}
use v4_engine.Vm.{Vm, Env, ok, M, ds_cap, rs_cap}

-- vm_ds_copy_to_array and vm_rs_copy_to_array, at an `out_array` that is not null: the count returned
-- and the array afterwards. `max_count` is an `int`.
unfoldable pub copy_to_array : (ℕ → ℕ) → ℕ → (ℕ → ℕ) → ℕ → ℕ × (ℕ → ℕ)
copy_to_array cells depth out max_count =
    if is_negative max_count || max_count == 0
    then (0, out)
    else let count = if ltb depth max_count then depth else max_count in
      (count, copy_cells out cells count)

module _ {W : Type 0} where
  unfoldable pub ds_push : ℕ → M W (Unit {0})
  ds_push v vm =
      if leb ds_cap vm.sp
      then vm_panic Err.stack_overflow vm
      else ok tt (record vm { ds = update vm.ds vm.sp v; sp = vm.sp + 1 })

  unfoldable pub ds_pop : M W ℕ
  ds_pop vm =
      if leb vm.sp 0
      then vm_panic Err.stack_underflow vm
      else ok (vm.ds (vm.sp - 1)) (record vm { sp = vm.sp - 1 })

  -- vm_ds_push and vm_ds_pop at a vm that is not null
  unfoldable pub vm_ds_push : ℕ → M W (Unit {0})
  unfolding ds_push
  vm_ds_push v = ds_push v

  unfoldable pub vm_ds_pop : M W ℕ
  unfolding ds_pop
  vm_ds_pop = ds_pop

  -- vm->sp - 1 - i < vm->DS, for i ≥ 0
  unfoldable pub ds_peek : ℕ → M W ℕ
  ds_peek i vm =
      if ltb vm.sp (i + 1) then vm_panic Err.stack_underflow vm else ok (vm.ds (vm.sp - 1 - i)) vm

  unfoldable pub rs_push : ℕ → M W (Unit {0})
  rs_push v vm =
      if leb rs_cap vm.rp
      then vm_panic Err.stack_overflow vm
      else ok tt (record vm { rs = update vm.rs vm.rp v; rp = vm.rp + 1 })

  unfoldable pub rs_pop : M W ℕ
  rs_pop vm =
      if leb vm.rp 0
      then vm_panic Err.stack_underflow vm
      else ok (vm.rs (vm.rp - 1)) (record vm { rp = vm.rp - 1 })

  unfoldable pub rs_peek : ℕ → M W ℕ
  rs_peek i vm =
      if ltb vm.rp (i + 1) then vm_panic Err.stack_underflow vm else ok (vm.rs (vm.rp - 1 - i)) vm

  unfoldable pub vm_reset_stacks : Vm W → Vm W
  vm_reset_stacks vm = record vm { sp = 0; rp = 0; fp = none }

  unfoldable pub vm_ds_clear : Vm W → Vm W
  vm_ds_clear vm = record vm { sp = 0 }

  unfoldable pub vm_ds_copy_to_array : Vm W → (ℕ → ℕ) → ℕ → ℕ × (ℕ → ℕ)
  unfolding copy_to_array
  vm_ds_copy_to_array vm = copy_to_array vm.ds vm.sp

  unfoldable pub vm_rs_copy_to_array : Vm W → (ℕ → ℕ) → ℕ → ℕ × (ℕ → ℕ)
  unfolding copy_to_array
  vm_rs_copy_to_array vm = copy_to_array vm.rs vm.rp

-- VmStackSnapshot. `depth` is an `int`.
pub record StackSnapshot : Type 0 where
  pub cells : Option (ℕ → ℕ)
  pub depth : ℕ

module _ {W : Type 0} (env : Env W) where
  -- A request to `malloc`: whether it was met, and the machine with the allocator's new state.
  unfoldable pub malloc : ℕ → Vm W → Bool × Vm W
  malloc bytes vm = let r = env.malloc vm.world bytes in (r.met, record vm { world = r.world })

  -- The contents of a fresh block before it is written are never read: they stand as zeros here.
  unfoldable pub vm_ds_snapshot : Vm W → Option StackSnapshot × Vm W
  unfolding malloc
  vm_ds_snapshot vm =
      let (met, vm₁) = malloc 16 vm in
      let (data_met, vm₂) = malloc (vm.sp * 4) vm₁ in
      if vm.sp == 0
      then if met then (some (record { cells = none; depth = 0 }), vm₁) else (none, vm₁)
      else if met
      then if data_met
        then (some (record { cells = some (copy_cells (λ _. 0) vm.ds vm.sp); depth = vm.sp }), vm₂)
        else (none, vm₂)
      else (none, vm₁)

module _ {W : Type 0} where
  -- The copy back: only if the depth is positive and the block is there.
  unfoldable pub restore_cells : Option (ℕ → ℕ) → ℕ → Vm W → Vm W
  restore_cells none depth vm = record vm { sp = 0 }
  restore_cells (some cells) depth vm =
      if is_negative depth || depth == 0
      then record vm { sp = 0 }
      else record vm { ds = copy_cells vm.ds cells depth; sp = depth }

  -- vm_ds_restore at a snapshot that is not null
  unfoldable pub vm_ds_restore : StackSnapshot → M W (Unit {0})
  unfolding restore_cells
  vm_ds_restore snap vm =
      if not (is_negative snap.depth) && ltb ds_cap snap.depth
      then vm_panic Err.stack_overflow vm
      else ok tt (restore_cells snap.cells snap.depth vm)

  -- vm_ds_snapshot_free at a snapshot that is not null. `free` is the C library's, at any block.
  unfoldable pub vm_ds_snapshot_free : (W → W) → StackSnapshot → W → W
  vm_ds_snapshot_free free snap w = free (elim snap.cells [ none ↦ w | some cells ↦ free w ])
