-- ===== src/Scheduler/Switch.antt =====
-- vm_schedule of src/scheduler.cpp: which task has which stacks.
pub mod Awake
pub mod Incoming
pub mod Outgoing
pub mod Whole
use v4_engine.Base.{
  ℕ, zero, suc, ◌+◌, ◌≤◌, ◌<◌, ◌≡◌, ◌≢◌, refl, sym, ap, ap₂, ◌∙◌, subst, Bool, true, false, Option,
  none, some, List, ◌⊎◌, inl, inr, arith, ltb, leb, ◌==◌, ◌&&◌, ◌||◌, not, if◌then◌else◌, update,
  copy_cells, cells_down, ◌^◌, u8, u16, u32, Bool-cases, ==→eq, ==_self, eq→==,
}
use v4_engine.Scheduler.{
  is_dead, is_running, is_blocked, is_runnable, save_block, save_context, restore_context, set_task,
  wake, wake_all, Pick, consider, select_from, select_task, no_pick, suspend_current, select_next,
  switch_to, vm_schedule,
}
use v4_engine.Scheduler.Context.{restore_context-loaded, save_context-saved, saved}
use v4_engine.Stack.Abstract.{stack_of}
use v4_engine.Stack.Snapshot.{cells_down-copy_cells}
use v4_engine.Vm.{
  Vm, Env, Task, Scheduler, Buffer, TaskState, dead, ready, running, blocked, Outcome, ok, then_run,
  max_tasks, broadcast, ds_cap, rs_cap,
}

-- A task's two stacks.
abbrev pub Stacks : Type 0
Stacks = List ℕ × List ℕ

-- A task that is not current, whose blocks hold the stacks `s`.
pub record Parked (t : Task) (s : Stacks) : Type 0 where
  pub ds_block : Buffer
  pub rs_block : Buffer
  pub ds_is : t.ds_base ≡ some ds_block
  pub rs_is : t.rs_base ≡ some rs_block
  pub ds_room : t.ds_depth ≤ ds_block.size
  pub ds_fits : t.ds_depth ≤ ds_cap
  pub rs_room : t.rs_depth ≤ rs_block.size
  pub rs_fits : t.rs_depth ≤ rs_cap
  pub ds_cells : cells_down ds_block.cells t.ds_depth ≡ s.0
  pub rs_cells : cells_down rs_block.cells t.rs_depth ≡ s.1

-- The task `t` is running: its blocks have room for the machine's stacks, of which the data stack is not full.
pub record HasRoom {W : Type 0} (vm : Vm W) (t : Task) : Type 0 where
  pub ds_block : Buffer
  pub rs_block : Buffer
  pub ds_is : t.ds_base ≡ some ds_block
  pub rs_is : t.rs_base ≡ some rs_block
  pub ds_room : vm.sp ≤ ds_block.size
  pub ds_fits : vm.sp < ds_cap
  pub rs_room : vm.rp ≤ rs_block.size
  pub rs_fits : vm.rp ≤ rs_cap

-- `held` says what stacks each task has: the current one those of the machine, another that is not DEAD those in
-- its blocks.
pub record Holds {W : Type 0} (vm : Vm W) (held : ℕ → Stacks) : Type 0 where
  pub current_holds : (stack_of vm, cells_down vm.rs vm.rp) ≡ held vm.scheduler.current_task
  pub others_hold :
      (k : ℕ)
      → k ≢ vm.scheduler.current_task
      → is_dead (vm.scheduler.tasks k).state ≡ false
      → Parked (vm.scheduler.tasks k) (held k)

-- Every task that is not DEAD, the current one too, has its stacks in its blocks.
abbrev pub AllParked : (ℕ → Task) → (ℕ → Stacks) → Type 0
AllParked tasks held = (k : ℕ) → is_dead (tasks k).state ≡ false → Parked (tasks k) (held k)

pub true_ne_false : {b : Bool} → b ≡ true → b ≡ false → ⊥
true_ne_false h e = ground arith

-- An update in another slot.
pub update_other :
    {A : Type 0} (tasks : ℕ → A) (i k : ℕ) (t : A) → k ≢ i → update tasks i t k ≡ tasks k
update_other tasks i k t h = rw (apart k h) refl
  where
    apart : (k : ℕ) → k ≢ i → (i == k) ≡ false
    apart k h = ground arith
