-- ===== src/Tests/Switch.antt =====
-- Stacks that are saved and put back: by a task switch, by a snapshot, by CALL.
use v4_engine.Base.{cells_down, sym, subst, update, ℕ, ◌≡◌, some, [], ◌∷◌, refl, arith}
use v4_engine.Interp.{Code}
use v4_engine.Interp.Call.{call_op}
use v4_engine.Interp.Frames.{FrameKept, call_op-FrameKept}
use v4_engine.Interp.Loop.{vm_exec_raw}
use v4_engine.Scheduler.{save_context, restore_context, vm_schedule}
use v4_engine.Scheduler.Switch.{Stacks, Parked, HasRoom, Holds, update_other}
use v4_engine.Scheduler.Switch.Whole.{vm_schedule-Holds}
use v4_engine.Scheduler.Context.{
  stacks, clobber, restore_context-save_context, restore_context-save_context_full,
}
use v4_engine.Stack.{StackSnapshot, malloc, vm_ds_snapshot, vm_ds_restore}
use v4_engine.Base.{copy_cells}
use v4_engine.Lifecycle.{fresh_vm}
use v4_engine.Stack.Abstract.{view, gives, stack_of}
use v4_engine.Stack.Snapshot.{ds_restore-ds_snapshot}
use v4_engine.Task.{zero_task, task_sleep}
use v4_engine.Task.Sleep.{chosen, task_sleep-Holds}
use v4_engine.Tests.{clock_env, vm, two_deep}
use v4_engine.Vm.{Vm, Buffer, Task, ready, running, ok, ◌>>=◌}

abbrev block : ℕ → Buffer
block n = record { size = n; cells = λ _. 0 }

-- Task 0 with blocks, and a data stack of `n` cells.
abbrev with_task : ℕ → Vm ℕ
with_task n = record vm {
  sp = n;
  ds = λ i. i;
  scheduler = record (vm.scheduler) {
    tasks = λ _. record zero_task { ds_base = some (block 256); rs_base = some (block 64) };
  };
}

restore_context-save_context_example :
    stacks (
      (save_context 0 >>= λ _. clobber (λ _. 9) (λ _. 9) 5 5 >>= λ _. restore_context 0)
        (with_task 2))
    ≡ some (1 ∷ 0 ∷ [], [])
unfolding fresh_vm
restore_context-save_context_example =
    restore_context-save_context (with_task 2) 0 (block 256) (block 64) (λ _. 9) (λ _. 9) 5 5 refl
      refl (omega arith) (omega arith) (omega arith) (omega arith)

restore_context-save_context_full_example :
    stacks (
      (save_context 0 >>= λ _. clobber (λ _. 9) (λ _. 9) 5 5 >>= λ _. restore_context 0)
        (with_task 256))
    ≡ some ([], [])
unfolding fresh_vm
restore_context-save_context_full_example =
    restore_context-save_context_full (with_task 256) 0 (block 256) (block 64) (λ _. 9) (λ _. 9) 5 5
      refl refl refl (omega arith) (omega arith)

-- The snapshot of the two cells of `two_deep`.
abbrev two_cells : StackSnapshot
two_cells = record { cells = some (copy_cells (λ _. 0) (λ i. i) 2); depth = 2 }

ds_restore-ds_snapshot_example : view (vm_ds_restore two_cells vm) ≡ gives tt (stack_of two_deep)
unfolding vm_ds_snapshot malloc
ds_restore-ds_snapshot_example =
    ds_restore-ds_snapshot clock_env two_deep two_cells vm (omega arith) refl

-- CALL 0
abbrev calling : Code
calling = record { bytes = 0x50 ∷ 0 ∷ 0 ∷ []; len = 3 }

call_op-FrameKept_example :
    FrameKept (two_deep.fp) 3 (call_op (vm_exec_raw clock_env 10) calling 1 two_deep)
call_op-FrameKept_example = call_op-FrameKept (vm_exec_raw clock_env 10) calling 1 two_deep

-- Task 0 runs, with two cells; every other task is READY, of priority 2, with one cell in its block.
abbrev waiting : Task
waiting = record zero_task {
  state = ready;
  priority = 2;
  ds_base = some (record { size = 256; cells = λ _. 7 });
  rs_base = some (block 64);
  ds_depth = 1;
}

abbrev active : Task
active = record zero_task {
  state = running;
  priority = 1;
  ds_base = some (block 256);
  rs_base = some (block 64);
}

abbrev tasks_vm : Vm ℕ
tasks_vm = record vm {
  sp = 2;
  ds = λ i. i;
  scheduler = record (vm.scheduler) { tasks = update (λ _. waiting) 0 active };
}

abbrev tasks_stacks : ℕ → Stacks
tasks_stacks = update (λ _. (7 ∷ [], [])) 0 (1 ∷ 0 ∷ [], [])

waiting-Parked : Parked waiting (7 ∷ [], [])
waiting-Parked = record {
  ds_block = record { size = 256; cells = λ _. 7 };
  rs_block = block 64;
  ds_is = refl;
  rs_is = refl;
  ds_room = omega arith;
  ds_fits = omega arith;
  rs_room = omega arith;
  rs_fits = omega arith;
  ds_cells = refl;
  rs_cells = refl;
}

tasks_vm-Holds : Holds tasks_vm tasks_stacks
unfolding fresh_vm
tasks_vm-Holds = record {
  current_holds = refl;
  others_hold = λ k other alive.
      subst (λ t. Parked t (tasks_stacks k)) (sym (update_other (λ _. waiting) 0 k active other))
        (subst (λ s. Parked waiting s)
          (sym (update_other (λ _. (7 ∷ [], [])) 0 k (1 ∷ 0 ∷ [], []) other)) waiting-Parked);
}

tasks_vm-HasRoom : HasRoom tasks_vm active
unfolding fresh_vm
tasks_vm-HasRoom = record {
  ds_block = block 256;
  rs_block = block 64;
  ds_is = refl;
  rs_is = refl;
  ds_room = omega arith;
  ds_fits = omega arith;
  rs_room = omega arith;
  rs_fits = omega arith;
}

vm_schedule-Holds_example :
    (vm' : Vm ℕ) × (vm_schedule clock_env tasks_vm ≡ ok tt vm') × Holds vm' tasks_stacks
unfolding fresh_vm
vm_schedule-Holds_example =
    vm_schedule-Holds clock_env tasks_vm tasks_stacks tasks_vm-Holds refl tasks_vm-HasRoom

-- Task 0 sleeps with the two cells 1 and 0 on the machine; its block still has one cell, 0, from an earlier save.
abbrev saved_before : Task
saved_before = record active { ds_depth = 1 }

abbrev sleeper_vm : Vm ℕ
sleeper_vm = record tasks_vm {
  scheduler = record (tasks_vm.scheduler) { tasks = update (λ _. waiting) 0 saved_before };
}

sleeper_vm-Holds : Holds sleeper_vm tasks_stacks
unfolding fresh_vm
sleeper_vm-Holds = record {
  current_holds = refl;
  others_hold = λ k other alive.
      subst (λ t. Parked t (tasks_stacks k))
        (sym (update_other (λ _. waiting) 0 k saved_before other))
        (subst (λ s. Parked waiting s)
          (sym (update_other (λ _. (7 ∷ [], [])) 0 k (1 ∷ 0 ∷ [], []) other)) waiting-Parked);
}

abbrev old_stacks : Stacks
old_stacks = (0 ∷ [], [])

saved_before-Parked : Parked saved_before old_stacks
saved_before-Parked = record {
  ds_block = block 256;
  rs_block = block 64;
  ds_is = refl;
  rs_is = refl;
  ds_room = omega arith;
  ds_fits = omega arith;
  rs_room = omega arith;
  rs_fits = omega arith;
  ds_cells = refl;
  rs_cells = refl;
}

task_sleep-Holds_example :
    (vm' : Vm ℕ) × (task_sleep clock_env 10 sleeper_vm ≡ ok tt vm')
    × Holds vm' (update tasks_stacks 0 old_stacks)
    × (vm'.scheduler.current_task ≡ chosen clock_env sleeper_vm 10)
    × ((vm'.scheduler.tasks (chosen clock_env sleeper_vm 10)).state ≡ running)
    × (chosen clock_env sleeper_vm 10 ≡ 0 → (stack_of vm', cells_down vm'.rs vm'.rp) ≡ old_stacks)
unfolding fresh_vm
task_sleep-Holds_example =
    task_sleep-Holds clock_env sleeper_vm 10 tasks_stacks old_stacks sleeper_vm-Holds
      saved_before-Parked (omega arith)
