-- ===== src/Scheduler.antt =====
-- src/scheduler.cpp: saving and restoring a task's stacks, choosing the next task, switching to it.
pub mod Select
pub mod Context
pub mod Switch
use v4_engine.Base.{
  ℕ, zero, suc, ◌+◌, Bool, true, false, Option, none, some, ltb, leb, ◌==◌, ◌&&◌, ◌||◌, not,
  if◌then◌else◌, update, copy_cells, u8, u16, u32,
}
use v4_engine.Vm.{
  Vm, Env, Task, TaskState, dead, ready, running, blocked, Buffer, ok, fault, M, ◌>>=◌, ◌>>◌,
  max_tasks, broadcast, rs_cap, ds_cap,
}

abbrev pub is_dead : TaskState → Bool
is_dead dead = true
is_dead _ = false

abbrev pub is_running : TaskState → Bool
is_running running = true
is_running _ = false

abbrev pub is_blocked : TaskState → Bool
is_blocked blocked = true
is_blocked _ = false

-- READY or RUNNING
abbrev pub is_runnable : TaskState → Bool
is_runnable ready = true
is_runnable running = true
is_runnable _ = false

-- memcpy into a task's block, if it has one. `none` is a copy past the end of the block.
unfoldable pub save_block : Option Buffer → (ℕ → ℕ) → ℕ → Option (Option Buffer)
save_block none cells depth = some none
save_block (some b) cells depth =
    if ltb b.size depth
    then none
    else some (some (record b { cells = copy_cells b.cells cells depth }))

-- memcpy out of a task's block into an array of `cap` cells. `none` is a copy past either end.
unfoldable pub restore_block : Option Buffer → ℕ → (ℕ → ℕ) → ℕ → Option (ℕ → ℕ)
restore_block none cap cells depth = some cells
restore_block (some b) cap cells depth =
    if ltb b.size depth || ltb cap depth then none else some (copy_cells cells b.cells depth)

module _ {W : Type 0} where
  abbrev pub set_task : Vm W → ℕ → Task → Vm W
  set_task vm i task = record vm {
    scheduler = record (vm.scheduler) { tasks = update vm.scheduler.tasks i task };
  }

  -- The task in slot `i` with its saved blocks and depths; the depths are kept in 8 bits.
  unfoldable pub store_saved : Option (Option Buffer) → Option (Option Buffer) → ℕ → M W (Unit {0})
  store_saved none rs i vm = fault
  store_saved (some ds_base) none i vm = fault
  store_saved (some ds_base) (some rs_base) i vm = ok tt (
      set_task vm i (record (vm.scheduler.tasks i) {
        ds_base = ds_base;
        rs_base = rs_base;
        ds_depth = u8 vm.sp;
        rs_depth = u8 vm.rp;
      }))

  -- v4_task_save_context, at the task in slot `i`
  unfoldable pub save_context : ℕ → M W (Unit {0})
  unfolding save_block store_saved
  save_context i vm =
      store_saved (save_block (vm.scheduler.tasks i).ds_base vm.ds (u8 vm.sp))
        (save_block (vm.scheduler.tasks i).rs_base vm.rs (u8 vm.rp)) i vm

  unfoldable pub load_stacks : Option (ℕ → ℕ) → Option (ℕ → ℕ) → ℕ → ℕ → M W (Unit {0})
  load_stacks none rs ds_depth rs_depth vm = fault
  load_stacks (some ds) none ds_depth rs_depth vm = fault
  load_stacks (some ds) (some rs) ds_depth rs_depth vm =
      ok tt (record vm { ds = ds; rs = rs; sp = ds_depth; rp = rs_depth })

  -- v4_task_restore_context, from the task in slot `i`
  unfoldable pub restore_context : ℕ → M W (Unit {0})
  unfolding restore_block load_stacks
  restore_context i vm =
      let task = vm.scheduler.tasks i in
      load_stacks (restore_block task.ds_base ds_cap vm.ds task.ds_depth)
        (restore_block task.rs_base rs_cap vm.rs task.rs_depth) task.ds_depth task.rs_depth vm

-- A sleeper whose deadline has passed becomes READY.
unfoldable pub wake : ℕ → Task → Task
wake tick task =
    if is_blocked task.state && leb task.sleep_until_tick tick
    then record task { state = ready }
    else task

-- The local variables of the selection loop.
pub record Pick : Type 0 where
  pub highest_priority : ℕ
  pub selected_task : ℕ

-- One round of the loop at slot `i`, after the task there was woken.
unfoldable pub consider : ℕ → ℕ → Task → Pick → Pick
consider current i task p =
    if is_runnable task.state
    then if ltb p.highest_priority task.priority
      then record { highest_priority = task.priority; selected_task = i }
      else if task.priority == p.highest_priority && not (p.selected_task == broadcast)
      then if ltb current i && leb p.selected_task current
        then record p { selected_task = i }
        else p
      else p
    else p

-- The loop at slot `i`, with `n` slots left.
unfoldable pub select_from : ℕ → ℕ → (ℕ → Task) → ℕ → ℕ → Pick → Pick
select_from tick current tasks zero i p = p
select_from tick current tasks (suc n) i p =
    select_from tick current tasks n (i + 1) (consider current i (wake tick (tasks i)) p)

abbrev pub no_pick : Pick
no_pick = record { highest_priority = 0; selected_task = 0xff }

abbrev pub wake_all : ℕ → (ℕ → Task) → ℕ → Task
wake_all tick tasks i = if ltb i max_tasks then wake tick (tasks i) else tasks i

-- The task that the loop picks; with none, the current one stays.
unfoldable pub select_task : ℕ → ℕ → (ℕ → Task) → ℕ
unfolding select_from consider wake
select_task tick current tasks =
    let p = select_from tick current tasks max_tasks 0 no_pick in
    if p.selected_task == 0xff then current else p.selected_task

module _ {W : Type 0} (env : Env W) where
  -- v4_task_select_next: the loop wakes each sleeper as it passes it, and reads the tick once.
  unfoldable pub select_next : M W ℕ
  unfolding select_task wake
  select_next vm =
      let t = env.tick_ms vm.world in
      ok (select_task t.now vm.scheduler.current_task vm.scheduler.tasks) (record vm {
        scheduler = record (vm.scheduler) { tasks = wake_all t.now vm.scheduler.tasks };
        world = t.world;
      })

  -- The first part of vm_schedule: a RUNNING task is saved and becomes READY.
  unfoldable pub suspend_current : M W (Unit {0})
  unfolding save_context
  suspend_current vm =
      let i = vm.scheduler.current_task in
      if is_running (vm.scheduler.tasks i).state
      then (save_context i >>= λ _ vm'.
            ok tt (set_task vm' i (record (vm'.scheduler.tasks i) { state = ready })))
          vm
      else ok tt vm

  -- The last part: the current task goes on, or the machine switches to `next`.
  unfoldable pub switch_to : ℕ → M W (Unit {0})
  unfolding restore_context
  switch_to next vm =
      let i = vm.scheduler.current_task in
      let current = vm.scheduler.tasks i in
      if next == i && not (is_dead current.state) && not (is_blocked current.state)
      then ok tt (set_task vm i (record current { state = running }))
      else (restore_context next >>= λ _ vm'. ok tt (record vm' {
        scheduler = record (vm'.scheduler) {
          tasks = update vm'.scheduler.tasks next (record (vm'.scheduler.tasks next) {
            state = running;
            exec_count = u16 ((vm'.scheduler.tasks next).exec_count + 1);
          });
          current_task = next;
          context_switches = u32 (vm'.scheduler.context_switches + 1);
        };
      }))
          vm

  unfoldable pub vm_schedule : M W (Unit {0})
  unfolding suspend_current select_next switch_to
  vm_schedule = suspend_current >> (select_next >>= switch_to)

  -- No switch inside a critical section.
  unfoldable pub vm_schedule_from_isr : M W (Unit {0})
  unfolding vm_schedule
  vm_schedule_from_isr vm =
      if ltb 0 vm.scheduler.critical_nesting
      then ok tt vm
      else vm_schedule (record vm {
        scheduler = record (vm.scheduler) { preemptions = u32 (vm.scheduler.preemptions + 1) };
      })
