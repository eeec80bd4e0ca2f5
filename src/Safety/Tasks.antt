-- ===== src/Safety/Tasks.antt =====
-- The invariant and the functions of src/scheduler.cpp.
use v4_engine.Base.{
  ℕ, zero, suc, ◌+◌, ◌≤◌, ◌<◌, ◌≡◌, refl, true, false, Option, none, some, ◌⊎◌, inl, arith, ltb,
  leb, ◌==◌, ◌&&◌, if◌then◌else◌, update,
}
use v4_engine.Safety.{
  DepthsIn, SchedulerIn, QueueIn, IsValid, goes_on, faulted, Keeps, Keeps-bind, Safe-if,
  then_run-Safe,
}
use v4_engine.Safety.Core.{stacks-IsValid, world-IsValid}
use v4_engine.Scheduler.{
  store_saved, load_stacks, save_context, restore_context, set_task, wake, wake_all, Pick, consider,
  select_from, select_task, no_pick, suspend_current, switch_to, vm_schedule, vm_schedule_from_isr,
  is_running, is_blocked,
}
use v4_engine.Vm.{
  Vm, Env, Task, Scheduler, MsgQueue, Buffer, ready, running, ds_cap, rs_cap, max_tasks, broadcast,
}

-- The slot that is written, and the others.
update-DepthsIn :
    (tasks : ℕ → Task) (i : ℕ) (t : Task)
    → ((j : ℕ) → DepthsIn (tasks j))
    → DepthsIn t
    → (j : ℕ) → DepthsIn (update tasks i t j)
update-DepthsIn tasks i t h ht j = elim (i == j) as (λ b. DepthsIn (if b then t else tasks j)) [
  | true ↦ ht
  | false ↦ h j
]

wake-DepthsIn : (tick : ℕ) (t : Task) → DepthsIn t → DepthsIn (wake tick t)
unfolding wake
wake-DepthsIn tick t h =
    elim (is_blocked t.state && leb t.sleep_until_tick tick)
      as (λ b. DepthsIn (if b then record t { state = ready } else t)) [
        | true ↦ assumption
        | false ↦ h
      ]

wake_all-DepthsIn :
    (tick : ℕ) (tasks : ℕ → Task)
    → ((j : ℕ) → DepthsIn (tasks j))
    → (j : ℕ) → DepthsIn (wake_all tick tasks j)
wake_all-DepthsIn tick tasks h j =
    elim (ltb j max_tasks) as (λ b. DepthsIn (if b then wake tick (tasks j) else tasks j)) [
      | true ↦ wake-DepthsIn tick (tasks j) (h j)
      | false ↦ h j
    ]

-- The mark for no task, or a slot.
abbrev PickIn : Pick → Type 0
PickIn p = (p.selected_task ≡ broadcast) ⊎ (p.selected_task < max_tasks)

consider-PickIn :
    (current i : ℕ) (t : Task) (p : Pick)
    → i < max_tasks
    → PickIn p
    → PickIn (consider current i t p)
unfolding consider
consider-PickIn current i t p hi hp = ground arith

select_from-PickIn :
    (tick current : ℕ) (tasks : ℕ → Task) (n i : ℕ) (p : Pick)
    → i + n ≤ max_tasks
    → PickIn p
    → PickIn (select_from tick current tasks n i p)
unfolding select_from
select_from-PickIn tick current tasks zero i p h hp = hp
select_from-PickIn tick current tasks (suc n) i p h hp =
    select_from-PickIn tick current tasks n (i + 1) _ (omega arith)
      (consider-PickIn current i (wake tick (tasks i)) p (omega arith) hp)

settle-lt :
    (current : ℕ) (p : Pick)
    → current < max_tasks
    → PickIn p
    → (if p.selected_task == 0xff then current else p.selected_task) < max_tasks
settle-lt current p h hp = ground arith

-- The scheduler's choice is a slot of the table.
pub select_task-lt :
    (tick current : ℕ) (tasks : ℕ → Task)
    → current < max_tasks
    → select_task tick current tasks < max_tasks
unfolding select_task
select_task-lt tick current tasks h =
    settle-lt current (select_from tick current tasks max_tasks 0 no_pick) h
      (select_from-PickIn tick current tasks max_tasks 0 no_pick (omega arith) (inl refl))

module _ {W : Type 0} where
  pub scheduler-IsValid :
      {vm : Vm W} (s : Scheduler)
      → SchedulerIn s
      → IsValid vm
      → IsValid (record vm { scheduler = s })
  scheduler-IsValid s h v = assumption

  pub queue-IsValid :
      {vm : Vm W} (q : MsgQueue) → QueueIn q → IsValid vm → IsValid (record vm { msg_queue = q })
  queue-IsValid q h v = assumption

  pub set_task-IsValid :
      {vm : Vm W} (i : ℕ) (t : Task) → DepthsIn t → IsValid vm → IsValid (set_task vm i t)
  set_task-IsValid {vm} i t h v =
      scheduler-IsValid _
        (record {
          current_in = v.sched_in.current_in;
          depths_in = update-DepthsIn vm.scheduler.tasks i t v.sched_in.depths_in h;
        })
        v

  store_saved-Keeps : (ds rs : Option (Option Buffer)) (i : ℕ) → Keeps (store_saved {W = W} ds rs i)
  unfolding store_saved
  store_saved-Keeps none rs i vm v = faulted
  store_saved-Keeps (some ds) none i vm v = faulted
  store_saved-Keeps (some ds) (some rs) i vm v =
      goes_on (set_task-IsValid i _ (record { ds_in = omega arith; rs_in = omega arith }) v)

  save_context-Keeps : (i : ℕ) → Keeps (save_context {W = W} i)
  unfolding save_context
  save_context-Keeps i vm v = store_saved-Keeps _ _ i vm v

  load_stacks-Keeps :
      (ds rs : Option (ℕ → ℕ)) {sp rp : ℕ}
      → sp ≤ ds_cap
      → rp ≤ rs_cap
      → Keeps (load_stacks {W = W} ds rs sp rp)
  unfolding load_stacks
  load_stacks-Keeps none rs hs hr vm v = faulted
  load_stacks-Keeps (some ds) none hs hr vm v = faulted
  load_stacks-Keeps (some ds) (some rs) hs hr vm v = goes_on (stacks-IsValid ds rs _ _ hs hr v)

  restore_context-Keeps : (i : ℕ) → Keeps (restore_context {W = W} i)
  unfolding restore_context
  restore_context-Keeps i vm v =
      load_stacks-Keeps _ _ (v.sched_in.depths_in i).ds_in (v.sched_in.depths_in i).rs_in vm v

module _ {W : Type 0} (env : Env W) where
  suspend_current-Keeps : Keeps (suspend_current env)
  unfolding suspend_current
  suspend_current-Keeps vm v =
      Safe-if (is_running (vm.scheduler.tasks vm.scheduler.current_task).state)
        (then_run-Safe (save_context-Keeps _ vm v) (λ _ vm' v'. goes_on (
          set_task-IsValid vm.scheduler.current_task _
            (readied (v'.sched_in.depths_in vm.scheduler.current_task)) v')))
        (goes_on v)
    where
      readied : {t : Task} → DepthsIn t → DepthsIn (record t { state = ready })
      readied h = assumption

  -- The machine after the choice of the next task.
  woken-IsValid :
      (vm : Vm W)
      → IsValid vm
      → IsValid (record vm {
        scheduler = record (vm.scheduler) {
          tasks = wake_all (env.tick_ms vm.world).now vm.scheduler.tasks;
        };
        world = (env.tick_ms vm.world).world;
      })
  woken-IsValid vm v = world-IsValid _ (
      scheduler-IsValid _
        (record {
          current_in = v.sched_in.current_in;
          depths_in =
              wake_all-DepthsIn (env.tick_ms vm.world).now vm.scheduler.tasks v.sched_in.depths_in;
        })
        v)

  switch_to-Keeps : (next : ℕ) → next < max_tasks → Keeps (switch_to env next)
  unfolding switch_to
  switch_to-Keeps next hn vm v =
      Safe-if _ (goes_on (set_task-IsValid _ _ (restated (v.sched_in.depths_in _)) v)) (
        then_run-Safe (restore_context-Keeps next vm v) (λ _ vm' v'. goes_on (
          scheduler-IsValid _
            (record {
              current_in = hn;
              depths_in =
                  update-DepthsIn vm'.scheduler.tasks next _ v'.sched_in.depths_in
                    (resumed (v'.sched_in.depths_in next));
            })
            v')))
    where
      restated : {t : Task} → DepthsIn t → DepthsIn (record t { state = running })
      restated h = assumption

      resumed :
          {t : Task} {n : ℕ} → DepthsIn t → DepthsIn (record t { state = running; exec_count = n })
      resumed h = assumption

  -- The chosen task is a slot of the table, and the stack pointers that it restores are within the stacks.
  pub vm_schedule-Keeps : Keeps (vm_schedule env)
  unfolding vm_schedule
  vm_schedule-Keeps = Keeps-bind suspend_current-Keeps λ _ vm v.
      switch_to-Keeps _
        (select_task-lt (env.tick_ms vm.world).now vm.scheduler.current_task vm.scheduler.tasks
          v.sched_in.current_in)
        _ (woken-IsValid vm v)

  pub vm_schedule_from_isr-Keeps : Keeps (vm_schedule_from_isr env)
  unfolding vm_schedule_from_isr
  vm_schedule_from_isr-Keeps vm v = Safe-if (ltb 0 vm.scheduler.critical_nesting) (goes_on v) (
      vm_schedule-Keeps _ (
        scheduler-IsValid _
          (record { current_in = v.sched_in.current_in; depths_in = v.sched_in.depths_in }) v))
