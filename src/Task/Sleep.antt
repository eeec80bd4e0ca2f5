-- ===== src/Task/Sleep.antt =====
-- v4_backend_task_sleep of src/task_backend_custom.cpp: the stacks of the task that goes to sleep.
use v4_engine.Base.{
  ℕ, cells_down, ◌+◌, ◌<◌, ◌≡◌, ◌≢◌, refl, sym, ap, ◌∙◌, subst, Bool, true, false, inl, inr, arith,
  ltb, leb, ◌==◌, ◌&&◌, not, if◌then◌else◌, update, u32, Bool-cases, ==→eq, ==_self, eq→==,
}
use v4_engine.Scheduler.{
  is_dead, is_running, is_blocked, wake, wake_all, select_task, suspend_current, select_next,
  switch_to, vm_schedule,
}
use v4_engine.Scheduler.Switch.{Stacks, Parked, Holds, AllParked, true_ne_false, update_other}
use v4_engine.Scheduler.Switch.Awake.{wake_all-AllParked, choice_runs}
use v4_engine.Scheduler.Switch.Incoming.{goes_on, switch_to-Moves, runnable_alive}
use v4_engine.Stack.Abstract.{stack_of}
use v4_engine.Task.{block_current, task_sleep}
use v4_engine.Vm.{Vm, Env, Task, TaskState, running, blocked, ok, max_tasks}

abbrev asleep : Task → ℕ → Task
asleep t deadline = record t { sleep_until_tick = deadline; state = blocked }

asleep-Parked : {t : Task} {s : Stacks} (deadline : ℕ) → Parked t s → Parked (asleep t deadline) s
asleep-Parked deadline h = record {
  ds_block = h.ds_block;
  rs_block = h.rs_block;
  ds_is = h.ds_is;
  rs_is = h.rs_is;
  ds_room = h.ds_room;
  ds_fits = h.ds_fits;
  rs_room = h.rs_room;
  rs_fits = h.rs_fits;
  ds_cells = h.ds_cells;
  rs_cells = h.rs_cells;
}

-- A sleeper whose deadline is ahead is not woken.
wake_all-asleep :
    (tick : ℕ) (table : ℕ → Task) (i : ℕ) (t : Task) (deadline : ℕ)
    → table i ≡ asleep t deadline
    → tick < deadline
    → wake_all tick table i ≡ asleep t deadline
unfolding wake
wake_all-asleep tick table i t deadline is_asleep ahead = in_table (ltb i max_tasks)
  where
    not_due : leb deadline tick ≡ false
    not_due = ground arith

    unwoken : (u : Task) → u ≡ asleep t deadline → wake tick u ≡ asleep t deadline
    unwoken u e = rw (e, not_due) refl

    in_table : (b : Bool) → (if b then wake tick (table i) else table i) ≡ asleep t deadline
    in_table true = unwoken (table i) is_asleep
    in_table false = is_asleep

module _ {W : Type 0} (env : Env W) (vm : Vm W) (ms_delay : ℕ) where
  -- The clock as v4_backend_task_sleep reads it, and then the scheduler.
  abbrev deadline : ℕ
  deadline = u32 ((env.tick_ms vm.world).now + ms_delay)

  abbrev tick_after : ℕ
  tick_after = (env.tick_ms (env.tick_ms vm.world).world).now

  abbrev sleeping_table : ℕ → Task
  sleeping_table =
      update vm.scheduler.tasks vm.scheduler.current_task
        (asleep (vm.scheduler.tasks vm.scheduler.current_task) deadline)

  abbrev sleeping_machine : Vm W
  sleeping_machine = record vm {
    scheduler = record (vm.scheduler) { tasks = wake_all tick_after sleeping_table };
    world = (env.tick_ms (env.tick_ms vm.world).world).world;
  }

  -- The task that the scheduler chooses.
  abbrev pub chosen : ℕ
  chosen = select_task tick_after vm.scheduler.current_task sleeping_table

  sleeping_current :
      sleeping_table vm.scheduler.current_task
      ≡ asleep (vm.scheduler.tasks vm.scheduler.current_task) deadline
  sleeping_current = rw (==_self vm.scheduler.current_task) refl

  not_running : is_running (sleeping_table vm.scheduler.current_task).state ≡ false
  not_running = rw (==_self vm.scheduler.current_task) refl

  task_sleep-switches : task_sleep env ms_delay vm ≡ switch_to env chosen sleeping_machine
  unfolding task_sleep block_current vm_schedule suspend_current select_next
  task_sleep-switches = rw not_running refl

  sleeping-AllParked :
      (held : ℕ → Stacks) (old : Stacks)
      → Holds vm held
      → Parked (vm.scheduler.tasks vm.scheduler.current_task) old
      → AllParked sleeping_table (update held vm.scheduler.current_task old)
  sleeping-AllParked held old h p k alive = elim (Bool-cases (k == vm.scheduler.current_task)) [
    | inl same ↦
        subst (λ n. Parked (sleeping_table n) (update held vm.scheduler.current_task old n))
          (sym (==→eq k _ same)) (own (sleeping_current) sleeping_current_old)
    | inr other ↦
        subst (λ t. Parked t (update held vm.scheduler.current_task old k))
          (sym (unchanged (apart other)))
          (subst (λ s. Parked (vm.scheduler.tasks k) s)
            (sym (update_other held vm.scheduler.current_task k old (apart other)))
            (h.others_hold k (apart other)
              (subst (λ t. is_dead t.state ≡ false) (unchanged (apart other)) alive)))
  ]
    where
      apart : (k == vm.scheduler.current_task) ≡ false → k ≢ vm.scheduler.current_task
      apart other e = true_ne_false (eq→== k vm.scheduler.current_task e) other

      unchanged : k ≢ vm.scheduler.current_task → sleeping_table k ≡ vm.scheduler.tasks k
      unchanged other =
          update_other vm.scheduler.tasks vm.scheduler.current_task k
            (asleep (vm.scheduler.tasks vm.scheduler.current_task) deadline) other

      sleeping_current_old :
          update held vm.scheduler.current_task old vm.scheduler.current_task ≡ old
      sleeping_current_old = rw (==_self vm.scheduler.current_task) refl

      own :
          sleeping_table vm.scheduler.current_task
            ≡ asleep (vm.scheduler.tasks vm.scheduler.current_task) deadline
          → update held vm.scheduler.current_task old vm.scheduler.current_task ≡ old
          → Parked
              (sleeping_table vm.scheduler.current_task)
              (update held vm.scheduler.current_task old vm.scheduler.current_task)
      own e e' =
          subst
            (λ t. Parked t (update held vm.scheduler.current_task old vm.scheduler.current_task))
            (sym e)
            (subst (λ s. Parked (asleep (vm.scheduler.tasks vm.scheduler.current_task) deadline) s)
              (sym e') (asleep-Parked deadline p))

  -- The current task was not woken.
  still_asleep :
      tick_after < deadline
      → wake_all tick_after sleeping_table vm.scheduler.current_task
        ≡ asleep (vm.scheduler.tasks vm.scheduler.current_task) deadline
  still_asleep ahead =
      wake_all-asleep tick_after sleeping_table vm.scheduler.current_task
        (vm.scheduler.tasks vm.scheduler.current_task) deadline sleeping_current ahead

  not_kept : tick_after < deadline → goes_on sleeping_machine chosen ≡ false
  not_kept ahead = blocked_stops _ _ (ap (λ t. t.state) (still_asleep ahead))
    where
      blocked_stops :
          (b : Bool) (s : TaskState)
          → s ≡ blocked
          → (b && not (is_dead s) && not (is_blocked s)) ≡ false
      blocked_stops true s e = rw e refl
      blocked_stops false s e = refl

  chosen_alive :
      tick_after < deadline → is_dead (wake_all tick_after sleeping_table chosen).state ≡ false
  chosen_alive ahead = elim (Bool-cases (chosen == vm.scheduler.current_task)) [
    | inl same ↦
        subst (λ n. is_dead (wake_all tick_after sleeping_table n).state ≡ false)
          (sym (==→eq chosen vm.scheduler.current_task same))
          (subst (λ t. is_dead t.state ≡ false) (sym (still_asleep ahead)) refl)
    | inr other ↦
        runnable_alive _
          (choice_runs tick_after sleeping_table vm.scheduler.current_task (apart other))
  ]
    where
      apart : (chosen == vm.scheduler.current_task) ≡ false → chosen ≢ vm.scheduler.current_task
      apart other e = true_ne_false (eq→== chosen vm.scheduler.current_task e) other

  -- A task that goes to sleep loses what it did to its stacks since they were last saved: let `held` say which
  -- data stack and return stack each task has, and let the blocks of the current task still hold the stacks `old`.
  -- If its deadline is ahead when the scheduler reads the clock, v4_backend_task_sleep goes through. Afterwards
  -- the task that the scheduler chose is current and RUNNING, each task but the sleeper has the same stacks, and
  -- the sleeper has the stacks `old`, whatever it had on the machine. If no other task was chosen, this is the
  -- sleeper: it does not sleep, and goes on with the stacks `old`.
  pub task_sleep-Holds :
      (held : ℕ → Stacks) (old : Stacks)
      → Holds vm held
      → Parked (vm.scheduler.tasks vm.scheduler.current_task) old
      → tick_after < deadline
      → (vm' : Vm W) × (task_sleep env ms_delay vm ≡ ok tt vm')
        × Holds vm' (update held vm.scheduler.current_task old)
        × (vm'.scheduler.current_task ≡ chosen)
        × ((vm'.scheduler.tasks chosen).state ≡ running)
        × (chosen ≡ vm.scheduler.current_task → (stack_of vm', cells_down vm'.rs vm'.rp) ≡ old)
  task_sleep-Holds held old h p ahead =
      let parked =
        wake_all-AllParked tick_after sleeping_table (update held vm.scheduler.current_task old)
          (sleeping-AllParked held old h p) in
      let last =
        switch_to-Moves env sleeping_machine (update held vm.scheduler.current_task old) chosen
          parked (not_kept ahead) (parked chosen (chosen_alive ahead)) in
      let holds = last.2 in
      (
        last.0,
        task_sleep-switches ∙ last.1,
        holds,
        last.3,
        last.4,
        λ same. holds.current_holds ∙ own_old (last.3 ∙ same),
      )
    where
      own_old :
          {k : ℕ}
          → k ≡ vm.scheduler.current_task
          → update held vm.scheduler.current_task old k ≡ old
      own_old e = rw (e, ==_self vm.scheduler.current_task) refl
