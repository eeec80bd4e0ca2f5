-- ===== src/Scheduler/Switch/Whole.antt =====
-- vm_schedule of src/scheduler.cpp.
use v4_engine.Scheduler.Switch.{Stacks, HasRoom, Holds}
use v4_engine.Base.{ℕ, ◌≡◌, refl, ap, ◌∙◌}
use v4_engine.Scheduler.{wake_all, select_task, select_next, switch_to, vm_schedule}
use v4_engine.Vm.{Vm, Env, running, ok}
use v4_engine.Scheduler.Switch.Awake.{wake_all-AllParked, wake_all-ready, choice_runs}
use v4_engine.Scheduler.Switch.Incoming.{switch_to-Holds}
use v4_engine.Scheduler.Switch.Outgoing.{
  suspended_table, table_current, suspend_current-suspended, suspended-AllParked,
}

module _ {W : Type 0} (env : Env W) where
  -- The machine that has parked the running task and woken the sleepers whose deadline has passed.
  abbrev parked_machine :
      (vm : Vm W) → HasRoom vm (vm.scheduler.tasks vm.scheduler.current_task) → Vm W
  parked_machine vm room = record vm {
    scheduler = record (vm.scheduler) {
      tasks = wake_all (env.tick_ms vm.world).now (suspended_table vm room);
    };
    world = (env.tick_ms vm.world).world;
  }

  vm_schedule-parked :
      (vm : Vm W) (room : HasRoom vm (vm.scheduler.tasks vm.scheduler.current_task))
      → (vm.scheduler.tasks vm.scheduler.current_task).state ≡ running
      → vm_schedule env vm
        ≡ switch_to env
            (select_task
              (env.tick_ms vm.world).now
              vm.scheduler.current_task
              (suspended_table vm room))
            (parked_machine vm room)
  unfolding vm_schedule select_next
  vm_schedule-parked vm room runs = rw (suspend_current-suspended env vm room runs) refl

  -- A task switch is invisible to the tasks: let `held` say which data stack and return stack each task has, the
  -- RUNNING task those of the machine, every other one that is not DEAD those in its blocks. If the running
  -- task's blocks have room for its stacks and its data stack has fewer than 256 cells, vm_schedule goes
  -- through, and afterwards, whichever task it chose, `held` says the same of the machine.
  pub vm_schedule-Holds :
      (vm : Vm W) (held : ℕ → Stacks)
      → Holds vm held
      → (vm.scheduler.tasks vm.scheduler.current_task).state ≡ running
      → HasRoom vm (vm.scheduler.tasks vm.scheduler.current_task)
      → (vm' : Vm W) × (vm_schedule env vm ≡ ok tt vm') × Holds vm' held
  vm_schedule-Holds vm held h runs room =
      let tick = (env.tick_ms vm.world).now in
      let i = vm.scheduler.current_task in
      let table = suspended_table vm room in
      let last =
        switch_to-Holds env (parked_machine vm room) held (select_task tick i table)
          (wake_all-AllParked tick table held (suspended-AllParked vm held room h)) h.current_holds
          (wake_all-ready tick table i (ap (λ t. t.state) (table_current vm room)))
          (choice_runs tick table i) in
      (last.0, vm_schedule-parked vm room runs ∙ last.1, last.2)
