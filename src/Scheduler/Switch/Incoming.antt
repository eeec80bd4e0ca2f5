-- ===== src/Scheduler/Switch/Incoming.antt =====
-- vm_schedule of src/scheduler.cpp: the task that it switches to.
use v4_engine.Scheduler.Switch.{Stacks, Parked, Holds, AllParked, true_ne_false, update_other}
use v4_engine.Base.{
  ℕ, ◌+◌, ◌≡◌, ◌≢◌, refl, sym, ap₂, ◌∙◌, subst, Bool, true, false, inl, inr, arith, ◌==◌, ◌&&◌, not,
  update, copy_cells, cells_down, u16, u32, Bool-cases, eq→==, ==_self,
}
use v4_engine.Scheduler.{is_dead, is_blocked, is_runnable, set_task, switch_to}
use v4_engine.Scheduler.Context.{restore_context-loaded}
use v4_engine.Stack.Abstract.{stack_of}
use v4_engine.Stack.Snapshot.{cells_down-copy_cells}
use v4_engine.Vm.{Vm, Env, TaskState, dead, ready, running, blocked, ok}

ready_goes_on :
    (b : Bool) (s : TaskState)
    → b ≡ true
    → s ≡ ready
    → (b && not (is_dead s) && not (is_blocked s)) ≡ true
ready_goes_on b s h e = rw (h, e) refl

pub runnable_alive : (s : TaskState) → is_runnable s ≡ true → is_dead s ≡ false
runnable_alive dead h = sym h
runnable_alive ready h = refl
runnable_alive running h = refl
runnable_alive blocked h = refl

module _ {W : Type 0} where
  -- The machine on which the current task goes on.
  abbrev gone_on : Vm W → Vm W
  gone_on vm =
      set_task vm vm.scheduler.current_task
        (record (vm.scheduler.tasks vm.scheduler.current_task) { state = running })

  gone_on-Holds :
      (vm : Vm W) (held : ℕ → Stacks)
      → AllParked vm.scheduler.tasks held
      → (stack_of vm, cells_down vm.rs vm.rp) ≡ held vm.scheduler.current_task
      → Holds (gone_on vm) held
  gone_on-Holds vm held parked same = record {
    current_holds = same;
    others_hold = λ k other alive.
        subst (λ t. Parked t (held k)) (sym (unchanged k other))
          (parked k (subst (λ t. is_dead t.state ≡ false) (unchanged k other) alive));
  }
    where
      unchanged :
          (k : ℕ)
          → k ≢ vm.scheduler.current_task
          → (gone_on vm).scheduler.tasks k ≡ vm.scheduler.tasks k
      unchanged k other = update_other vm.scheduler.tasks vm.scheduler.current_task k _ other

  -- The machine that has switched to `next`, with the given stacks.
  abbrev switched : Vm W → ℕ → (ℕ → ℕ) → (ℕ → ℕ) → ℕ → ℕ → Vm W
  switched vm next ds rs sp rp = record vm {
    ds = ds;
    rs = rs;
    sp = sp;
    rp = rp;
    scheduler = record (vm.scheduler) {
      tasks = update vm.scheduler.tasks next (record (vm.scheduler.tasks next) {
        state = running;
        exec_count = u16 ((vm.scheduler.tasks next).exec_count + 1);
      });
      current_task = next;
      context_switches = u32 (vm.scheduler.context_switches + 1);
    };
  }

  switched-Holds :
      (vm : Vm W) (held : ℕ → Stacks) (next : ℕ) (ds rs : ℕ → ℕ) (sp rp : ℕ)
      → AllParked vm.scheduler.tasks held
      → (cells_down ds sp, cells_down rs rp) ≡ held next
      → Holds (switched vm next ds rs sp rp) held
  switched-Holds vm held next ds rs sp rp parked same = record {
    current_holds = same;
    others_hold = λ k other alive.
        subst (λ t. Parked t (held k)) (sym (unchanged k other))
          (parked k (subst (λ t. is_dead t.state ≡ false) (unchanged k other) alive));
  }
    where
      unchanged :
          (k : ℕ)
          → k ≢ next
          → (switched vm next ds rs sp rp).scheduler.tasks k ≡ vm.scheduler.tasks k
      unchanged k other = update_other vm.scheduler.tasks next k _ other

  -- The test of vm_schedule: the current task is chosen, and goes on.
  abbrev pub goes_on : Vm W → ℕ → Bool
  goes_on vm next =
      let state = (vm.scheduler.tasks vm.scheduler.current_task).state in
      next == vm.scheduler.current_task && not (is_dead state) && not (is_blocked state)

module _ {W : Type 0} (env : Env W) where
  switch_goes_on :
      (vm : Vm W) (next : ℕ)
      → (next == vm.scheduler.current_task) ≡ true
      → (vm.scheduler.tasks vm.scheduler.current_task).state ≡ ready
      → switch_to env next vm ≡ ok tt (gone_on vm)
  unfolding switch_to
  switch_goes_on vm next stays is_ready = rw (ready_goes_on _ _ stays is_ready) refl

  switch_moves :
      (vm : Vm W) (held : ℕ → Stacks) (next : ℕ)
      → goes_on vm next ≡ false
      → (p : Parked (vm.scheduler.tasks next) (held next))
      → switch_to env next vm
        ≡ ok tt (
            switched vm next
              (copy_cells vm.ds p.ds_block.cells (vm.scheduler.tasks next).ds_depth)
              (copy_cells vm.rs p.rs_block.cells (vm.scheduler.tasks next).rs_depth)
              (vm.scheduler.tasks next).ds_depth
              (vm.scheduler.tasks next).rs_depth)
  unfolding switch_to
  switch_moves vm held next moves p =
      rw
        (
          moves,
          restore_context-loaded vm next (vm.scheduler.tasks next) p.ds_block p.rs_block refl
              p.ds_is p.rs_is p.ds_room p.ds_fits p.rs_room p.rs_fits,
        )
        refl

  -- The last part of vm_schedule, when it switches to a task that has its stacks in its blocks.
  pub switch_to-Moves :
      (vm : Vm W) (held : ℕ → Stacks) (next : ℕ)
      → AllParked vm.scheduler.tasks held
      → goes_on vm next ≡ false
      → Parked (vm.scheduler.tasks next) (held next)
      → (vm' : Vm W) × (switch_to env next vm ≡ ok tt vm')
        × Holds vm' held
        × (vm'.scheduler.current_task ≡ next)
        × ((vm'.scheduler.tasks next).state ≡ running)
  switch_to-Moves vm held next parked moves p = (
    _,
    switch_moves vm held next moves p,
    switched-Holds vm held next _ _ _ _ parked loaded,
    refl,
    now_running,
  )
    where
      now_running :
          (update vm.scheduler.tasks next
            (record (vm.scheduler.tasks next) {
              state = running;
              exec_count = u16 ((vm.scheduler.tasks next).exec_count + 1);
            })
            next).state
          ≡ running
      now_running = rw (==_self next) refl

      loaded :
          (
            cells_down
                (copy_cells vm.ds p.ds_block.cells (vm.scheduler.tasks next).ds_depth)
                (vm.scheduler.tasks next).ds_depth,
            cells_down
                (copy_cells vm.rs p.rs_block.cells (vm.scheduler.tasks next).rs_depth)
                (vm.scheduler.tasks next).rs_depth,
          )
          ≡ held next
      loaded =
          ap₂ (λ d r. (d, r))
            (cells_down-copy_cells vm.ds p.ds_block.cells _ _ (omega arith) ∙ p.ds_cells)
            (cells_down-copy_cells vm.rs p.rs_block.cells _ _ (omega arith) ∙ p.rs_cells)

  -- The last part of vm_schedule, when the current task was parked and is READY.
  pub switch_to-Holds :
      (vm : Vm W) (held : ℕ → Stacks) (next : ℕ)
      → AllParked vm.scheduler.tasks held
      → (stack_of vm, cells_down vm.rs vm.rp) ≡ held vm.scheduler.current_task
      → (vm.scheduler.tasks vm.scheduler.current_task).state ≡ ready
      → (next ≢ vm.scheduler.current_task → is_runnable (vm.scheduler.tasks next).state ≡ true)
      → (vm' : Vm W) × (switch_to env next vm ≡ ok tt vm') × Holds vm' held
  switch_to-Holds vm held next parked same is_ready runs =
      elim (Bool-cases (next == vm.scheduler.current_task)) [
        | inl stays ↦ (_, switch_goes_on vm next stays is_ready, gone_on-Holds vm held parked same)
        | inr moves ↦
            let last =
              switch_to-Moves vm held next parked (other_chosen _ _ _ moves)
                (parked next (runnable_alive _ (runs (apart moves)))) in
            (last.0, last.1, last.2)
      ]
    where
      apart : (next == vm.scheduler.current_task) ≡ false → next ≢ vm.scheduler.current_task
      apart h e = true_ne_false (eq→== next vm.scheduler.current_task e) h

      other_chosen : (b c d : Bool) → b ≡ false → (b && c && d) ≡ false
      other_chosen b c d e = rw e refl
