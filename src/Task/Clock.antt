-- ===== src/Task/Clock.antt =====
-- How far the platform's clock moves in a sleep of src/task_backend_custom.cpp.
use v4_engine.Base.{
  ℕ, ◌+◌, ◌*◌, ◌/◌, ◌≤◌, ◌<◌, ◌≡◌, ◌≢◌, Bool, Option, none, some, u8, u16, u32, update, ◌==◌, ◌&&◌,
  not, arith, Bool-cases, inl, inr,
}
use v4_engine.Scheduler.{
  save_context, store_saved, restore_context, load_stacks, suspend_current, select_next, switch_to,
  vm_schedule, save_block, restore_block, set_task, is_running, is_dead, is_blocked,
}
use v4_engine.Task.{task_sleep, block_current}
use v4_engine.Vm.{
  Vm, Env, Buffer, ready, running, ds_cap, rs_cap, Outcome, ok, stop, fault, starved, M, ◌>>=◌,
  then_run,
}

-- include/v4/task_platform.h documents v4_task_platform_get_tick_ms as the number of milliseconds, kept in 32 bits.
-- `clock` is the time in a finer unit, such as a cycle of the processor, `per_ms` of which make a millisecond. Two
-- reads may return the same tick; but time does not stand still, as it does for a mock: from one read to the next it
-- moves on by at least one unit and at most `step`.
pub record Ticks {W : Type 0} (env : Env W) (clock : W → ℕ) (per_ms step : ℕ) : Type 0 where
  pub some_units : 0 < per_ms
  pub now : (w : W) → (env.tick_ms w).now ≡ u32 (clock w / per_ms)
  pub later : (w : W) → clock w < clock (env.tick_ms w).world
  pub soon : (w : W) → clock (env.tick_ms w).world ≤ clock w + step

module _ {W : Type 0} (clock : W → ℕ) where
  -- The outcome is not for want of fuel, and if the function goes on, its clock lies in the range.
  unfoldable pub Within : {A : Type 0} → ℕ → ℕ → Outcome W A → Type 0
  Within low high (ok a vm) = (low ≤ clock vm.world) × (clock vm.world ≤ high)
  Within low high (stop e vm) = Unit {0}
  Within low high fault = Unit {0}
  Within low high starved = ⊥

  bind-Within :
      {A B : Type 0} (low high low' high' : ℕ) (r : Outcome W A) (f : A → M W B)
      → Within low high r
      → ((a : A) (vm : Vm W)
          → low ≤ clock vm.world
          → clock vm.world ≤ high
          → Within low' high' (f a vm))
      → Within low' high' (then_run r f)
  unfolding Within
  bind-Within low high low' high' (ok a vm) f h next = next a vm h.0 h.1
  bind-Within low high low' high' (stop e vm) f h next = tt
  bind-Within low high low' high' fault f h next = tt
  bind-Within low high low' high' starved f h next = h

  -- A run that goes on after `r` ends if each run that goes on in the range does.
  pub continues :
      {A B : Type 0} (low high : ℕ) (r : Outcome W A) (f : A → M W B)
      → Within low high r
      → ((a : A) (vm : Vm W) → low ≤ clock vm.world → clock vm.world ≤ high → f a vm ≢ starved)
      → then_run r f ≢ starved
  unfolding Within
  continues low high (ok a vm) f h next = next a vm h.0 h.1
  continues low high (stop e vm) f h next = λ x. cc
  continues low high fault f h next = λ x. cc
  continues low high starved f h next = absurd h

  abbrev stays : ℕ → Vm W → Bool
  stays next vm =
      let current = vm.scheduler.tasks vm.scheduler.current_task in
      next == vm.scheduler.current_task
      && not (is_dead current.state)
      && not (is_blocked current.state)

  module _ (env : Env W) where
    suspend-Within :
        (low high : ℕ) (vm : Vm W)
        → low ≤ clock vm.world
        → clock vm.world ≤ high
        → Within low high (suspend_current env vm)
    unfolding Within suspend_current save_context store_saved
    suspend-Within low high vm h k =
        elim (Bool-cases (is_running (vm.scheduler.tasks vm.scheduler.current_task).state)) [
          | inl busy ↦ rw busy (
              saved
                (save_block (vm.scheduler.tasks vm.scheduler.current_task).ds_base vm.ds (u8 vm.sp))
                (save_block (vm.scheduler.tasks vm.scheduler.current_task).rs_base vm.rs
                  (u8 vm.rp)))
          | inr idle ↦ rw idle (h, k)
        ]
      where
        saved :
            (a b : Option (Option Buffer))
            → Within low high (
                then_run {B = Unit {0}} (store_saved a b vm.scheduler.current_task vm) (λ _ vm'.
                  ok tt (
                    set_task vm' vm.scheduler.current_task
                      (record (vm'.scheduler.tasks vm.scheduler.current_task) { state = ready }))))
        saved none b = tt
        saved (some a) none = tt
        saved (some a) (some b) = (h, k)

    switch-Within :
        (next low high : ℕ) (vm : Vm W)
        → low ≤ clock vm.world
        → clock vm.world ≤ high
        → Within low high (switch_to env next vm)
    unfolding Within switch_to restore_context load_stacks
    switch-Within next low high vm h k = elim (Bool-cases (stays next vm)) [
      | inl here ↦ rw here (h, k)
      | inr there ↦ rw there (
          loaded
            (restore_block (vm.scheduler.tasks next).ds_base ds_cap vm.ds
              (vm.scheduler.tasks next).ds_depth)
            (restore_block (vm.scheduler.tasks next).rs_base rs_cap vm.rs
              (vm.scheduler.tasks next).rs_depth))
    ]
      where
        loaded :
            (a b : Option (ℕ → ℕ))
            → Within low high (
                then_run {B = Unit {0}}
                  (load_stacks a b
                    (vm.scheduler.tasks next).ds_depth
                    (vm.scheduler.tasks next).rs_depth
                    vm)
                  (λ _ vm'. ok tt (record vm' {
                    scheduler = record (vm'.scheduler) {
                      tasks = update vm'.scheduler.tasks next (record (vm'.scheduler.tasks next) {
                        state = running;
                        exec_count = u16 ((vm'.scheduler.tasks next).exec_count + 1);
                      });
                      current_task = next;
                      context_switches = u32 (vm'.scheduler.context_switches + 1);
                    };
                  })))
        loaded none b = tt
        loaded (some a) none = tt
        loaded (some a) (some b) = (h, k)

    module _ (per_ms step : ℕ) (ticks : Ticks env clock per_ms step) where
      pub after_tick :
          (low high : ℕ) (w : W)
          → low ≤ clock w
          → clock w ≤ high
          → (low + 1 ≤ clock (env.tick_ms w).world) × (clock (env.tick_ms w).world ≤ high + step)
      after_tick low high w h k =
          let later = ticks.later w in let soon = ticks.soon w in (omega arith, omega arith)

      select-Within :
          (low high : ℕ) (vm : Vm W)
          → low + 1 ≤ clock vm.world
          → clock vm.world ≤ high + step
          → Within (low + 2) (high + 2 * step) (select_next env vm)
      unfolding Within select_next
      select-Within low high vm h k =
          let t = after_tick (low + 1) (high + step) vm.world h k in
          let l = t.0 in let u = t.1 in (omega arith, omega arith)

      pub sleep-Within :
          (ms low high : ℕ) (vm : Vm W)
          → low ≤ clock vm.world
          → clock vm.world ≤ high
          → Within (low + 2) (high + 2 * step) (task_sleep env ms vm)
      unfolding task_sleep block_current vm_schedule
      sleep-Within ms low high vm h k =
          bind-Within (low + 1) (high + step) (low + 2) (high + 2 * step)
            (suspend_current env (block_current env ms vm)) (λ _. select_next env >>= switch_to env)
            (suspend-Within (low + 1) (high + step) (block_current env ms vm)
              (after_tick low high vm.world h k).0 (after_tick low high vm.world h k).1)
            (λ a vm' l u.
              bind-Within (low + 2) (high + 2 * step) (low + 2) (high + 2 * step)
                (select_next env vm') (switch_to env) (select-Within low high vm' l u)
                (λ next vm'' l u. switch-Within next (low + 2) (high + 2 * step) vm'' l u))
