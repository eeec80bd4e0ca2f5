-- ===== src/Scheduler/Select.antt =====
-- The choice of the next task in src/scheduler.cpp.
pub mod RoundRobin
use v4_engine.Base.{
  ℕ, zero, suc, ◌+◌, ◌≤◌, ◌<◌, ◌≡◌, ◌≢◌, refl, subst, ◌⊎◌, inl, inr, Bool, true, false, arith, ltb,
  leb, ◌==◌, ◌&&◌, not, if◌then◌else◌, Bool-cases,
}
use v4_engine.Scheduler.{is_runnable, wake, Pick, consider, select_from, no_pick, select_task}
use v4_engine.Vm.{Task, max_tasks, broadcast}

-- The task in a slot, woken if its deadline has passed, is READY or RUNNING.
abbrev pub runnable : ℕ → (ℕ → Task) → ℕ → Bool
runnable tick tasks i = is_runnable (wake tick (tasks i)).state

abbrev pub priority_of : ℕ → (ℕ → Task) → ℕ → ℕ
priority_of tick tasks i = (wake tick (tasks i)).priority

-- Among the slots below `n`, the pick has the highest priority, unless that is 0 and there is no pick.
record BestBelow (tick : ℕ) (tasks : ℕ → Task) (n : ℕ) (p : Pick) : Type 0 where
  bounds :
      (j : ℕ) → j < n → runnable tick tasks j ≡ true → priority_of tick tasks j ≤ p.highest_priority
  chosen :
      ((p.selected_task ≡ broadcast) × (p.highest_priority ≡ 0))
      ⊎ ((p.selected_task < n)
          × (runnable tick tasks p.selected_task ≡ true)
          × (priority_of tick tasks p.selected_task ≡ p.highest_priority)
          × (0 < p.highest_priority))

true_ne_false : {b : Bool} → b ≡ true → b ≡ false → ⊥
true_ne_false h e = ground arith

le_trans : {a b c : ℕ} → a ≤ b → b ≤ c → a ≤ c
le_trans h k = omega arith

picked_slot : (n : ℕ) → n < max_tasks → (n == broadcast) ≡ false
picked_slot n low = ground arith

module _ (tick : ℕ) (tasks : ℕ → Task) where
  below_next : (n : ℕ) {P : ℕ → Type 0} → ((j : ℕ) → j < n → P j) → P n → (j : ℕ) → j < n + 1 → P j
  below_next n {P = P} below at j h = elim (Bool-cases (ltb j n)) [
    | inl lower ↦ below j (ground arith)
    | inr last ↦ subst P (ground arith) at
  ]

  stays-BestBelow :
      (n : ℕ) (p : Pick)
      → BestBelow tick tasks n p
      → (runnable tick tasks n ≡ true → priority_of tick tasks n ≤ p.highest_priority)
      → BestBelow tick tasks (n + 1) p
  stays-BestBelow n p b at = record {
    bounds = below_next n b.bounds at;
    chosen = elim b.chosen [
      | inl unset ↦ inl unset
      | inr (low, run, prio, pos) ↦ inr (omega arith, run, prio, pos)
    ];
  }

  moves-BestBelow :
      (n : ℕ) (p : Pick)
      → BestBelow tick tasks n p
      → runnable tick tasks n ≡ true
      → p.highest_priority ≤ priority_of tick tasks n
      → 0 < priority_of tick tasks n
      → BestBelow tick tasks
          (n + 1)
          (record { highest_priority = priority_of tick tasks n; selected_task = n })
  moves-BestBelow n p b run more pos = record {
    bounds = below_next n (λ j h r. le_trans (b.bounds j h r) more) (λ _. omega arith);
    chosen = inr (omega arith, run, refl, pos);
  }

  round_robin-BestBelow :
      (current n : ℕ) (p : Pick)
      → BestBelow tick tasks n p
      → runnable tick tasks n ≡ true
      → priority_of tick tasks n ≡ p.highest_priority
      → (p.selected_task == broadcast) ≡ false
      → BestBelow tick tasks (n + 1) (
          if ltb current n && leb p.selected_task current
          then record p { selected_task = n }
          else p)
  round_robin-BestBelow current n p b run prio set =
      elim (Bool-cases (ltb current n && leb p.selected_task current)) [
        | inl after ↦ rw after (
            subst
              (λ h.
                BestBelow tick tasks (n + 1) (record { highest_priority = h; selected_task = n }))
              prio (moves-BestBelow n p b run (omega arith) positive))
        | inr before ↦ rw before (stays-BestBelow n p b (λ _. omega arith))
      ]
    where
      positive : 0 < priority_of tick tasks n
      positive = elim b.chosen [
        | inl (unset, _) ↦ absurd (ground arith)
        | inr (_, _, _, pos) ↦ omega arith
      ]

  consider-BestBelow :
      (current n : ℕ) (p : Pick)
      → BestBelow tick tasks n p
      → BestBelow tick tasks (n + 1) (consider current n (wake tick (tasks n)) p)
  unfolding consider
  consider-BestBelow current n p b = elim (Bool-cases (runnable tick tasks n)) [
    | inr idle ↦ rw idle (stays-BestBelow n p b (λ run. absurd (true_ne_false run idle)))
    | inl run ↦ elim (Bool-cases (ltb p.highest_priority (priority_of tick tasks n))) [
      | inl more ↦ rw (run, more) (moves-BestBelow n p b run (ground arith) (ground arith))
      | inr less ↦
          elim (Bool-cases (
            priority_of tick tasks n == p.highest_priority && not (p.selected_task == broadcast))) [
              | inl equal ↦
                  rw (run, less, equal)
                    (round_robin-BestBelow current n p b run (ground arith) (ground arith))
              | inr other ↦ rw (run, less, other) (stays-BestBelow n p b (λ _. ground arith))
            ]
    ]
  ]

  select_from-BestBelow :
      (current n i : ℕ) (p : Pick)
      → BestBelow tick tasks i p
      → BestBelow tick tasks (i + n) (select_from tick current tasks n i p)
  unfolding select_from
  select_from-BestBelow current zero i p b = subst (λ k. BestBelow tick tasks k p) (omega arith) b
  select_from-BestBelow current (suc n) i p b =
      subst (λ k. BestBelow tick tasks k (select_from tick current tasks (suc n) i p)) (omega arith)
        (select_from-BestBelow current n (i + 1) _ (consider-BestBelow current i p b))

  picked :
      (current : ℕ)
      → BestBelow tick tasks max_tasks (select_from tick current tasks max_tasks 0 no_pick)
  picked current =
      select_from-BestBelow current max_tasks 0 no_pick
        (record { bounds = λ j h _. absurd (omega arith); chosen = inl (refl, refl) })

  settled-highest :
      (current i : ℕ) (p : Pick)
      → BestBelow tick tasks max_tasks p
      → i < max_tasks
      → runnable tick tasks i ≡ true
      → 0 < priority_of tick tasks i
      → (runnable tick tasks (if p.selected_task == broadcast then current else p.selected_task)
          ≡ true)
        × (priority_of tick tasks i
            ≤ priority_of tick tasks
                (if p.selected_task == broadcast then current else p.selected_task))
  settled-highest current i p b h run pos = elim b.chosen [
    | inl (_, least) ↦ absurd (too_low (b.bounds i h run) least pos)
    | inr (low, prun, prio, _) ↦ rw (set low) (prun, highest (b.bounds i h run) prio)
  ]
    where
      too_low : {a m : ℕ} → a ≤ m → m ≡ 0 → 0 < a → ⊥
      too_low h e q = omega arith

      set : p.selected_task < max_tasks → (p.selected_task == broadcast) ≡ false
      set low = ground arith

      highest : {a m c : ℕ} → a ≤ m → c ≡ m → a ≤ c
      highest h e = omega arith

  -- If a runnable task (READY or RUNNING, sleepers past their deadline included) has a priority above 0, then the
  -- task that the scheduler chooses is runnable, and its priority is at least that one's.
  pub select_task-highest :
      (current i : ℕ)
      → i < max_tasks
      → runnable tick tasks i ≡ true
      → 0 < priority_of tick tasks i
      → (runnable tick tasks (select_task tick current tasks) ≡ true)
        × (priority_of tick tasks i ≤ priority_of tick tasks (select_task tick current tasks))
  unfolding select_task
  select_task-highest current i h run pos = settled-highest current i _ (picked current) h run pos

  settled-current :
      (current : ℕ) (p : Pick)
      → BestBelow tick tasks max_tasks p
      → ((j : ℕ) → j < max_tasks → runnable tick tasks j ≡ true → priority_of tick tasks j ≡ 0)
      → (if p.selected_task == broadcast then current else p.selected_task) ≡ current
  settled-current current p b none_above = elim b.chosen [
    | inl (unset, _) ↦ rw unset refl
    | inr (low, run, prio, pos) ↦ absurd (clash (none_above p.selected_task low run) prio pos)
  ]
    where
      clash : {a m : ℕ} → a ≡ 0 → a ≡ m → 0 < m → ⊥
      clash e h q = omega arith

  -- If every runnable task has priority 0, which the documentation allows as the lowest, the scheduler chooses none
  -- of them but stays with the current task, runnable or not.
  pub select_task-zero_priority :
      (current : ℕ)
      → ((j : ℕ) → j < max_tasks → runnable tick tasks j ≡ true → priority_of tick tasks j ≡ 0)
      → select_task tick current tasks ≡ current
  unfolding select_task
  select_task-zero_priority current none_above =
      settled-current current _ (picked current) none_above

  -- A task that is chosen and is not the current one is in the table and can run.
  pub select_task-runnable :
      (current : ℕ)
      → select_task tick current tasks ≢ current
      → (select_task tick current tasks < max_tasks)
        × (runnable tick tasks (select_task tick current tasks) ≡ true)
  unfolding select_task
  select_task-runnable current other = settled_runs _ (picked current) other
    where
      settled_runs :
          (p : Pick)
          → BestBelow tick tasks max_tasks p
          → (if p.selected_task == broadcast then current else p.selected_task) ≢ current
          → ((if p.selected_task == broadcast then current else p.selected_task) < max_tasks)
            × (runnable tick tasks
                  (if p.selected_task == broadcast then current else p.selected_task)
                ≡ true)
      settled_runs p b h = elim b.chosen [
        | inl (unset, _) ↦ absurd (h (rw unset refl))
        | inr (low, run, prio, pos) ↦ rw (picked_slot p.selected_task low) (low, run)
      ]
