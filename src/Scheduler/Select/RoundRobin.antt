-- ===== src/Scheduler/Select/RoundRobin.antt =====
-- The order among tasks of the same priority in the choice of src/scheduler.cpp.
use v4_engine.Base.{
  ℕ, zero, suc, ◌+◌, ◌≤◌, ◌<◌, ◌≡◌, refl, subst, ◌∙◌, ◌⊎◌, inl, inr, true, false, arith, ltb, leb,
  ◌==◌, ◌&&◌, if◌then◌else◌, Bool-cases, ltb→lt, not_ltb→le, ==→eq, eq→==,
}
use v4_engine.Scheduler.{wake, Pick, consider, select_from, no_pick, select_task}
use v4_engine.Scheduler.Select.{
  runnable, priority_of, BestBelow, consider-BestBelow, below_next, true_ne_false, picked,
}
use v4_engine.Vm.{Task, max_tasks, broadcast}

-- Of the chosen slot and `j`, the chosen one comes first in the order that starts behind `current` and goes around.
unfoldable pub ComesFirst : ℕ → ℕ → ℕ → Type 0
ComesFirst current chosen j =
    ((current < chosen) × ((j ≤ current) ⊎ (chosen ≤ j)))
    ⊎ ((chosen ≤ current) × (j ≤ current) × (chosen ≤ j))

module _ (tick : ℕ) (tasks : ℕ → Task) (current : ℕ) where
  -- Among the slots below `n`, the pick comes before the others of its priority.
  FirstBelow : ℕ → Pick → Type 0
  FirstBelow n p =
      (j : ℕ)
      → j < n
      → runnable tick tasks j ≡ true
      → priority_of tick tasks j ≡ p.highest_priority
      → 0 < p.highest_priority
      → ComesFirst current p.selected_task j

  itself : (n : ℕ) → ComesFirst current n n
  unfolding ComesFirst
  itself n = elim (Bool-cases (ltb current n)) [
    | inl behind ↦ inl (ltb→lt current n behind, inr (omega arith))
    | inr ahead ↦ inr (not_ltb→le current n ahead, not_ltb→le current n ahead, omega arith)
  ]

  -- The step to a slot behind the current one, from a pick that was not behind it.
  passes : (n s j : ℕ) → current < n → s ≤ current → ComesFirst current s j → ComesFirst current n j
  unfolding ComesFirst
  passes n s j behind before (inl (after, where_j)) = absurd (not_both after before)
    where
      not_both : current < s → s ≤ current → ⊥
      not_both h k = omega arith
  passes n s j behind before (inr (_, low, _)) = inl (behind, inl low)

  -- A slot that the pick is kept against.
  kept : (n s : ℕ) → s < n → (ltb current n && leb s current) ≡ false → ComesFirst current s n
  unfolding ComesFirst
  kept n s low refused = elim (Bool-cases (ltb current s)) [
    | inl behind ↦ inl (ltb→lt current s behind, inr (omega arith))
    | inr ahead ↦ let h = not_ltb→le current s ahead in inr (h, reached h, omega arith)
  ]
    where
      reached : s ≤ current → n ≤ current
      reached h = ground arith

  -- What is asked of slot `j`.
  abbrev Beaten : Pick → ℕ → Type 0
  Beaten p j =
      runnable tick tasks j ≡ true
      → priority_of tick tasks j ≡ p.highest_priority
      → 0 < p.highest_priority
      → ComesFirst current p.selected_task j

  stays-FirstBelow : (n : ℕ) (p : Pick) → FirstBelow n p → Beaten p n → FirstBelow (n + 1) p
  unfolding FirstBelow
  stays-FirstBelow n p f at = below_next tick tasks n {P = Beaten p} f at

  moves-FirstBelow :
      (n : ℕ) (p : Pick)
      → BestBelow tick tasks n p
      → p.highest_priority < priority_of tick tasks n
      → FirstBelow
          (n + 1)
          (record { highest_priority = priority_of tick tasks n; selected_task = n })
  unfolding FirstBelow
  moves-FirstBelow n p b more =
      below_next tick tasks n
        {P = Beaten (record { highest_priority = priority_of tick tasks n; selected_task = n })}
        (λ j low run same pos. absurd (too_low (b.bounds j low run) same)) (λ _ _ _. itself n)
    where
      too_low : {a : ℕ} → a ≤ p.highest_priority → a ≡ priority_of tick tasks n → ⊥
      too_low h e = omega arith

  equal-FirstBelow :
      (n : ℕ) (p : Pick)
      → BestBelow tick tasks n p
      → FirstBelow n p
      → (p.selected_task == broadcast) ≡ false
      → FirstBelow (n + 1) (
          if ltb current n && leb p.selected_task current
          then record p { selected_task = n }
          else p)
  unfolding FirstBelow
  equal-FirstBelow n p b f set = elim (Bool-cases (ltb current n && leb p.selected_task current)) [
    | inl after ↦ rw after (
        below_next tick tasks n {P = Beaten (record p { selected_task = n })}
          (λ j low run same pos.
            passes n p.selected_task j (behind after) (before after) (f j low run same pos))
          (λ _ _ _. itself n))
    | inr stays ↦
        rw stays (stays-FirstBelow n p f (λ _ _ _. kept n p.selected_task picked_below stays))
  ]
    where
      behind : (ltb current n && leb p.selected_task current) ≡ true → current < n
      behind h = ground arith

      before : (ltb current n && leb p.selected_task current) ≡ true → p.selected_task ≤ current
      before h = ground arith

      picked_below : p.selected_task < n
      picked_below = elim b.chosen [
        | inl (unset, _) ↦ absurd (true_ne_false (eq→== p.selected_task broadcast unset) set)
        | inr (low, _, _, _) ↦ low
      ]

  consider-FirstBelow :
      (n : ℕ) (p : Pick)
      → n < max_tasks
      → BestBelow tick tasks n p
      → FirstBelow n p
      → FirstBelow (n + 1) (consider current n (wake tick (tasks n)) p)
  unfolding consider
  consider-FirstBelow n p fits b f = elim (Bool-cases (runnable tick tasks n)) [
    | inr idle ↦ rw idle (stays-FirstBelow n p f (λ run _ _. absurd (true_ne_false run idle)))
    | inl run ↦ elim (Bool-cases (ltb p.highest_priority (priority_of tick tasks n))) [
      | inl more ↦ rw (run, more) (moves-FirstBelow n p b (ltb→lt _ _ more))
      | inr less ↦ elim (Bool-cases (priority_of tick tasks n == p.highest_priority)) [
        | inr other ↦
            rw (run, less, other)
              (stays-FirstBelow n p f (λ _ same _. absurd (true_ne_false (eq→== _ _ same) other)))
        | inl same ↦ elim (Bool-cases (p.selected_task == broadcast)) [
          | inl unset ↦
              rw (run, less, same, unset)
                (stays-FirstBelow n p f (λ _ _ pos. absurd (no_pick_yet unset pos)))
          | inr set ↦ rw (run, less, same, set) (equal-FirstBelow n p b f set)
        ]
      ]
    ]
  ]
    where
      no_pick_yet : (p.selected_task == broadcast) ≡ true → 0 < p.highest_priority → ⊥
      no_pick_yet unset pos = elim b.chosen [
        | inl (_, zero_prio) ↦ not_zero zero_prio
        | inr (low, _, _, _) ↦ not_broadcast low (==→eq p.selected_task broadcast unset)
      ]
        where
          not_zero : p.highest_priority ≡ 0 → ⊥
          not_zero e = omega arith

          not_broadcast : p.selected_task < n → p.selected_task ≡ 255 → ⊥
          not_broadcast h e = omega arith

  select_from-FirstBelow :
      (n i : ℕ) (p : Pick)
      → i + n ≤ max_tasks
      → BestBelow tick tasks i p
      → FirstBelow i p
      → FirstBelow (i + n) (select_from tick current tasks n i p)
  unfolding select_from
  select_from-FirstBelow zero i p fits b f = subst (λ k. FirstBelow k p) (omega arith) f
  select_from-FirstBelow (suc n) i p fits b f =
      subst (λ k. FirstBelow k (select_from tick current tasks (suc n) i p)) (omega arith)
        (select_from-FirstBelow n (i + 1) (consider current i (wake tick (tasks i)) p) (omega arith)
          (consider-BestBelow tick tasks current i p b) (consider-FirstBelow i p (omega arith) b f))

  settled :
      (i : ℕ) (p : Pick)
      → BestBelow tick tasks max_tasks p
      → FirstBelow max_tasks p
      → i < max_tasks
      → runnable tick tasks i ≡ true
      → 0 < priority_of tick tasks i
      → priority_of tick tasks i
        ≡ priority_of tick tasks (if p.selected_task == broadcast then current else p.selected_task)
      → ComesFirst current (if p.selected_task == broadcast then current else p.selected_task) i
  unfolding FirstBelow
  settled i p b f low run pos same = elim b.chosen [
    | inl (_, zero_prio) ↦ absurd (unpicked zero_prio (b.bounds i low run))
    | inr (below, _, prio, above) ↦
        rw (set below) (f i low run (rw (set below) at same ∙ prio) above)
  ]
    where
      unpicked : p.highest_priority ≡ 0 → priority_of tick tasks i ≤ p.highest_priority → ⊥
      unpicked e h = omega arith

      set : p.selected_task < max_tasks → (p.selected_task == broadcast) ≡ false
      set h = ground arith

  none_below : FirstBelow 0 no_pick
  unfolding FirstBelow
  none_below j low run same pos = absurd (nothing low)
    where
      nothing : j < 0 → ⊥
      nothing h = omega arith

  -- Among the runnable tasks of the chosen one's priority, if that is above 0, the scheduler chooses the first behind the
  -- current task in the order of the slots, or with none behind it the first of all: equal tasks take turns.
  pub select_task-ComesFirst :
      (i : ℕ)
      → i < max_tasks
      → runnable tick tasks i ≡ true
      → 0 < priority_of tick tasks i
      → priority_of tick tasks i ≡ priority_of tick tasks (select_task tick current tasks)
      → ComesFirst current (select_task tick current tasks) i
  unfolding select_task
  select_task-ComesFirst i low run pos same =
      settled i (select_from tick current tasks max_tasks 0 no_pick) (picked tick tasks current)
        (select_from-FirstBelow max_tasks 0 no_pick (omega arith)
          (record { bounds = λ j h _. absurd (omega arith); chosen = inl (refl, refl) }) none_below)
        low run pos same
