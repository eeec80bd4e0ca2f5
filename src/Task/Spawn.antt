-- ===== src/Task/Spawn.antt =====
-- src/task_backend_custom.cpp: a spawn and the other tasks.
use v4_engine.Base.{
  ℕ, zero, suc, ◌+◌, ◌*◌, ◌≡◌, refl, subst, Bool, true, false, Option, none, some, arith, leb, ◌==◌,
  ◌&&◌, if◌then◌else◌, inl, inr, Bool-cases, ==→eq,
}
use v4_engine.Err.{Err, v4_err}
use v4_engine.Scheduler.{is_dead}
use v4_engine.Stack.{malloc}
use v4_engine.Task.{
  free_slot_from, free_slot, start_task, drop_blocks, spawn_at, spawn_found, task_spawn,
}
use v4_engine.Vm.{Vm, Env, Task, max_tasks}

-- The slot that the search finds, if any, is DEAD.
abbrev DeadIfFound : (ℕ → Task) → Option ℕ → Type 0
DeadIfFound tasks none = Unit
DeadIfFound tasks (some i) = is_dead (tasks i).state ≡ true

free_slot_from-DeadIfFound :
    (tasks : ℕ → Task) (n i : ℕ) → DeadIfFound tasks (free_slot_from tasks n i)
unfolding free_slot_from
free_slot_from-DeadIfFound tasks zero i = tt
free_slot_from-DeadIfFound tasks (suc n) i = elim (Bool-cases (is_dead (tasks i).state)) [
  | inl found ↦ rw (found, free_slot_from) found
  | inr live ↦ rw (live, free_slot_from) (free_slot_from-DeadIfFound tasks n (i + 1))
]

clash : {b : Bool} → b ≡ true → b ≡ false → ⊥
clash h e = ground arith

apart :
    (tasks : ℕ → Task) (i j : ℕ)
    → is_dead (tasks i).state ≡ true
    → is_dead (tasks j).state ≡ false
    → (i == j) ≡ false
apart tasks i j dead live = elim (Bool-cases (i == j)) [
  | inl same ↦
      absurd (clash (subst (λ k. is_dead (tasks k).state ≡ true) (==→eq i j same) dead) live)
  | inr ne ↦ ne
]

module _ {W : Type 0} (env : Env W) (word_idx priority : ℕ) (vm : Vm W) (j : ℕ) where
  tasks-if :
      (b : Bool) (x y : ℕ × Vm W) {t : Task}
      → x.1.scheduler.tasks j ≡ t
      → y.1.scheduler.tasks j ≡ t
      → (if b then x else y).1.scheduler.tasks j ≡ t
  tasks-if true x y hx hy = hx
  tasks-if false x y hx hy = hy

  spawn_at-live :
      (i ds_size rs_size : ℕ)
      → is_dead (vm.scheduler.tasks j).state ≡ false
      → is_dead (vm.scheduler.tasks i).state ≡ true
      → (spawn_at env i word_idx priority ds_size rs_size vm).1.scheduler.tasks j
        ≡ vm.scheduler.tasks j
  unfolding spawn_at start_task drop_blocks malloc
  spawn_at-live i ds_size rs_size live dead =
      tasks-if
        ((malloc env (ds_size * 4) vm).0
          && (malloc env (rs_size * 4) (malloc env (ds_size * 4) vm).1).0)
        (i, start_task i word_idx priority ds_size rs_size both)
        (v4_err Err.no_memory, drop_blocks i both)
        (rw (apart vm.scheduler.tasks i j dead live) refl)
        (rw (apart vm.scheduler.tasks i j dead live) refl)
    where
      both : Vm W
      both = (malloc env (rs_size * 4) (malloc env (ds_size * 4) vm).1).1

  spawn_found-live :
      (o : Option ℕ) (ds_size rs_size : ℕ)
      → is_dead (vm.scheduler.tasks j).state ≡ false
      → DeadIfFound vm.scheduler.tasks o
      → (spawn_found env o word_idx priority ds_size rs_size vm).1.scheduler.tasks j
        ≡ vm.scheduler.tasks j
  unfolding spawn_found
  spawn_found-live none ds_size rs_size live dead = refl
  spawn_found-live (some i) ds_size rs_size live dead = spawn_at-live i _ _ live dead

  -- Spawning a task, whether it succeeds or not, leaves the record of every live task (not DEAD) as it was.
  pub task_spawn-live :
      (ds_size rs_size : ℕ)
      → is_dead (vm.scheduler.tasks j).state ≡ false
      → (task_spawn env word_idx priority ds_size rs_size vm).1.scheduler.tasks j
        ≡ vm.scheduler.tasks j
  unfolding task_spawn free_slot
  task_spawn-live ds_size rs_size live = tasks-if (leb vm.word_count word_idx) _ _ refl (
      spawn_found-live (free_slot vm.scheduler.tasks) ds_size rs_size live
        (free_slot_from-DeadIfFound vm.scheduler.tasks max_tasks 0))
