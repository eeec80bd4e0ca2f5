-- ===== src/Rtos/Slots.antt =====
-- src/task_backend_freertos.cpp: the slot of a task that could not be started.
use v4_engine.Base.{
  ℕ, zero, suc, ◌+◌, ◌≤◌, ◌≡◌, ◌≢◌, refl, true, false, none, some, ◌<◌, lt→not_leb, ◌==◌,
  if◌then◌else◌, Bool-cases, inl, inr, arith, eq→==,
}
use v4_engine.Err.{Err, v4_err}
use v4_engine.Rtos.{Kernel, Rtos, with_world}
use v4_engine.Rtos.Tasks.{rtos_spawn, spawn_slot, create, prepare}
use v4_engine.Scheduler.{is_dead}
use v4_engine.Task.{free_slot, free_slot_from}
use v4_engine.Vm.{Task, max_tasks}

-- A search over live tasks finds no slot.
free_slot_from-none :
    (tasks : ℕ → Task) (n i : ℕ)
    → ((j : ℕ) → i ≤ j → j < i + n → is_dead (tasks j).state ≡ false)
    → free_slot_from tasks n i ≡ none
unfolding free_slot_from
free_slot_from-none tasks zero i live = refl
free_slot_from-none tasks (suc n) i live =
    rw (live i (omega arith) (omega arith))
      (free_slot_from-none tasks n (i + 1) (λ j h k. live j (omega arith) (omega arith)))

-- The slot that a spawn prepares is READY, so if the others are live, all are.
prepare-live :
    {W : Type 0} (s : Rtos W) (i word_idx priority ds_size rs_size j : ℕ)
    → (j ≢ i → is_dead (s.vm.scheduler.tasks j).state ≡ false)
    → is_dead ((prepare i word_idx priority ds_size rs_size s).vm.scheduler.tasks j).state ≡ false
unfolding prepare
prepare-live s i word_idx priority ds_size rs_size j other = elim (Bool-cases (i == j)) [
  | inl same ↦ rw same refl
  | inr apart ↦ rw apart (other (λ e. differ (eq→== i j (other_way e)) apart))
]
  where
    other_way : j ≡ i → i ≡ j
    other_way e = omega arith

    differ : (i == j) ≡ true → (i == j) ≡ false → ⊥
    differ h k = ground arith

-- A spawn on a table of live tasks.
rtos_spawn-full :
    {W : Type 0} (kernel : Kernel W) (s : Rtos W) (word_idx priority ds_size rs_size : ℕ)
    → ((j : ℕ) → j < max_tasks → is_dead (s.vm.scheduler.tasks j).state ≡ false)
    → word_idx < s.vm.word_count
    → rtos_spawn kernel word_idx priority ds_size rs_size s ≡ (v4_err Err.task_limit, s)
unfolding rtos_spawn spawn_slot free_slot
rtos_spawn-full kernel s word_idx priority ds_size rs_size live known =
    rw
      (
        lt→not_leb word_idx s.vm.word_count known,
        free_slot_from-none s.vm.scheduler.tasks max_tasks 0 (λ j h k. live j k),
        spawn_slot,
      )
      refl

module _ {W : Type 0} (kernel : Kernel W) (s : Rtos W) where
  -- What a spawn without memory leaves, with the default sizes for 0.
  abbrev lost : ℕ → ℕ → ℕ → ℕ → ℕ → Rtos W
  lost word_idx priority ds_size rs_size i =
      with_world
        (prepare i word_idx priority (if ds_size == 0 then 256 else ds_size)
          (if rs_size == 0 then 64 else rs_size) s)
        (kernel.port_malloc s.vm.world kernel.params_size).world

  -- Let one slot of the table be free, and let the kernel's heap have no block for a task's parameters. Then a spawn
  -- returns NoMemory, and although it stored no handle and counted no task, a next spawn, of any word and at any state
  -- of the outside, with memory or without, returns TaskLimit and changes nothing: the slot is lost.
  pub rtos_spawn-lost_slot :
      (word_idx priority ds_size rs_size i : ℕ)
      → word_idx < s.vm.word_count
      → free_slot s.vm.scheduler.tasks ≡ some i
      → ((j : ℕ) → j < max_tasks → j ≢ i → is_dead (s.vm.scheduler.tasks j).state ≡ false)
      → (kernel.port_malloc s.vm.world kernel.params_size).met ≡ false
      → (s' : Rtos W) × (rtos_spawn kernel word_idx priority ds_size rs_size s
          ≡ (v4_err Err.no_memory, s'))
        × (s'.task_handles ≡ s.task_handles)
        × (s'.vm.scheduler.task_count ≡ s.vm.scheduler.task_count)
        × ((w : W) (word_idx' priority' ds_size' rs_size' : ℕ)
            → word_idx' < s.vm.word_count
            → rtos_spawn kernel word_idx' priority' ds_size' rs_size' (with_world s' w)
              ≡ (v4_err Err.task_limit, with_world s' w))
  unfolding rtos_spawn spawn_slot create prepare free_slot
  rtos_spawn-lost_slot word_idx priority ds_size rs_size i known free others unmet = (
    lost word_idx priority ds_size rs_size i,
    rw (lt→not_leb word_idx s.vm.word_count known, free, spawn_slot, unmet) refl,
    refl,
    refl,
    λ w word_idx' priority' ds_size' rs_size' known'.
        rtos_spawn-full kernel (with_world (lost word_idx priority ds_size rs_size i) w) word_idx'
          priority' ds_size' rs_size'
          (λ j low.
            prepare-live s i word_idx priority (if ds_size == 0 then 256 else ds_size)
              (if rs_size == 0 then 64 else rs_size) j (others j low))
          known',
  )
