-- ===== src/Scheduler/Switch/Awake.antt =====
-- vm_schedule of src/scheduler.cpp: the tasks that it wakes.
use v4_engine.Scheduler.Switch.{Stacks, Parked, AllParked, true_ne_false}
use v4_engine.Base.{ℕ, ◌<◌, ◌≡◌, ◌≢◌, refl, Bool, true, false, arith, ltb, leb, ◌&&◌, if◌then◌else◌}
use v4_engine.Scheduler.{is_dead, is_blocked, is_runnable, wake, wake_all, select_task}
use v4_engine.Scheduler.Select.{select_task-runnable}
use v4_engine.Vm.{Task, TaskState, dead, ready, running, blocked, max_tasks}

restated-Parked :
    (state : TaskState) {t : Task} {s : Stacks} → Parked t s → Parked (record t { state = state }) s
restated-Parked state h = record {
  ds_block = h.ds_block;
  rs_block = h.rs_block;
  ds_is = h.ds_is;
  rs_is = h.rs_is;
  ds_room = h.ds_room;
  ds_fits = h.ds_fits;
  rs_room = h.rs_room;
  rs_fits = h.rs_fits;
  ds_cells = h.ds_cells;
  rs_cells = h.rs_cells;
}

wake-Parked : (tick : ℕ) (t : Task) (s : Stacks) → Parked t s → Parked (wake tick t) s
unfolding wake
wake-Parked tick t s h = woken (is_blocked t.state && leb t.sleep_until_tick tick)
  where
    woken : (b : Bool) → Parked (if b then record t { state = ready } else t) s
    woken true = restated-Parked ready h
    woken false = h

-- Waking a task that was not DEAD does not make it so, and none other stops being DEAD.
wake-is_dead : (tick : ℕ) (t : Task) → is_dead (wake tick t).state ≡ false → is_dead t.state ≡ false
unfolding wake
wake-is_dead tick t h = by_state t.state refl
  where
    by_state : (s : TaskState) → t.state ≡ s → is_dead t.state ≡ false
    by_state dead e = rw e (rw e at h)
    by_state ready e = rw e refl
    by_state running e = rw e refl
    by_state blocked e = rw e refl

pub wake_all-AllParked :
    (tick : ℕ) (tasks : ℕ → Task) (held : ℕ → Stacks)
    → AllParked tasks held
    → AllParked (wake_all tick tasks) held
wake_all-AllParked tick tasks held h k alive = in_table (ltb k max_tasks) alive
  where
    in_table :
        (b : Bool)
        → is_dead (if b then wake tick (tasks k) else tasks k).state ≡ false
        → Parked (if b then wake tick (tasks k) else tasks k) (held k)
    in_table true alive =
        wake-Parked tick (tasks k) (held k) (h k (wake-is_dead tick (tasks k) alive))
    in_table false alive = h k alive

not_asleep : (s : TaskState) (b : Bool) → s ≡ ready → (is_blocked s && b) ≡ false
not_asleep s b e = rw e refl

wake-ready : (tick : ℕ) (t : Task) → t.state ≡ ready → (wake tick t).state ≡ ready
unfolding wake
wake-ready tick t h = rw (not_asleep t.state (leb t.sleep_until_tick tick) h) h

pub wake_all-ready :
    (tick : ℕ) (table : ℕ → Task) (i : ℕ)
    → (table i).state ≡ ready
    → (wake_all tick table i).state ≡ ready
wake_all-ready tick table i h = in_table (ltb i max_tasks)
  where
    in_table : (b : Bool) → (if b then wake tick (table i) else table i).state ≡ ready
    in_table true = wake-ready tick (table i) h
    in_table false = h

pub choice_runs :
    (tick : ℕ) (table : ℕ → Task) (i : ℕ)
    → select_task tick i table ≢ i
    → is_runnable (wake_all tick table (select_task tick i table)).state ≡ true
choice_runs tick table i other =
    let chosen = select_task-runnable tick table i other in
    in_table (select_task tick i table) (ltb (select_task tick i table) max_tasks)
      (below _ chosen.0) chosen.1
  where
    below : (n : ℕ) → n < max_tasks → ltb n max_tasks ≡ true
    below n h = ground arith

    in_table :
        (n : ℕ) (b : Bool)
        → b ≡ true
        → is_runnable (wake tick (table n)).state ≡ true
        → is_runnable (if b then wake tick (table n) else table n).state ≡ true
    in_table n true e h = h
    in_table n false e h = absurd (true_ne_false e refl)
