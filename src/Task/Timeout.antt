-- ===== src/Task/Timeout.antt =====
-- The waiting loop of v4_backend_task_receive_blocking in src/task_backend_custom.cpp against the platform's clock.
use native.Mathlib.Nat.{
  add-mul, div-mul-le_self, le-div_iff_mul-le, div-lt_iff_lt-mul, lt-div-mul-add, le_trans,
}
use v4_engine.Base.{
  sym, subst, ◌/◌, ℕ, zero, suc, ◌+◌, ◌*◌, ◌-◌, ◌≤◌, ◌<◌, ◌≡◌, ◌≢◌, refl, ap, ◌∙◌, Bool, true,
  false, Option, none, some, leb, if◌then◌else◌, u32, lt→ltb, not_leb→lt, ◌^◌, arith,
}
use v4_engine.Task.{task_receive, task_sleep, timed_out, receive_wait, task_receive_blocking}
use v4_engine.Vm.{Vm, Env, Message, ok, starved, M, then_run}
use v4_engine.Task.Clock.{Ticks, continues, sleep-Within, after_tick}

-- The milliseconds that begin within `e` units from `start`.
abbrev elapsed : ℕ → ℕ → ℕ → ℕ
elapsed per_ms start e = (start + e) / per_ms - start / per_ms

tick_le : (per_ms start e : ℕ) → 0 < per_ms → start / per_ms ≤ (start + e) / per_ms
tick_le per_ms start e pos =
    (le-div_iff_mul-le pos).1 (le_trans (div-mul-le_self start per_ms) (omega arith))

early-units : (per_ms start e t : ℕ) → 0 < per_ms → elapsed per_ms start e < t → e < t * per_ms
early-units per_ms start e t pos early =
    units (start / per_ms * per_ms) (t * per_ms) (div-mul-le_self start per_ms) (
      subst (λ n. start + e < n) (add-mul (start / per_ms) t per_ms)
        ((div-lt_iff_lt-mul pos).0 (ticks ((start + e) / per_ms) (start / per_ms) early)))
  where
    ticks : (m n : ℕ) → m - n < t → m < n + t
    ticks m n h = omega arith

    units : (x y : ℕ) → x ≤ start → start + e < x + y → e < y
    units x y h k = omega arith

young-elapsed :
    (per_ms start e : ℕ)
    → 0 < per_ms
    → e + per_ms ≤ 4294967296 * per_ms
    → elapsed per_ms start e < 4294967296
young-elapsed per_ms start e pos young = ticks ((start + e) / per_ms) (start / per_ms) (
    (div-lt_iff_lt-mul pos).1 (
      subst (λ n. start + e < n) (sym (add-mul (start / per_ms) 4294967296 per_ms))
        (units (start / per_ms * per_ms) (lt-div-mul-add {a = start} pos))))
  where
    ticks : (m n : ℕ) → m < n + 4294967296 → m - n < 4294967296
    ticks m n h = omega arith

    units : (x : ℕ) → start < x + per_ms → start + e < x + 4294967296 * per_ms
    units x h = omega arith

-- The difference of two ticks in 32 bits.
tick-difference : (a b : ℕ) → b ≤ a → a - b < 4294967296 → u32 (u32 a + 2 ^ 32 - u32 b) ≡ a - b
tick-difference a b h k = omega arith

module _ {W : Type 0} (clock : W → ℕ) (env : Env W) (per_ms step : ℕ)
    (ticks : Ticks env clock per_ms step) where
  -- The timeout test `e` units after the first read.
  timed_out-elapsed :
      (e start timeout_ms : ℕ) (vm : Vm W)
      → clock vm.world ≡ start + e
      → 0 < timeout_ms
      → elapsed per_ms start e < 4294967296
      → timed_out env (u32 (start / per_ms)) timeout_ms vm ≡ (
        leb timeout_ms (elapsed per_ms start e),
        record vm { world = (env.tick_ms vm.world).world },
      )
  unfolding timed_out
  timed_out-elapsed e start timeout_ms vm at some_time young = rw (lt→ltb 0 timeout_ms some_time) (
      ap (λ n. (leb timeout_ms n, record vm { world = (env.tick_ms vm.world).world }))
        (ap (λ n. u32 (n + 2 ^ 32 - u32 (start / per_ms)))
            (ticks.now vm.world ∙ ap (λ n. u32 (n / per_ms)) at)
          ∙ tick-difference _ _ (tick_le per_ms start e ticks.some_units) young))

  -- A round that starts `e` units after the first read ends if, once it times out no more, the next does.
  round-Within :
      (fuel e start msg_type timeout_ms : ℕ) (vm : Vm W)
      → clock vm.world ≡ start + e
      → 0 < timeout_ms
      → elapsed per_ms start e < 4294967296
      → (elapsed per_ms start e < timeout_ms
          → (vm' : Vm W) → start + e + 1 + 2 ≤ clock vm'.world
          → clock vm'.world ≤ start + e + step + 2 * step
          → receive_wait env fuel (u32 (start / per_ms)) msg_type timeout_ms vm' ≢ starved)
      → receive_wait env (suc fuel) (u32 (start / per_ms)) msg_type timeout_ms vm ≢ starved
  unfolding receive_wait
  round-Within fuel e start msg_type timeout_ms vm at some_time young next =
      got (task_receive msg_type vm).0
        (timed_out env (u32 (start / per_ms)) timeout_ms (task_receive msg_type vm).1)
        (timed_out-elapsed e start timeout_ms (task_receive msg_type vm).1 at some_time young)
    where
      seen : Vm W
      seen = record ((task_receive msg_type vm).1) { world = (env.tick_ms vm.world).world }

      again : M W (Option Message)
      again = receive_wait env fuel (u32 (start / per_ms)) msg_type timeout_ms

      later :
          (late : Bool)
          → leb timeout_ms (elapsed per_ms start e) ≡ late
          → (if late then ok none seen else then_run (task_sleep env 10 seen) (λ _. again))
            ≢ starved
      later true h = λ x. cc
      later false h =
          continues clock (start + e + 1 + 2) (start + e + step + 2 * step) (task_sleep env 10 seen)
            (λ _. again)
            (sleep-Within clock env per_ms step ticks 10 (start + e + 1) (start + e + step) seen
              tick.0 tick.1)
            (λ a vm' l u. next (not_leb→lt timeout_ms (elapsed per_ms start e) h) vm' l u)
        where
          here : (start + e ≤ clock vm.world) × (clock vm.world ≤ start + e)
          here = (omega arith, omega arith)

          tick :
              (start + e + 1 ≤ clock (env.tick_ms vm.world).world)
              × (clock (env.tick_ms vm.world).world ≤ start + e + step)
          tick =
              after_tick clock env per_ms step ticks (start + e) (start + e) vm.world here.0 here.1

      got :
          (m : Option Message) (t : Bool × Vm W)
          → t ≡ (leb timeout_ms (elapsed per_ms start e), seen)
          → elim m [
            | some msg ↦ ok (some msg) (task_receive msg_type vm).1
            | none ↦ if t.0 then ok none t.1 else then_run (task_sleep env 10 t.1) (λ _. again)
          ]
            ≢ starved
      got none t same = rw same (later (leb timeout_ms (elapsed per_ms start e)) refl)
      got (some msg) t same = λ x. cc

  -- Fuel for the rounds that the timeout leaves is enough.
  wait-Within :
      (fuel e start msg_type timeout_ms : ℕ) (vm : Vm W)
      → clock vm.world ≡ start + e
      → 0 < timeout_ms
      → 3 * step + timeout_ms * per_ms + per_ms ≤ 4294967296 * per_ms
      → e + per_ms ≤ 4294967296 * per_ms
      → timeout_ms * per_ms ≤ fuel + e
      → receive_wait env (suc fuel) (u32 (start / per_ms)) msg_type timeout_ms vm ≢ starved
  wait-Within zero e start msg_type timeout_ms vm at some_time few young fed =
      round-Within zero e start msg_type timeout_ms vm at some_time
        (young-elapsed per_ms start e ticks.some_units young)
        (λ early vm' l u.
          absurd (late (early-units per_ms start e timeout_ms ticks.some_units early)))
    where
      late : e < timeout_ms * per_ms → ⊥
      late early = omega arith
  wait-Within (suc fuel) e start msg_type timeout_ms vm at some_time few young fed =
      round-Within (suc fuel) e start msg_type timeout_ms vm at some_time
        (young-elapsed per_ms start e ticks.some_units young)
        (λ early vm' l u.
          let units = early-units per_ms start e timeout_ms ticks.some_units early in
          let next =
            next_round (clock vm'.world) (timeout_ms * per_ms) (4294967296 * per_ms) units l u few
              fed in
          wait-Within fuel (clock vm'.world - start) start msg_type timeout_ms vm' next.0 some_time
            few next.1 next.2)
    where
      next_round :
          (c T N : ℕ)
          → e < T
          → start + e + 1 + 2 ≤ c
          → c ≤ start + e + step + 2 * step
          → 3 * step + T + per_ms ≤ N
          → T ≤ suc fuel + e
          → (c ≡ start + (c - start)) × (c - start + per_ms ≤ N) × (T ≤ fuel + (c - start))
      next_round c T N early l u few fed = (omega arith, omega arith, omega arith)

  -- With a clock of milliseconds in 32 bits, behind which time is counted in a finer unit and moves on, from one
  -- read to the next, by 1 to `step` units, where three steps, the timeout and a millisecond together stay within
  -- the 32 bits, a blocking receive with a timeout above 0 ends: fuel for one round more than the timeout has units is
  -- enough, also if many reads in a row return the same tick, whatever is in the queue and whatever the scheduler
  -- switches to. Nothing is said of how it ends.
  pub task_receive_blocking_ends :
      (fuel msg_type timeout_ms : ℕ) (vm : Vm W)
      → 0 < timeout_ms
      → 3 * step + timeout_ms * per_ms + per_ms ≤ 4294967296 * per_ms
      → timeout_ms * per_ms < fuel
      → task_receive_blocking env fuel msg_type timeout_ms vm ≢ starved
  unfolding task_receive_blocking
  task_receive_blocking_ends zero msg_type timeout_ms vm some_time few fed =
      absurd (none_left (timeout_ms * per_ms) fed)
    where
      none_left : (n : ℕ) → n < 0 → ⊥
      none_left n h = omega arith
  task_receive_blocking_ends (suc fuel) msg_type timeout_ms vm some_time few fed =
      let w = (env.tick_ms vm.world).world in
      let later = ticks.later vm.world in
      let soon = ticks.soon vm.world in
      let first =
        first_round (clock vm.world) (clock w) (timeout_ms * per_ms) (4294967296 * per_ms) later
          soon few fed in
      rw (ticks.now vm.world) (
        wait-Within fuel (clock w - clock vm.world) (clock vm.world) msg_type timeout_ms
          (record vm { world = w }) first.0 some_time few first.1 first.2)
    where
      first_round :
          (b c T N : ℕ)
          → b < c
          → c ≤ b + step
          → 3 * step + T + per_ms ≤ N
          → T < suc fuel
          → (c ≡ b + (c - b)) × (c - b + per_ms ≤ N) × (T ≤ fuel + (c - b))
      first_round b c T N later soon few fed = (omega arith, omega arith, omega arith)
