-- ===== src/Safety/Api.antt =====
-- The invariant over any sequence of calls of the public functions.
use v4_engine.Api.{
  Request, register_word, register_mmio, register_sys_handler, set_panic_handler, with_handler,
  exec, push, pop, clear, reset, reset_dictionary, reset_stacks, snapshot, restore, read32, write32,
  init_tasks, cleanup_tasks, spawn, exit, sleep, yield, enter, leave, send_message, receive_message,
  receive_blocking, schedule, schedule_from_isr, after, perform, perform_all,
}
use v4_engine.Base.{
  ℕ, ◌*◌, ◌≤◌, ◌≡◌, false, Bool-cases, Option, none, some, List, [], ◌∷◌, arith, ltb, ◌==◌, ◌&&◌,
  ◌||◌, not, inl, inr, is_negative,
}
use v4_engine.Dictionary.{vm_reset, vm_reset_dictionary}
use v4_engine.Lifecycle.{VmConfig, vm_create}
use v4_engine.Memory.{record_err, vm_mem_read32, vm_mem_write32}
use v4_engine.Panic.{vm_set_panic_handler}
use v4_engine.Safety.{IsValid, Safe, goes_on, returned, faulted, ran_out, Keeps}
use v4_engine.Safety.Calls.{HandlerKeeps, lift-Keeps}
use v4_engine.Safety.Core.{
  vm_panic-Keeps, ds_push-Keeps, ds_pop-Keeps, mem_read32-Keeps, mem_write32-Keeps, stacks-IsValid,
}
use v4_engine.Safety.Init.{vm_register_word-Safe, vm_register_mmio-IsValid, vm_create-IsValid}
use v4_engine.Safety.Ops.{
  if_pair-IsValid, malloc-IsValid, task_init-IsValid, task_cleanup-IsValid, task_spawn-IsValid,
  task_exit-Keeps, task_sleep-Keeps, task_yield-Keeps, critical_enter-IsValid,
  critical_exit-IsValid, task_send-IsValid, task_receive-IsValid, task_receive_blocking-Keeps,
}
use v4_engine.Safety.Run.{LeavesValid, vm_exec-LeavesValid}
use v4_engine.Safety.Tasks.{vm_schedule-Keeps, vm_schedule_from_isr-Keeps}
use v4_engine.Stack.{
  StackSnapshot, malloc, vm_ds_push, vm_ds_pop, vm_ds_clear, vm_reset_stacks, vm_ds_snapshot,
  restore_cells, vm_ds_restore,
}
use v4_engine.Vm.{Vm, Env, Outcome, ok, stop, fault, starved, then_run, M, PanicInfo, ds_cap}

-- What a sequence of calls leaves: a machine, or a step that C++ leaves undefined.
abbrev pub GoesOn : {W : Type 0} → Outcome W (Unit {0}) → Type 0
GoesOn (ok _ vm) = IsValid vm
GoesOn (stop e vm) = ⊥
GoesOn fault = Unit
GoesOn starved = Unit

fits_in :
    (n : ℕ)
    → (not (is_negative n) && ltb ds_cap n) ≡ false
    → (is_negative n || n == 0) ≡ false
    → n ≤ ds_cap
fits_in n h filled = ground arith

module _ {W : Type 0} where
  after-GoesOn : {A : Type 0} {r : Outcome W A} → Safe r → GoesOn (after r)
  after-GoesOn (goes_on v) = v
  after-GoesOn (returned v) = v
  after-GoesOn faulted = tt
  after-GoesOn ran_out = tt

  exec-GoesOn : (r : Outcome W ⊥) → LeavesValid r → GoesOn (after r)
  exec-GoesOn (ok a vm) v = absurd a
  exec-GoesOn (stop e vm) v = v
  exec-GoesOn fault v = tt
  exec-GoesOn starved v = tt

  then_run-GoesOn :
      (r : Outcome W (Unit {0})) (f : Unit {0} → M W (Unit {0}))
      → GoesOn r
      → ((vm : Vm W) → IsValid vm → GoesOn (f tt vm))
      → GoesOn (then_run r f)
  then_run-GoesOn (ok _ vm) f v h = h vm v
  then_run-GoesOn (stop e vm) f v h = absurd v
  then_run-GoesOn fault f v h = tt
  then_run-GoesOn starved f v h = tt

  record_err-Safe : {A : Type 0} {r : Outcome W A} → Safe r → Safe (record_err r)
  unfolding record_err
  record_err-Safe (goes_on v) = goes_on (err v)
    where
      err : {vm : Vm W} → IsValid vm → IsValid (record vm { last_err = 0 })
      err v = assumption
  record_err-Safe (returned {e} v) = returned (err v)
    where
      err : {vm : Vm W} → IsValid vm → IsValid (record vm { last_err = e })
      err v = assumption
  record_err-Safe faulted = faulted
  record_err-Safe ran_out = ran_out

  depth-IsValid : {vm : Vm W} (n : ℕ) → n ≤ ds_cap → IsValid vm → IsValid (record vm { sp = n })
  depth-IsValid n h v = record {
    sp_in = h;
    rp_in = v.rp_in;
    fp_in = v.fp_in;
    words_in = v.words_in;
    mmio_in = v.mmio_in;
    sched_in = v.sched_in;
    queue_in = v.queue_in;
  }

  vm_reset_stacks-IsValid : (vm : Vm W) → IsValid vm → IsValid (vm_reset_stacks vm)
  unfolding vm_reset_stacks
  vm_reset_stacks-IsValid vm v = record {
    sp_in = omega arith;
    rp_in = omega arith;
    fp_in = tt;
    words_in = v.words_in;
    mmio_in = v.mmio_in;
    sched_in = v.sched_in;
    queue_in = v.queue_in;
  }

  vm_reset_dictionary-IsValid : (vm : Vm W) → IsValid vm → IsValid (vm_reset_dictionary vm)
  unfolding vm_reset_dictionary
  vm_reset_dictionary-IsValid vm v = record {
    sp_in = v.sp_in;
    rp_in = v.rp_in;
    fp_in = v.fp_in;
    words_in = omega arith;
    mmio_in = v.mmio_in;
    sched_in = v.sched_in;
    queue_in = v.queue_in;
  }

  restore_cells-IsValid :
      (cells : Option (ℕ → ℕ)) (n : ℕ) (vm : Vm W)
      → (not (is_negative n) && ltb ds_cap n) ≡ false
      → IsValid vm
      → IsValid (restore_cells cells n vm)
  unfolding restore_cells
  restore_cells-IsValid none n vm h v = depth-IsValid 0 (omega arith) v
  restore_cells-IsValid (some cells) n vm h v = elim (Bool-cases (is_negative n || n == 0)) [
    | inl empty ↦ rw empty (depth-IsValid 0 (omega arith) v)
    | inr filled ↦ rw filled (stacks-IsValid _ vm.rs n vm.rp (fits_in n h filled) v.rp_in v)
  ]

  handler-IsValid :
      {vm : Vm W} (handler : Option (W → PanicInfo → W))
      → IsValid vm
      → IsValid (vm_set_panic_handler vm handler)
  unfolding vm_set_panic_handler
  handler-IsValid handler v = assumption

  vm_ds_restore-Keeps : (snap : StackSnapshot) → Keeps (vm_ds_restore {W = W} snap)
  unfolding vm_ds_restore
  vm_ds_restore-Keeps snap vm v =
      elim (Bool-cases (not (is_negative snap.depth) && ltb ds_cap snap.depth)) [
        | inl big ↦ rw big (vm_panic-Keeps _ vm v)
        | inr fits ↦ rw fits (goes_on (restore_cells-IsValid snap.cells snap.depth vm fits v))
      ]

module _ {W : Type 0} (env : Env W) where
  vm_ds_snapshot-IsValid : (vm : Vm W) → IsValid vm → IsValid (vm_ds_snapshot env vm).1
  unfolding vm_ds_snapshot
  vm_ds_snapshot-IsValid vm v =
      let one = malloc-IsValid env 16 v in
      let two = malloc-IsValid env (vm.sp * 4) one in
      if_pair-IsValid (vm.sp == 0) _ _ (if_pair-IsValid (malloc env 16 vm).0 _ _ one one) (
        if_pair-IsValid (malloc env 16 vm).0 _ _
          (if_pair-IsValid (malloc env (vm.sp * 4) (malloc env 16 vm).1).0 _ _ two two) one)

module _ {W : Type 0} (env : Env W) (sys : HandlerKeeps env.sys_handler) (fuel : ℕ) where
  perform-GoesOn : (r : Request W) (vm : Vm W) → IsValid vm → GoesOn (perform env fuel r vm)
  unfolding perform vm_ds_push vm_ds_pop vm_ds_clear vm_reset vm_mem_read32 vm_mem_write32
  perform-GoesOn (register_word name code len) vm v =
      after-GoesOn (vm_register_word-Safe env name code len vm v)
  perform-GoesOn (register_mmio list count) vm v =
      after-GoesOn (lift-Keeps _ (vm_register_mmio-IsValid list count) vm v)
  perform-GoesOn (register_sys_handler handler) vm v = v
  perform-GoesOn (set_panic_handler handler) vm v = (handler-IsValid handler v)
  perform-GoesOn (exec entry) vm v = exec-GoesOn _ (vm_exec-LeavesValid env sys fuel entry vm v)
  perform-GoesOn (push a) vm v = after-GoesOn (ds_push-Keeps a vm v)
  perform-GoesOn pop vm v = after-GoesOn (ds_pop-Keeps vm v)
  perform-GoesOn clear vm v = (depth-IsValid 0 (omega arith) v)
  perform-GoesOn reset vm v = (vm_reset_stacks-IsValid _ (vm_reset_dictionary-IsValid vm v))
  perform-GoesOn reset_dictionary vm v = (vm_reset_dictionary-IsValid vm v)
  perform-GoesOn reset_stacks vm v = (vm_reset_stacks-IsValid vm v)
  perform-GoesOn snapshot vm v = after-GoesOn (lift-Keeps _ (vm_ds_snapshot-IsValid env) vm v)
  perform-GoesOn (restore snap) vm v = after-GoesOn (vm_ds_restore-Keeps snap vm v)
  perform-GoesOn (read32 addr) vm v = after-GoesOn (record_err-Safe (mem_read32-Keeps addr vm v))
  perform-GoesOn (write32 addr val) vm v =
      after-GoesOn (record_err-Safe (mem_write32-Keeps addr val vm v))
  perform-GoesOn (init_tasks slice) vm v = (task_init-IsValid slice vm v)
  perform-GoesOn cleanup_tasks vm v = (task_cleanup-IsValid vm v)
  perform-GoesOn (spawn word_idx priority ds_size rs_size) vm v =
      after-GoesOn (lift-Keeps _ (task_spawn-IsValid env word_idx priority ds_size rs_size) vm v)
  perform-GoesOn exit vm v = after-GoesOn (task_exit-Keeps env vm v)
  perform-GoesOn (sleep ms) vm v = after-GoesOn (task_sleep-Keeps env ms vm v)
  perform-GoesOn yield vm v = after-GoesOn (task_yield-Keeps env vm v)
  perform-GoesOn enter vm v = (critical_enter-IsValid env vm v)
  perform-GoesOn leave vm v = (critical_exit-IsValid env vm v)
  perform-GoesOn (send_message dst_task msg_type value) vm v =
      after-GoesOn (lift-Keeps _ (task_send-IsValid dst_task msg_type value) vm v)
  perform-GoesOn (receive_message msg_type) vm v =
      after-GoesOn (lift-Keeps _ (task_receive-IsValid msg_type) vm v)
  perform-GoesOn (receive_blocking msg_type timeout) vm v =
      after-GoesOn (task_receive_blocking-Keeps env fuel msg_type timeout vm v)
  perform-GoesOn schedule vm v = after-GoesOn (vm_schedule-Keeps env vm v)
  perform-GoesOn schedule_from_isr vm v = after-GoesOn (vm_schedule_from_isr-Keeps env vm v)

-- A handler that is registered on the way keeps the machine valid.
abbrev pub RequestKeeps : {W : Type 0} → Request W → Type 0
RequestKeeps (register_sys_handler handler) = HandlerKeeps handler
RequestKeeps _ = Unit

abbrev pub RequestsKeep : {W : Type 0} → List (Request W) → Type 0
RequestsKeep [] = Unit
RequestsKeep (r ∷ rs) = RequestKeeps r × RequestsKeep rs

module _ {W : Type 0} where
  with_handler-Keeps :
      (env : Env W) (r : Request W)
      → RequestKeeps r
      → HandlerKeeps env.sys_handler
      → HandlerKeeps (with_handler r env).sys_handler
  with_handler-Keeps env (register_sys_handler handler) h sys = h
  with_handler-Keeps env _ h sys = sys

  perform_all-GoesOn :
      (env : Env W) (fuel : ℕ) (rs : List (Request W)) (vm : Vm W)
      → HandlerKeeps env.sys_handler
      → RequestsKeep rs
      → IsValid vm
      → GoesOn (perform_all env fuel rs vm)
  unfolding perform_all
  perform_all-GoesOn env fuel [] vm sys h v = v
  perform_all-GoesOn env fuel (r ∷ rs) vm sys h v =
      then_run-GoesOn (perform env fuel r vm) _ (perform-GoesOn env sys fuel r vm v) (λ vm' v'.
        perform_all-GoesOn (with_handler r env) fuel rs vm' (with_handler-Keeps env r h.0 sys) h.1
          v')

  -- Whatever calls of its public functions a program makes of a machine that `vm_create` gave it, in any order
  -- and with any arguments, the errors among them included: as long as no step is undefined in C++ and
  -- no loop runs for ever, the calls return one after the other and leave a machine whose stack
  -- pointers, frame pointer, dictionary, window table, task table and message queue are within their
  -- arrays. The SYS handlers, if any are registered, are assumed to keep the machine so.
  pub perform_all-created :
      (env : Env W) (fuel bytes : ℕ) (cfg : VmConfig W) (w : W) (vm : Vm W) (rs : List (Request W))
      → HandlerKeeps env.sys_handler
      → RequestsKeep rs
      → vm_create env bytes cfg w ≡ some vm
      → GoesOn (perform_all env fuel rs vm)
  perform_all-created env fuel bytes cfg w vm rs sys h made =
      perform_all-GoesOn env fuel rs vm sys h (vm_create-IsValid env bytes cfg w vm made)
