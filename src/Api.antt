-- ===== src/Api.antt =====
-- The public functions of include/v4/vm_api.h and include/v4/task.h as requests that a program makes of one
-- machine, one after the other.
use v4_engine.Base.{ℕ, Option, List, [], ◌∷◌}
use v4_engine.Dictionary.{vm_register_word, vm_reset, vm_reset_dictionary}
use v4_engine.Interp.Call.{lift, v4_register_sys_handler}
use v4_engine.Interp.Loop.{vm_exec}
use v4_engine.Lifecycle.{vm_register_mmio}
use v4_engine.Memory.{vm_mem_read32, vm_mem_write32}
use v4_engine.Panic.{vm_set_panic_handler}
use v4_engine.Stack.{
  StackSnapshot, vm_ds_push, vm_ds_pop, vm_ds_clear, vm_reset_stacks, vm_ds_snapshot, vm_ds_restore,
}
use v4_engine.Task.{critical_enter, critical_exit, task_send, task_receive, task_receive_blocking}
use v4_engine.Task.Calls.{
  vm_task_init, vm_task_cleanup, vm_task_spawn, vm_task_exit, vm_task_sleep, vm_task_yield,
  backend_schedule, backend_schedule_from_isr,
}
use v4_engine.Vm.{Vm, Env, Word, Mmio, PanicInfo, Outcome, ok, stop, fault, starved, M, ◌>>◌}

-- A call of a public function that changes the machine, at arguments that are not null.
pub data Request (W : Type 0) : Type 0 where
  register_word : Option (List ℕ) → Option (List ℕ) → ℕ → Request W
  register_mmio : (ℕ → Mmio W) → ℕ → Request W
  register_sys_handler :
      Option (Vm W → ℕ → ℕ → ℕ → ℕ → record { result : ℕ; vm : Vm W }) → Request W
  set_panic_handler : Option (W → PanicInfo → W) → Request W
  exec : Word → Request W
  push : ℕ → Request W
  pop : Request W
  clear : Request W
  reset : Request W
  reset_dictionary : Request W
  reset_stacks : Request W
  snapshot : Request W
  restore : StackSnapshot → Request W
  read32 : ℕ → Request W
  write32 : ℕ → ℕ → Request W
  init_tasks : ℕ → Request W
  cleanup_tasks : Request W
  spawn : ℕ → ℕ → ℕ → ℕ → Request W
  exit : Request W
  sleep : ℕ → Request W
  yield : Request W
  enter : Request W
  leave : Request W
  send_message : ℕ → ℕ → ℕ → Request W
  receive_message : ℕ → Request W
  receive_blocking : ℕ → ℕ → Request W
  schedule : Request W
  schedule_from_isr : Request W

module _ {W : Type 0} where
  -- The caller goes on after the call, whatever value or code it returned.
  abbrev pub after : {A : Type 0} → Outcome W A → Outcome W (Unit {0})
  after (ok _ vm) = ok tt vm
  after (stop e vm) = ok tt vm
  after fault = fault
  after starved = starved

  abbrev pub changes : (Vm W → Vm W) → M W (Unit {0})
  changes f vm = ok tt (f vm)

module _ {W : Type 0} (env : Env W) (fuel : ℕ) where
  -- One request. `fuel` bounds the loop of an `exec` and the rounds of a blocking receive.
  unfoldable pub perform : Request W → M W (Unit {0})
  perform (register_word name code len) vm = after (vm_register_word env name code len vm)
  perform (register_mmio list count) vm = after (lift (vm_register_mmio list count) vm)
  perform (register_sys_handler handler) vm = ok tt vm
  perform (set_panic_handler handler) vm = changes (λ v. vm_set_panic_handler v handler) vm
  perform (exec entry) vm = after (vm_exec env fuel entry vm)
  perform (push v) vm = after (vm_ds_push v vm)
  perform pop vm = after (vm_ds_pop vm)
  perform clear vm = changes vm_ds_clear vm
  perform reset vm = changes vm_reset vm
  perform reset_dictionary vm = changes vm_reset_dictionary vm
  perform reset_stacks vm = changes vm_reset_stacks vm
  perform snapshot vm = after (lift (vm_ds_snapshot env) vm)
  perform (restore snap) vm = after (vm_ds_restore snap vm)
  perform (read32 addr) vm = after (vm_mem_read32 addr vm)
  perform (write32 addr val) vm = after (vm_mem_write32 addr val vm)
  perform (init_tasks slice) vm = changes (vm_task_init slice) vm
  perform cleanup_tasks vm = changes vm_task_cleanup vm
  perform (spawn word_idx priority ds_size rs_size) vm =
      after (lift (vm_task_spawn env word_idx priority ds_size rs_size) vm)
  perform exit vm = after (vm_task_exit env vm)
  perform (sleep ms) vm = after (vm_task_sleep env ms vm)
  perform yield vm = after (vm_task_yield env vm)
  perform enter vm = changes (critical_enter env) vm
  perform leave vm = changes (critical_exit env) vm
  perform (send_message dst_task msg_type value) vm =
      after (lift (task_send dst_task msg_type value) vm)
  perform (receive_message msg_type) vm = after (lift (task_receive msg_type) vm)
  perform (receive_blocking msg_type timeout) vm =
      after (task_receive_blocking env fuel msg_type timeout vm)
  perform schedule vm = after (backend_schedule env vm)
  perform schedule_from_isr vm = after (backend_schedule_from_isr env vm)

module _ {W : Type 0} where
  -- The handler that a later SYS calls.
  abbrev pub with_handler : Request W → Env W → Env W
  with_handler (register_sys_handler handler) env = v4_register_sys_handler handler env
  with_handler _ env = env

  -- A program's requests in order.
  unfoldable pub perform_all : Env W → ℕ → List (Request W) → M W (Unit {0})
  unfolding perform
  perform_all env fuel [] vm = ok tt vm
  perform_all env fuel (r ∷ rs) vm =
      (perform env fuel r >> perform_all (with_handler r env) fuel rs) vm
