-- ===== src/Rtos/Tasks.antt =====
-- src/task_backend_freertos.cpp: the life of a task.
use v4_engine.Base.{
  ℕ, zero, suc, ◌+◌, ◌*◌, ◌/◌, Option, none, some, ltb, leb, ◌==◌, if◌then◌else◌, update, u8,
}
use v4_engine.Err.{Err, v4_err}
use v4_engine.Rtos.{Kernel, Rtos, to_priority, with_world, with_task, with_count}
use v4_engine.Task.{free_slot, zero_scheduler}
use v4_engine.Vm.{TaskState, max_tasks, msg_queue_size}

module _ {W : Type 0} where
  -- What v4_backend_task_init does to the scheduler and the handles.
  unfoldable pub init_tables : ℕ → Rtos W → Rtos W
  init_tables time_slice_ms s = record s {
    vm = record (s.vm) {
      scheduler = record zero_scheduler {
        time_slice_ms = if ltb 0 time_slice_ms then time_slice_ms else 10;
      };
    };
    task_handles = λ i. if ltb i max_tasks then none else s.task_handles i;
  }

  -- The fields that a spawn sets before it asks for memory. The sizes are kept in 8 bits.
  unfoldable pub prepare : ℕ → ℕ → ℕ → ℕ → ℕ → Rtos W → Rtos W
  prepare i word_idx priority ds_size rs_size s = with_task s i (record (s.vm.scheduler.tasks i) {
    word_idx = word_idx;
    priority = priority;
    ds_size = u8 ds_size;
    rs_size = u8 rs_size;
    state = TaskState.ready;
  })

  abbrev pub set_state : Rtos W → ℕ → TaskState → Rtos W
  set_state s i state = with_task s i (record (s.vm.scheduler.tasks i) { state = state })

  -- v4_backend_task_get_state: the code and what `*state` is given.
  unfoldable pub rtos_get_state : ℕ → Rtos W → ℕ × Option TaskState
  rtos_get_state task_id s =
      if leb max_tasks task_id
      then (v4_err Err.invalid_arg, none)
      else (v4_err Err.no_error, some (s.vm.scheduler.tasks task_id).state)

module _ {W : Type 0} (kernel : Kernel W) where
  -- v4_backend_task_init: the code and what is left. An earlier queue's handle is overwritten.
  unfoldable pub rtos_init : ℕ → Rtos W → ℕ × Rtos W
  unfolding init_tables
  rtos_init time_slice_ms s =
      let s' = init_tables time_slice_ms s in
      let r = kernel.queue_create s'.vm.world msg_queue_size in
      (
        elim r.handle [ none ↦ v4_err Err.no_memory | some queue ↦ v4_err Err.no_error ],
        record (with_world s' r.world) { msg_queue = r.handle },
      )

  -- One round of the loop of v4_backend_task_cleanup.
  unfoldable pub delete_at : ℕ → Option ℕ → Rtos W → Rtos W
  delete_at i none s = set_state s i TaskState.dead
  delete_at i (some handle) s =
      set_state
        (record (with_world s (kernel.task_delete s.vm.world (some handle))) {
          task_handles = update s.task_handles i none;
        })
        i TaskState.dead

  -- The loop at slot `i`, with `n` slots left.
  unfoldable pub delete_from : ℕ → ℕ → Rtos W → Rtos W
  unfolding delete_at
  delete_from zero i s = s
  delete_from (suc n) i s = delete_from n (i + 1) (delete_at i (s.task_handles i) s)

  unfoldable pub delete_queue : Option ℕ → Rtos W → Rtos W
  delete_queue none s = s
  delete_queue (some queue) s = record (with_world s (kernel.queue_delete s.vm.world queue)) {
    msg_queue = none;
  }

  -- v4_backend_task_cleanup
  unfoldable pub rtos_cleanup : Rtos W → Rtos W
  unfolding delete_from delete_queue
  rtos_cleanup s = let s' = delete_from max_tasks 0 s in with_count (delete_queue s'.msg_queue s') 0

  -- v4_freertos_task_wrapper, run by the kernel in the new task: it calls no vm_exec, and does not return.
  unfoldable pub task_wrapper : ℕ → Rtos W → Rtos W
  task_wrapper task_id s =
      let running =
        set_state
          (record s {
            vm = record (s.vm) { scheduler = record (s.vm.scheduler) { current_task = task_id } };
          })
          task_id TaskState.running in
      let ended =
        with_count (set_state running task_id TaskState.dead)
          (u8 (s.vm.scheduler.task_count + 255)) in
      with_world ended (kernel.task_delete s.vm.world none)

  -- What xTaskCreate decides: on failure the parameters are freed and the slot is DEAD again.
  unfoldable pub created : ℕ → Option ℕ → Rtos W → ℕ × Rtos W
  created i none s = (
    v4_err Err.no_memory,
    set_state (with_world s (kernel.port_free s.vm.world)) i TaskState.dead,
  )
  created i (some handle) s = (
    i,
    with_count (record s { task_handles = update s.task_handles i (some handle) })
        (u8 (s.vm.scheduler.task_count + 1)),
  )

  -- The part of v4_backend_task_spawn that asks the kernel for the parameters' block and the task.
  unfoldable pub create : ℕ → ℕ → ℕ → ℕ → ℕ → Rtos W → ℕ × Rtos W
  unfolding created to_priority
  create i word_idx priority ds_size rs_size s =
      let block = kernel.port_malloc s.vm.world kernel.params_size in
      let task =
        kernel.task_create block.world ((ds_size + rs_size) * 4 / kernel.stack_cell_size) word_idx i
          (to_priority kernel.max_priorities priority) in
      if block.met
      then created i task.handle (with_world s task.world)
      else (v4_err Err.no_memory, with_world s block.world)

  -- What follows the search for a free slot, with the default sizes for 0.
  unfoldable pub spawn_slot : Option ℕ → ℕ → ℕ → ℕ → ℕ → Rtos W → ℕ × Rtos W
  unfolding create prepare
  spawn_slot none word_idx priority ds_size rs_size s = (v4_err Err.task_limit, s)
  spawn_slot (some i) word_idx priority ds_size rs_size s =
      let ds = if ds_size == 0 then 256 else ds_size in
      let rs = if rs_size == 0 then 64 else rs_size in
      create i word_idx priority ds rs (prepare i word_idx priority ds rs s)

  -- v4_backend_task_spawn: the task's id or a code, and what is left.
  unfoldable pub rtos_spawn : ℕ → ℕ → ℕ → ℕ → Rtos W → ℕ × Rtos W
  unfolding spawn_slot free_slot
  rtos_spawn word_idx priority ds_size rs_size s =
      if leb s.vm.word_count word_idx
      then (v4_err Err.invalid_word_idx, s)
      else spawn_slot (free_slot s.vm.scheduler.tasks) word_idx priority ds_size rs_size s

  -- The last part of v4_backend_task_exit: with a handle the call does not return.
  unfoldable pub delete_self : Option ℕ → ℕ → Rtos W → Option ℕ × Rtos W
  delete_self none i s = (some (v4_err Err.no_error), s)
  delete_self (some handle) i s = (
    none,
    record (with_world s (kernel.task_delete s.vm.world none)) {
      task_handles = update s.task_handles i none;
    },
  )

  -- v4_backend_task_exit: the code, if the call returns, and what is left.
  unfoldable pub rtos_exit : Rtos W → Option ℕ × Rtos W
  unfolding delete_self
  rtos_exit s =
      let i = s.vm.scheduler.current_task in
      delete_self (s.task_handles i) i
        (with_count (set_state s i TaskState.dead) (u8 (s.vm.scheduler.task_count + 255)))

  -- v4_backend_task_sleep
  unfoldable pub rtos_sleep : ℕ → Rtos W → Rtos W
  rtos_sleep ms_delay s =
      let i = s.vm.scheduler.current_task in
      let blocked = set_state s i TaskState.blocked in
      set_state (with_world blocked (kernel.task_delay s.vm.world (kernel.ms_to_ticks ms_delay))) i
        TaskState.ready

  -- v4_backend_task_yield and v4_backend_schedule
  unfoldable pub rtos_yield : Rtos W → Rtos W
  rtos_yield s = with_world s (kernel.task_yield s.vm.world)

  -- v4_backend_schedule_from_isr
  unfoldable pub rtos_schedule_from_isr : Rtos W → Rtos W
  rtos_schedule_from_isr s = with_world s (kernel.yield_from_isr s.vm.world)
