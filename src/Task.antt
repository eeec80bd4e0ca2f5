-- ===== src/Task.antt =====
-- src/task_backend_custom.cpp behind src/task.cpp: the life of a task, and the messages on the machine.
-- Every function is called with a vm that is not null.
pub mod Clock
pub mod Timeout
pub mod Spawn
pub mod Calls
pub mod Sleep
use v4_engine.Base.{
  ℕ, zero, suc, ◌+◌, ◌-◌, ◌*◌, ◌^◌, Bool, false, Option, none, some, ltb, leb, ◌==◌, ◌&&◌,
  if◌then◌else◌, u8, u32,
}
use v4_engine.Err.{Err, v4_err}
use v4_engine.Stack.{malloc}
use v4_engine.Message.{send, receive, empty_queue}
use v4_engine.Scheduler.{vm_schedule, set_task, is_dead}
use v4_engine.Vm.{
  Vm, Env, Task, TaskState, dead, ready, blocked, Message, Scheduler, ok, starved, M, ◌>>=◌,
  max_tasks,
}

abbrev pub zero_task : Task
zero_task = record {
  word_idx = 0;
  pc = 0;
  ds_base = none;
  rs_base = none;
  ds_depth = 0;
  rs_depth = 0;
  state = dead;
  priority = 0;
  sleep_until_tick = 0;
  ds_size = 0;
  rs_size = 0;
  exec_count = 0;
}

-- memset(&vm->scheduler, 0, sizeof(v4_scheduler_t)); DEAD is 0.
abbrev pub zero_scheduler : Scheduler
zero_scheduler = record {
  tasks = λ _. zero_task;
  current_task = 0;
  task_count = 0;
  tick_count = 0;
  time_slice_ms = 0;
  context_switches = 0;
  preemptions = 0;
  critical_nesting = 0;
}

-- free(task->ds_base), free(task->rs_base), and DEAD
abbrev pub retire : Task → Task
retire task = record task { ds_base = none; rs_base = none; state = dead }

-- The search for a free slot at `i`, with `n` slots left.
unfoldable pub free_slot_from : (ℕ → Task) → ℕ → ℕ → Option ℕ
free_slot_from tasks zero i = none
free_slot_from tasks (suc n) i =
    let rest = free_slot_from tasks n (i + 1) in if is_dead (tasks i).state then some i else rest

unfoldable pub free_slot : (ℕ → Task) → Option ℕ
unfolding free_slot_from
free_slot tasks = free_slot_from tasks max_tasks 0

module _ {W : Type 0} where
  unfoldable pub task_init : ℕ → Vm W → Vm W
  task_init time_slice_ms vm = record vm {
    scheduler = record zero_scheduler {
      time_slice_ms = if ltb 0 time_slice_ms then time_slice_ms else 10;
    };
    msg_queue = empty_queue;
  }

  unfoldable pub task_cleanup : Vm W → Vm W
  task_cleanup vm = record vm {
    scheduler = record (vm.scheduler) {
      tasks = λ i. if ltb i max_tasks then retire (vm.scheduler.tasks i) else vm.scheduler.tasks i;
      task_count = 0;
    };
    msg_queue = empty_queue;
  }

  -- v4_backend_task_current and vm_task_self
  unfoldable pub task_current : Vm W → ℕ
  task_current vm = vm.scheduler.current_task

  -- v4_backend_task_get_state at pointers that are not null: the code, and what is written.
  unfoldable pub task_get_state : ℕ → Vm W → ℕ × Option TaskState
  task_get_state task_id vm =
      if leb max_tasks task_id
      then (v4_err Err.invalid_arg, none)
      else (v4_err Err.no_error, some (vm.scheduler.tasks task_id).state)

  -- vm_task_get_info at pointers that are not null: the code, and the state and priority that are written.
  unfoldable pub task_get_info : ℕ → Vm W → ℕ × Option (TaskState × ℕ)
  unfolding task_get_state
  task_get_info task_id vm =
      let (err, state) = task_get_state task_id vm in
      (err, elim state [ none ↦ none | some s ↦ some (s, (vm.scheduler.tasks task_id).priority) ])

  -- vm_task_send: the code and the machine afterwards.
  unfoldable pub task_send : ℕ → ℕ → ℕ → Vm W → ℕ × Vm W
  unfolding send
  task_send dst_task msg_type value vm =
      let (e, q) = send vm.scheduler.current_task dst_task msg_type value vm.msg_queue in
      (e, record vm { msg_queue = q })

  -- vm_task_receive: the message, if there was one, and the machine afterwards.
  unfoldable pub task_receive : ℕ → Vm W → Option Message × Vm W
  unfolding receive
  task_receive msg_type vm =
      let (m, q) = receive vm.scheduler.current_task msg_type vm.msg_queue in
      (m, record vm { msg_queue = q })

  -- A fresh task in slot `i`, with blocks of the sizes that were allocated. `ds_size` and `rs_size` are
  -- kept in 8 bits.
  unfoldable pub start_task : ℕ → ℕ → ℕ → ℕ → ℕ → Vm W → Vm W
  start_task i word_idx priority ds_size rs_size vm =
      let vm' = set_task vm i (record {
        word_idx = word_idx;
        pc = 0;
        ds_base = some (record { size = ds_size; cells = λ _. 0 });
        rs_base = some (record { size = rs_size; cells = λ _. 0 });
        ds_depth = 0;
        rs_depth = 0;
        state = ready;
        priority = priority;
        sleep_until_tick = 0;
        ds_size = u8 ds_size;
        rs_size = u8 rs_size;
        exec_count = 0;
      }) in
      record vm' {
        scheduler = record (vm'.scheduler) { task_count = u8 (vm'.scheduler.task_count + 1) };
      }

  -- On a failed allocation both pointers of the slot are cleared.
  unfoldable pub drop_blocks : ℕ → Vm W → Vm W
  drop_blocks i vm =
      set_task vm i (record (vm.scheduler.tasks i) { ds_base = none; rs_base = none })

module _ {W : Type 0} (env : Env W) where
  -- The two allocations of a spawn into slot `i`, and what follows them.
  unfoldable pub spawn_at : ℕ → ℕ → ℕ → ℕ → ℕ → Vm W → ℕ × Vm W
  unfolding malloc start_task drop_blocks
  spawn_at i word_idx priority ds_size rs_size vm =
      let (ds_met, vm₁) = malloc env (ds_size * 4) vm in
      let (rs_met, vm₂) = malloc env (rs_size * 4) vm₁ in
      if ds_met && rs_met
      then (i, start_task i word_idx priority ds_size rs_size vm₂)
      else (v4_err Err.no_memory, drop_blocks i vm₂)

  -- What follows the search for a free slot, with the default sizes for 0.
  unfoldable pub spawn_found : Option ℕ → ℕ → ℕ → ℕ → ℕ → Vm W → ℕ × Vm W
  unfolding spawn_at
  spawn_found none word_idx priority ds_size rs_size vm = (v4_err Err.task_limit, vm)
  spawn_found (some i) word_idx priority ds_size rs_size vm =
      spawn_at i word_idx priority (if ds_size == 0 then 256 else ds_size)
        (if rs_size == 0 then 64 else rs_size) vm

  -- v4_backend_task_spawn: the task's id or a code, and the machine afterwards.
  unfoldable pub task_spawn : ℕ → ℕ → ℕ → ℕ → Vm W → ℕ × Vm W
  unfolding free_slot spawn_found
  task_spawn word_idx priority ds_size rs_size vm =
      if leb vm.word_count word_idx
      then (v4_err Err.invalid_word_idx, vm)
      else spawn_found (free_slot vm.scheduler.tasks) word_idx priority ds_size rs_size vm

  -- `task_count--` is made in 8 bits, on 0 too.
  unfoldable pub retire_current : Vm W → Vm W
  retire_current vm =
      let i = vm.scheduler.current_task in
      let vm' = set_task vm i (retire (vm.scheduler.tasks i)) in
      record vm' {
        scheduler = record (vm'.scheduler) { task_count = u8 (vm'.scheduler.task_count + 255) };
      }

  unfoldable pub task_exit : M W (Unit {0})
  unfolding retire_current vm_schedule
  task_exit vm = vm_schedule env (retire_current vm)

  -- The deadline is a sum in 32 bits.
  unfoldable pub block_current : ℕ → Vm W → Vm W
  block_current ms_delay vm =
      let t = env.tick_ms vm.world in
      let i = vm.scheduler.current_task in
      record (set_task vm i (record (vm.scheduler.tasks i) {
        sleep_until_tick = u32 (t.now + ms_delay);
        state = blocked;
      })) { world = t.world }

  unfoldable pub task_sleep : ℕ → M W (Unit {0})
  unfolding block_current vm_schedule
  task_sleep ms_delay vm = vm_schedule env (block_current ms_delay vm)

  unfoldable pub task_yield : M W (Unit {0})
  unfolding vm_schedule
  task_yield = vm_schedule env

  -- The platform's interrupt switch, and the nesting depth in 8 bits.
  unfoldable pub critical_enter : Vm W → Vm W
  critical_enter vm = record vm {
    world = env.critical_enter vm.world;
    scheduler = record (vm.scheduler) { critical_nesting = u8 (vm.scheduler.critical_nesting + 1) };
  }

  unfoldable pub critical_exit : Vm W → Vm W
  critical_exit vm =
      if ltb 0 vm.scheduler.critical_nesting
      then record vm {
        world = if vm.scheduler.critical_nesting == 1 then env.critical_exit vm.world else vm.world;
        scheduler = record (vm.scheduler) { critical_nesting = vm.scheduler.critical_nesting - 1 };
      }
      else vm

  -- The timeout test of the waiting loop: the tick is read only if there is a timeout.
  unfoldable pub timed_out : ℕ → ℕ → Vm W → Bool × Vm W
  timed_out start_tick timeout_ms vm =
      let t = env.tick_ms vm.world in
      if ltb 0 timeout_ms
      then (leb timeout_ms (u32 (t.now + 2 ^ 32 - start_tick)), record vm { world = t.world })
      else (false, vm)

  -- The waiting loop of v4_backend_task_receive_blocking, with fuel for its rounds.
  unfoldable pub receive_wait : ℕ → ℕ → ℕ → ℕ → M W (Option Message)
  unfolding task_receive task_sleep timed_out
  receive_wait zero start_tick msg_type timeout_ms vm = starved
  receive_wait (suc fuel) start_tick msg_type timeout_ms vm =
      let (m, vm₁) = task_receive msg_type vm in
      let (late, vm₂) = timed_out start_tick timeout_ms vm₁ in
      let again = (task_sleep 10 >>= λ _. receive_wait fuel start_tick msg_type timeout_ms) vm₂ in
      elim m [ some msg ↦ ok (some msg) vm₁ | none ↦ if late then ok none vm₂ else again ]

  unfoldable pub task_receive_blocking : ℕ → ℕ → ℕ → M W (Option Message)
  unfolding receive_wait
  task_receive_blocking fuel msg_type timeout_ms vm =
      let t = env.tick_ms vm.world in
      receive_wait fuel t.now msg_type timeout_ms (record vm { world = t.world })
