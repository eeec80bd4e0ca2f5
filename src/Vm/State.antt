-- ===== src/Vm/State.antt =====
-- The structs of include/v4/internal/vm.h and include/v4/internal/task.hpp. An array is a function of
-- the index, a stack pointer the number of cells below it, and a null pointer `none`.
use v4_engine.Base.{ℕ, Bool, Option, List}
use v4_engine.Arena.{Arena}

-- A dictionary entry; the name without its final zero byte.
pub record Word : Type 0 where
  pub name : Option (List ℕ)
  pub code : Option (List ℕ)
  pub code_len : ℕ

-- A memory-mapped window. A callback, with its `user` pointer applied, acts on the outside world and
-- returns a `v4_err`; a read also fills `*out`.
pub record Mmio (W : Type 0) : Type 0 where
  pub base : ℕ
  pub size : ℕ
  pub read32 : Option (W → ℕ → record { err : ℕ; out : ℕ; world : W })
  pub write32 : Option (W → ℕ → ℕ → record { err : ℕ; world : W })

-- What a panic handler is told.
pub record PanicInfo : Type 0 where
  pub error_code : ℕ
  pub pc : ℕ
  pub tos : ℕ
  pub nos : ℕ
  pub ds_depth : ℕ
  pub rs_depth : ℕ
  pub has_stack_data : Bool
  pub stack : ℕ → ℕ

-- v4_task_state_t
pub data TaskState : Type 0 where
  dead ready running blocked : TaskState

-- An allocated block of `size` 32-bit cells.
pub record Buffer : Type 0 where
  pub size : ℕ
  pub cells : ℕ → ℕ

-- v4_task_t
pub record Task : Type 0 where
  pub word_idx : ℕ
  pub pc : ℕ
  pub ds_base : Option Buffer
  pub rs_base : Option Buffer
  pub ds_depth : ℕ
  pub rs_depth : ℕ
  pub state : TaskState
  pub priority : ℕ
  pub sleep_until_tick : ℕ
  pub ds_size : ℕ
  pub rs_size : ℕ
  pub exec_count : ℕ

-- v4_scheduler_t
pub record Scheduler : Type 0 where
  pub tasks : ℕ → Task
  pub current_task : ℕ
  pub task_count : ℕ
  pub tick_count : ℕ
  pub time_slice_ms : ℕ
  pub context_switches : ℕ
  pub preemptions : ℕ
  pub critical_nesting : ℕ

-- v4_message_t
pub record Message : Type 0 where
  pub src_task : ℕ
  pub dst_task : ℕ
  pub msg_type : ℕ
  pub flags : ℕ
  pub payload : ℕ

-- v4_msg_queue_t
pub record MsgQueue : Type 0 where
  pub queue : ℕ → Message
  pub read_idx : ℕ
  pub write_idx : ℕ
  pub count : ℕ

-- The machine. The panic handler stands with its `panic_user_data` applied; `boot_cfg_snapshot`,
-- which nothing reads, is left out.
pub record Vm (W : Type 0) : Type 0 where
  pub ds : ℕ → ℕ
  pub rs : ℕ → ℕ
  pub sp : ℕ
  pub rp : ℕ
  pub fp : Option ℕ
  pub mem : Option (ℕ → ℕ)
  pub mem_size : ℕ
  pub mmio : ℕ → Mmio W
  pub mmio_count : ℕ
  pub last_err : ℕ
  pub words : ℕ → Word
  pub word_count : ℕ
  pub arena : Option Arena
  pub scheduler : Scheduler
  pub msg_queue : MsgQueue
  pub panic_handler : Option (W → PanicInfo → W)
  pub world : W

abbrev pub ds_cap : ℕ
ds_cap = 256

abbrev pub rs_cap : ℕ
rs_cap = 64

-- V4_MAX_MMIO, V4_MAX_WORDS, V4_MAX_TASKS and V4_MSG_QUEUE_SIZE
abbrev pub max_mmio : ℕ
max_mmio = 16

abbrev pub max_words : ℕ
max_words = 256

abbrev pub max_tasks : ℕ
max_tasks = 8

abbrev pub msg_queue_size : ℕ
msg_queue_size = 16

-- The target id of a broadcast, and the scheduler's mark for no task: 0xFF.
abbrev pub broadcast : ℕ
broadcast = 0xff

-- What the engine takes from outside its sources: the platform's tick counter and interrupt switch,
-- `malloc` (whether a request of that many bytes is met), the registered SYS handler, which is given
-- the machine, the indeterminate bits of the two local variables that a receive leaves unwritten, and the
-- build option V4_ENABLE_TASKS.
pub record Env (W : Type 0) : Type 0 where
  pub tick_ms : W → record { now : ℕ; world : W }
  pub critical_enter : W → W
  pub critical_exit : W → W
  pub malloc : W → ℕ → record { met : Bool; world : W }
  pub sys_handler : Option (Vm W → ℕ → ℕ → ℕ → ℕ → record { result : ℕ; vm : Vm W })
  pub unset_data : W → ℕ
  pub unset_src : W → ℕ
  pub tasks_enabled : Bool
