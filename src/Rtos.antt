-- ===== src/Rtos.antt =====
-- src/task_backend_freertos.cpp: the task back end that leaves scheduling to FreeRTOS. The kernel is not in the
-- repository: it is the parameter `Kernel`. `W` is the state of the kernel and of all else outside the machine.
-- Each function is one step, called with a vm that is not null; a handle is a number and NULL is `none`.
pub mod Tasks
pub mod Messages
pub mod Queue
pub mod Slots
use v4_engine.Base.{ℕ, zero, suc, ◌+◌, ◌-◌, ◌*◌, ◌/◌, Bool, Option, none, some, ◌==◌, if◌then◌else◌}
use v4_engine.Scheduler.{is_runnable}
use v4_engine.Vm.{Vm, Task, TaskState, Message, max_tasks}

-- The calls that the file makes, each with the state it is given and the one it leaves.
-- xQueueCreate, vQueueDelete, xQueueSend, xQueueReceive: queues of messages, with a time to wait in ticks.
-- xTaskCreate, vTaskDelete, vTaskDelay, taskYIELD, portYIELD_FROM_ISR, xTaskGetCurrentTaskHandle: tasks;
-- `task_create` is given the stack depth, the word's index and the task's id, and the priority.
-- pvPortMalloc and vPortFree: the kernel's heap.
-- pdMS_TO_TICKS, configMAX_PRIORITIES, portMAX_DELAY, sizeof(StackType_t), sizeof(*params): the configuration.
pub record Kernel (W : Type 0) : Type 0 where
  pub queue_create : W → ℕ → record { handle : Option ℕ; world : W }
  pub queue_delete : W → ℕ → W
  pub queue_send : W → ℕ → Message → ℕ → record { passed : Bool; world : W }
  pub queue_receive : W → ℕ → ℕ → record { taken : Option Message; world : W }
  pub task_create : W → ℕ → ℕ → ℕ → ℕ → record { handle : Option ℕ; world : W }
  pub task_delete : W → Option ℕ → W
  pub task_delay : W → ℕ → W
  pub task_yield : W → W
  pub yield_from_isr : W → W
  pub current_handle : W → ℕ
  pub port_malloc : W → ℕ → record { met : Bool; world : W }
  pub port_free : W → W
  pub ms_to_ticks : ℕ → ℕ
  pub max_priorities : ℕ
  pub max_delay : ℕ
  pub stack_cell_size : ℕ
  pub params_size : ℕ

-- The machine and the two static variables of the file.
pub record Rtos (W : Type 0) : Type 0 where
  pub vm : Vm W
  pub task_handles : ℕ → Option ℕ
  pub msg_queue : Option ℕ

-- V4_TO_FREERTOS_PRIORITY
unfoldable pub to_priority : ℕ → ℕ → ℕ
to_priority max_priorities priority = priority * (max_priorities - 1) / 255

abbrev pub is_handle : ℕ → Option ℕ → Bool
is_handle current none = Bool.false
is_handle current (some handle) = handle == current

-- The search of v4_backend_task_current at slot `i`, with `n` slots left; 0 is its default.
unfoldable pub find_handle : ℕ → (ℕ → Option ℕ) → ℕ → ℕ → ℕ
find_handle current handles zero i = 0
find_handle current handles (suc n) i =
    let rest = find_handle current handles n (i + 1) in
    if is_handle current (handles i) then i else rest

module _ {W : Type 0} where
  abbrev pub with_world : Rtos W → W → Rtos W
  with_world s w = record s { vm = record (s.vm) { world = w } }

  abbrev pub with_task : Rtos W → ℕ → Task → Rtos W
  with_task s i task = record s {
    vm = record (s.vm) {
      scheduler = record (s.vm.scheduler) {
        tasks = λ j. if i == j then task else s.vm.scheduler.tasks j;
      };
    };
  }

  abbrev pub with_count : Rtos W → ℕ → Rtos W
  with_count s count = record s {
    vm = record (s.vm) { scheduler = record (s.vm.scheduler) { task_count = count } };
  }

module _ {W : Type 0} (kernel : Kernel W) where
  -- v4_backend_task_current
  unfoldable pub rtos_current : Rtos W → ℕ
  unfolding find_handle
  rtos_current s = find_handle (kernel.current_handle s.vm.world) s.task_handles max_tasks 0
