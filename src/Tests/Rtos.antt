-- ===== src/Tests/Rtos.antt =====
-- The theorems on the FreeRTOS back end, over a kernel that is nothing but its queue.
use v4_engine.Base.{
  ◌≡◌, refl, Bool, true, false, none, some, List, [], ◌∷◌, leb, length, if◌then◌else◌,
}
use v4_engine.Base.{Option, ℕ, ◌<◌, ◌≢◌, ◌==◌, arith}
use v4_engine.Err.{Err, v4_err}
use v4_engine.Scheduler.{is_dead}
use v4_engine.Task.{zero_task, zero_scheduler, free_slot, free_slot_from}
use v4_engine.Rtos.Tasks.{rtos_spawn}
use v4_engine.Rtos.Slots.{rtos_spawn-lost_slot}
use v4_engine.Message.{matches}
use v4_engine.Lifecycle.{VmConfig, fresh_vm}
use v4_engine.Message.Fifo.{sent, send_spec}
use v4_engine.Message.Window.{append_one}
use v4_engine.Rtos.{Kernel, Rtos, rtos_current, with_world}
use v4_engine.Rtos.Messages.{rtos_send, rtos_receive, rtos_receive_blocking}
use v4_engine.Rtos.Queue.{IsFifo, waiting, rtos_send-messages, rtos_receive-drops}
use v4_engine.Vm.{Message, TaskState}

abbrev put_last : List Message → Message → record { passed : Bool; world : List Message }
put_last w m =
    if leb 16 (length w)
    then record { passed = false; world = w }
    else record { passed = true; world = append_one w m }

abbrev take_oldest : List Message → record { taken : Option Message; world : List Message }
take_oldest [] = record { taken = none; world = [] }
take_oldest (m ∷ ms) = record { taken = some m; world = ms }

-- A kernel with one queue, which starts every task, and whose heap is empty.
abbrev list_kernel : Kernel (List Message)
list_kernel = record {
  queue_create = λ w n. record { handle = some 7; world = w };
  queue_delete = λ w q. w;
  queue_send = λ w q m ticks. put_last w m;
  queue_receive = λ w q ticks. take_oldest w;
  task_create = λ w depth word_idx task_id priority. record { handle = some 1; world = w };
  task_delete = λ w h. w;
  task_delay = λ w ticks. w;
  task_yield = λ w. w;
  yield_from_isr = λ w. w;
  current_handle = λ w. 1;
  port_malloc = λ w bytes. record { met = false; world = w };
  port_free = λ w. w;
  ms_to_ticks = λ ms. ms;
  max_priorities = 25;
  max_delay = 0xffffffff;
  stack_cell_size = 1;
  params_size = 8;
}

list_kernel-IsFifo : IsFifo list_kernel 7 (λ w. w)
list_kernel-IsFifo = record {
  send_full = λ w m full. rw full (refl, refl);
  send_room = λ w m room. rw room (refl, refl);
  receive_none = λ w e. rw e (refl, refl);
  receive_some = λ w m ms ticks e. rw e (refl, refl);
}

abbrev empty_config : VmConfig (List Message)
empty_config = record { mem = none; mem_size = 0; mmio = none; mmio_count = 0; arena = none }

-- One word, task 0 with the current handle, and a message of type 5 for task 3.
abbrev rtos : Rtos (List Message)
rtos = record {
  vm = record (fresh_vm empty_config (sent 0 3 5 100 ∷ [])) { word_count = 1 };
  task_handles = λ _. some 1;
  msg_queue = some 7;
}

rtos_send-messages_example :
    waiting (λ w. w) (rtos_send list_kernel 3 6 200 rtos)
    ≡ send_spec (rtos_current list_kernel rtos) 3 6 200 (sent 0 3 5 100 ∷ [])
unfolding fresh_vm
rtos_send-messages_example =
    rtos_send-messages list_kernel 7 (λ w. w) list_kernel-IsFifo 3 6 200 rtos refl

rtos_receive-drops_example :
    (waiting (λ w. w) (rtos_receive list_kernel 0 rtos) ≡ (none, []))
    × (waiting (λ w. w) (rtos_receive_blocking list_kernel 0 50 rtos) ≡ (none, []))
unfolding fresh_vm rtos_current matches
rtos_receive-drops_example =
    rtos_receive-drops list_kernel 7 (λ w. w) list_kernel-IsFifo 0 50 rtos (sent 0 3 5 100) [] refl
      refl refl

-- A table in which slot 3 alone is free and has no handle; the kernel has no memory.
abbrev nearly_full : Rtos (List Message)
nearly_full = record rtos {
  vm = record (rtos.vm) {
    scheduler = record zero_scheduler {
      tasks = λ j. if 3 == j then zero_task else record zero_task { state = TaskState.ready };
      task_count = 7;
    };
  };
  task_handles = λ j. if 3 == j then none else some 1;
}

nearly_full-live :
    (j : ℕ) → j < 8 → j ≢ 3 → is_dead (nearly_full.vm.scheduler.tasks j).state ≡ false
unfolding fresh_vm
nearly_full-live j low other = rw (apart j other) refl
  where
    apart : (j : ℕ) → j ≢ 3 → (3 == j) ≡ false
    apart j h = ground arith

rtos_spawn-lost_slot_example :
    (s' : Rtos (List Message)) × (rtos_spawn list_kernel 0 5 0 0 nearly_full
      ≡ (v4_err Err.no_memory, s'))
    × (s'.task_handles ≡ nearly_full.task_handles)
    × (s'.vm.scheduler.task_count ≡ 7)
    × ((w : List Message) (word_idx' priority' ds_size' rs_size' : ℕ)
        → word_idx' < 1
        → rtos_spawn list_kernel word_idx' priority' ds_size' rs_size' (with_world s' w)
          ≡ (v4_err Err.task_limit, with_world s' w))
unfolding fresh_vm free_slot free_slot_from
rtos_spawn-lost_slot_example =
    rtos_spawn-lost_slot list_kernel nearly_full 0 5 0 0 3 (omega arith) refl nearly_full-live refl
