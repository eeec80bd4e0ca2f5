-- ===== src/Rtos/Messages.antt =====
-- src/task_backend_freertos.cpp: messages, which pass through one queue of the kernel.
use v4_engine.Base.{ℕ, Option, none, some, ltb, leb, ◌==◌, ◌&&◌, not, if◌then◌else◌}
use v4_engine.Err.{Err, v4_err}
use v4_engine.Message.{matches}
use v4_engine.Rtos.{Kernel, Rtos, with_world, rtos_current}
use v4_engine.Vm.{Message, max_tasks, broadcast}

module _ {W : Type 0} (kernel : Kernel W) where
  abbrev new_message : ℕ → ℕ → ℕ → Rtos W → Message
  new_message dst_task msg_type value s = record {
    src_task = rtos_current kernel s;
    dst_task = dst_task;
    msg_type = msg_type;
    flags = 0;
    payload = value;
  }

  -- The last part of v4_backend_task_send: the code and what is left.
  unfoldable pub queue_message : Option ℕ → Message → Rtos W → ℕ × Rtos W
  queue_message none m s = (v4_err Err.invalid_arg, s)
  queue_message (some queue) m s =
      let r = kernel.queue_send s.vm.world queue m 0 in
      (if r.passed then v4_err Err.no_error else v4_err Err.msg_queue_full, with_world s r.world)

  -- v4_backend_task_send
  unfoldable pub rtos_send : ℕ → ℕ → ℕ → Rtos W → ℕ × Rtos W
  unfolding queue_message rtos_current
  rtos_send dst_task msg_type value s =
      if leb max_tasks dst_task && not (dst_task == broadcast)
      then (v4_err Err.invalid_arg, s)
      else queue_message s.msg_queue (new_message dst_task msg_type value s) s

  -- A message that was taken from the queue is handed over only if it matches.
  unfoldable pub accepted : ℕ → ℕ → Option Message → Option Message
  unfolding matches
  accepted current msg_type none = none
  accepted current msg_type (some m) = if matches current msg_type m then some m else none

  -- Both receives: the message, with `none` for the result 0, and what is left.
  unfoldable pub receive_within : Option ℕ → ℕ → ℕ → Rtos W → Option Message × Rtos W
  unfolding accepted rtos_current
  receive_within none msg_type ticks s = (none, s)
  receive_within (some queue) msg_type ticks s =
      let r = kernel.queue_receive s.vm.world queue ticks in
      (accepted (rtos_current kernel s) msg_type r.taken, with_world s r.world)

  -- v4_backend_task_receive
  unfoldable pub rtos_receive : ℕ → Rtos W → Option Message × Rtos W
  unfolding receive_within
  rtos_receive msg_type s = receive_within s.msg_queue msg_type 0 s

  -- v4_backend_task_receive_blocking
  unfoldable pub rtos_receive_blocking : ℕ → ℕ → Rtos W → Option Message × Rtos W
  unfolding receive_within
  rtos_receive_blocking msg_type timeout_ms s =
      receive_within s.msg_queue msg_type
        (if ltb 0 timeout_ms then kernel.ms_to_ticks timeout_ms else kernel.max_delay) s
