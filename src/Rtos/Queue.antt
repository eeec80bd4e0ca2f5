-- ===== src/Rtos/Queue.antt =====
-- src/task_backend_freertos.cpp: messages, over a kernel queue that keeps their order.
use v4_engine.Base.{
  ℕ, ◌≡◌, refl, ap, ◌∙◌, none, some, true, false, Bool, leb, ltb, ◌==◌, ◌&&◌, not, if◌then◌else◌,
  Bool-cases, inl, inr, List, [], ◌∷◌, length,
}
use v4_engine.Err.{Err, v4_err}
use v4_engine.Message.{matches}
use v4_engine.Message.Fifo.{sent, send_spec}
use v4_engine.Message.Window.{append_one}
use v4_engine.Rtos.{Kernel, Rtos, rtos_current}
use v4_engine.Rtos.Messages.{
  rtos_send, queue_message, accepted, receive_within, rtos_receive, rtos_receive_blocking,
}
use v4_engine.Vm.{Message, max_tasks, msg_queue_size, broadcast}

-- What FreeRTOS documents of a queue of 16 items, `contents` being the items that wait in each state of the kernel,
-- the oldest first: a send with no time to wait puts its item behind the others, and fails on a full queue; a receive
-- takes the oldest item, and with no time to wait fails on an empty queue.
pub record IsFifo {W : Type 0} (kernel : Kernel W) (queue : ℕ) (contents : W → List Message)
    : Type 0 where
  pub send_full :
      (w : W) (m : Message)
      → leb msg_queue_size (length (contents w)) ≡ true
      → ((kernel.queue_send w queue m 0).passed ≡ false)
        × (contents (kernel.queue_send w queue m 0).world ≡ contents w)
  pub send_room :
      (w : W) (m : Message)
      → leb msg_queue_size (length (contents w)) ≡ false
      → ((kernel.queue_send w queue m 0).passed ≡ true)
        × (contents (kernel.queue_send w queue m 0).world ≡ append_one (contents w) m)
  pub receive_none :
      (w : W)
      → contents w ≡ []
      → ((kernel.queue_receive w queue 0).taken ≡ none)
        × (contents (kernel.queue_receive w queue 0).world ≡ [])
  pub receive_some :
      (w : W) (m : Message) (ms : List Message) (ticks : ℕ)
      → contents w ≡ m ∷ ms
      → ((kernel.queue_receive w queue ticks).taken ≡ some m)
        × (contents (kernel.queue_receive w queue ticks).world ≡ ms)

-- A result and the messages that then wait.
abbrev pub waiting : {W A : Type 0} → (W → List Message) → A × Rtos W → A × List Message
waiting contents p = (p.0, contents p.1.vm.world)

module _ {W : Type 0} (kernel : Kernel W) (queue : ℕ) (contents : W → List Message)
    (fifo : IsFifo kernel queue contents) where
  waiting-if :
      {A : Type 0} (b : Bool) (x y : A × Rtos W)
      → waiting contents (if b then x else y)
        ≡ (if b then waiting contents x else waiting contents y)
  waiting-if true x y = refl
  waiting-if false x y = refl

  queue_message-messages :
      (m : Message) (s : Rtos W)
      → waiting contents (queue_message kernel (some queue) m s) ≡ (
          if leb msg_queue_size (length (contents s.vm.world))
          then (v4_err Err.msg_queue_full, contents s.vm.world)
          else (v4_err Err.no_error, append_one (contents s.vm.world) m))
  unfolding queue_message
  queue_message-messages m s =
      elim (Bool-cases (leb msg_queue_size (length (contents s.vm.world)))) [
        | inl full ↦
            let (passed, rest) = fifo.send_full s.vm.world m full in rw (full, passed, rest) refl
        | inr room ↦
            let (passed, rest) = fifo.send_room s.vm.world m room in rw (room, passed, rest) refl
      ]

  -- On a queue that was created, send answers and changes the list of waiting messages as the custom back end's send
  -- does: an invalid target and a full queue change nothing, and otherwise the message goes behind the others.
  pub rtos_send-messages :
      (dst_task msg_type value : ℕ) (s : Rtos W)
      → s.msg_queue ≡ some queue
      → waiting contents (rtos_send kernel dst_task msg_type value s)
        ≡ send_spec (rtos_current kernel s) dst_task msg_type value (contents s.vm.world)
  unfolding rtos_send
  rtos_send-messages dst_task msg_type value s open_queue = rw open_queue (
      waiting-if (leb max_tasks dst_task && not (dst_task == broadcast)) _ _
      ∙ ap
          (λ r.
            if leb max_tasks dst_task && not (dst_task == broadcast)
            then (v4_err Err.invalid_arg, contents s.vm.world)
            else r)
          (queue_message-messages (sent (rtos_current kernel s) dst_task msg_type value) s))

  -- If the oldest waiting message is not addressed to the current task, or not of the type asked for, then receive, which
  -- answers that there is none, has taken it from the queue and dropped it: its addressee never gets it. So does the
  -- blocking receive, whatever its timeout.
  pub rtos_receive-drops :
      (msg_type timeout_ms : ℕ) (s : Rtos W) (m : Message) (ms : List Message)
      → s.msg_queue ≡ some queue
      → contents s.vm.world ≡ m ∷ ms
      → matches (rtos_current kernel s) msg_type m ≡ false
      → (waiting contents (rtos_receive kernel msg_type s) ≡ (none, ms))
        × (waiting contents (rtos_receive_blocking kernel msg_type timeout_ms s) ≡ (none, ms))
  unfolding rtos_receive rtos_receive_blocking
  rtos_receive-drops msg_type timeout_ms s m ms open_queue oldest other = (
    dropped 0,
    dropped (if ltb 0 timeout_ms then kernel.ms_to_ticks timeout_ms else kernel.max_delay),
  )
    where
      dropped :
          (ticks : ℕ)
          → waiting contents (receive_within kernel s.msg_queue msg_type ticks s) ≡ (none, ms)
      dropped ticks =
          let (taken, rest) = fifo.receive_some s.vm.world m ms ticks oldest in
          rw (open_queue, receive_within, taken, accepted, other, rest) refl
