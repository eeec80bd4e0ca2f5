-- ===== src/Message/Stale.antt =====
-- A send after a receive on the queue of src/task_backend_custom.cpp, whose receive moves messages but no index.
use v4_engine.Base.{
  ℕ, ◌+◌, ◌-◌, ◌≤◌, ◌<◌, ◌≡◌, ap, ap₂, ◌∙◌, Bool, false, Option, none, some, arith, leb, ◌==◌, ◌&&◌,
  not, update, subst,
}
use mathlib.Core.Option.{none-ne-some}
use native.Mathlib.Numerals.{add-one}
use v4_engine.Err.{Err, v4_err}
use v4_engine.Message.{slot, shift_down, take_at, send, receive}
use v4_engine.Message.Fifo.{InStep, FindsIn, find_match-FindsIn, seen}
use v4_engine.Message.Window.{
  window, messages, append_one, update-slot, window-update, window-snoc, shift_down-last,
}
use v4_engine.Vm.{Message, MsgQueue, msg_queue_size, max_tasks, broadcast}

-- The list after a write to the slot of offset `c`, when the offsets up to `c - 2` wait.
written_behind :
    (queue : ℕ → Message) (r c : ℕ) (m : Message)
    → 0 < c
    → c < msg_queue_size
    → window (update queue (slot r c) m) r 0 (c - 1 + 1)
      ≡ append_one (window queue r 0 (c - 1)) (queue (slot r (c - 1)))
written_behind queue r c m some_wait room =
    ap (window (update queue (slot r c) m) r 0) (add-one (c - 1))
    ∙ window-snoc (update queue (slot r c) m) r 0 (c - 1)
    ∙ ap₂ append_one
        (window-update queue r c m 0 (c - 1) (omega arith) room (λ k low high e. omega arith))
        (ap (λ k. update queue (slot r c) m (slot r k)) zero_left
          ∙ update-slot queue r (c - 1) c m (omega arith) room (λ e. omega arith))
  where
    zero_left : 0 + (c - 1) ≡ c - 1
    zero_left = omega arith

still_there :
    (r c k : ℕ) (queue : ℕ → Message)
    → k < c
    → c ≤ msg_queue_size
    → shift_down r (c - 1 - k) k queue (slot r (c - 1)) ≡ queue (slot r (c - 1))
still_there r c k queue h room =
    subst (λ p. shift_down r (c - 1 - k) k queue (slot r p) ≡ queue (slot r p)) ends
      (shift_down-last r (c - 1 - k) k queue (omega arith))
  where
    ends : k + (c - 1 - k) ≡ c - 1
    ends = omega arith

send-take_at_stale :
    (src dst_task sent_type value : ℕ) (q : MsgQueue) (m : Message) (p : Message → Bool)
    (o : Option ℕ)
    → InStep q
    → q.count < msg_queue_size
    → (leb max_tasks dst_task && not (dst_task == broadcast)) ≡ false
    → FindsIn p q.queue q.read_idx q.count 0 o
    → (take_at o q).0 ≡ some m
    → seen (send src dst_task sent_type value (take_at o q).1) ≡ (
      v4_err Err.no_error,
      append_one (messages (take_at o q).1) (q.queue (slot q.read_idx (q.count - 1))),
    )
unfolding send take_at
send-take_at_stale src dst_task sent_type value q m p none h room target found got =
    absurd (none-ne-some _ got)
send-take_at_stale src dst_task sent_type value q m p (some k) h room target (low, high, _) got =
    rw (target, not_full, h.write_at)
      (ap (λ l. (v4_err Err.no_error, l))
        (written_behind queue q.read_idx q.count _ (omega arith) room
          ∙ ap (append_one (window queue q.read_idx 0 (q.count - 1)))
              (still_there q.read_idx q.count k q.queue (omega arith) (omega arith))))
  where
    queue : ℕ → Message
    queue = shift_down q.read_idx (q.count - 1 - k) k q.queue

    not_full : leb msg_queue_size (q.count - 1) ≡ false
    not_full = ground arith

-- Once receive has taken a message from a queue with room, the next send to a valid target answers that it
-- succeeded but loses its message: behind the messages that wait there now stands, a second time, the
-- message that was last before the receive.
pub send-receive_stale :
    (current msg_type src dst_task sent_type value : ℕ) (q : MsgQueue) (m : Message)
    → InStep q
    → q.count < msg_queue_size
    → (leb max_tasks dst_task && not (dst_task == broadcast)) ≡ false
    → (receive current msg_type q).0 ≡ some m
    → seen (send src dst_task sent_type value (receive current msg_type q).1) ≡ (
      v4_err Err.no_error,
      append_one
          (messages (receive current msg_type q).1)
          (q.queue (slot q.read_idx (q.count - 1))),
    )
unfolding receive
send-receive_stale current msg_type src dst_task sent_type value q m h room target got =
    send-take_at_stale src dst_task sent_type value q m _ _ h room target
      (find_match-FindsIn current msg_type q.queue q.read_idx q.count 0 (omega arith)) got
