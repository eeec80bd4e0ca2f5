-- ===== src/Message/Fifo.antt =====
-- What send and receive of src/task_backend_custom.cpp do to the list of waiting messages.
use v4_engine.Base.{
  ℕ, zero, suc, ◌+◌, ◌-◌, ◌%◌, ◌≤◌, ◌<◌, ◌≡◌, refl, ap, ap₂, ◌∙◌, sym, Bool, true, false, Option,
  none, some, List, [], ◌∷◌, arith, leb, ◌==◌, ◌&&◌, not, if◌then◌else◌, update, length, inl, inr,
  Bool-cases,
}
use native.Mathlib.Numerals.{add-one}
use v4_engine.Err.{Err, v4_err}
use v4_engine.Message.{slot, shift_down, find_match, take_at, matches, send, receive}
use v4_engine.Message.Window.{
  window, messages, append_one, length-window, update-same, window-update, window-snoc,
  shift_down-before, window-shift_down,
}
use v4_engine.Vm.{Message, MsgQueue, msg_queue_size, max_tasks, broadcast}

-- The next message goes to the slot after the last one that waits.
pub record InStep (q : MsgQueue) : Type 0 where
  pub count_in : q.count ≤ msg_queue_size
  pub write_at : q.write_idx ≡ slot q.read_idx q.count

abbrev pub sent : ℕ → ℕ → ℕ → ℕ → Message
sent current dst_task msg_type value = record {
  src_task = current;
  dst_task = dst_task;
  msg_type = msg_type;
  flags = 0;
  payload = value;
}

-- A queue of at most 16 messages: the new one goes behind the others.
abbrev pub send_spec : ℕ → ℕ → ℕ → ℕ → List Message → ℕ × List Message
send_spec current dst_task msg_type value ms =
    if leb max_tasks dst_task && not (dst_task == broadcast)
    then (v4_err Err.invalid_arg, ms)
    else if leb msg_queue_size (length ms)
    then (v4_err Err.msg_queue_full, ms)
    else (v4_err Err.no_error, append_one ms (sent current dst_task msg_type value))

-- The first message that passes the test leaves the list, and the others keep their order.
abbrev pub take_first : (Message → Bool) → List Message → Option Message × List Message
take_first p [] = (none, [])
take_first p (m ∷ ms) = if p m then (some m, ms) else ((take_first p ms).0, m ∷ (take_first p ms).1)

-- The result and the messages that then wait.
abbrev pub seen : {A : Type 0} → A × MsgQueue → A × List Message
seen p = (p.0, messages p.1)

seen-if :
    {A : Type 0} (b : Bool) (x y : A × MsgQueue)
    → seen (if b then x else y) ≡ (if b then seen x else seen y)
seen-if true x y = refl
seen-if false x y = refl

enqueued :
    (q : MsgQueue) (m : Message)
    → InStep q
    → q.count < msg_queue_size
    → window (update q.queue q.write_idx m) q.read_idx 0 (q.count + 1) ≡ append_one (messages q) m
enqueued q m h room =
    ap (λ w. window (update q.queue w m) q.read_idx 0 (q.count + 1)) h.write_at
    ∙ ap (window written q.read_idx 0) (add-one q.count)
    ∙ window-snoc written q.read_idx 0 q.count
    ∙ ap₂ append_one
        (window-update q.queue q.read_idx q.count m 0 q.count (omega arith) room
          (λ k low high e. omega arith))
        (ap written (ap (slot q.read_idx) zero_left)
          ∙ update-same q.queue (slot q.read_idx q.count) m)
  where
    zero_left : 0 + q.count ≡ q.count
    zero_left = omega arith

    written : ℕ → Message
    written = update q.queue (slot q.read_idx q.count) m

-- On a queue whose write index follows the waiting messages, send answers and changes the list of waiting
-- messages as the specification says, on every branch: an invalid target and a full queue change
-- nothing, and otherwise the message goes behind the others.
pub send-messages :
    (current dst_task msg_type value : ℕ) (q : MsgQueue)
    → InStep q
    → seen (send current dst_task msg_type value q)
      ≡ send_spec current dst_task msg_type value (messages q)
unfolding send
send-messages current dst_task msg_type value q h =
    seen-if (leb max_tasks dst_task && not (dst_task == broadcast)) _ _
    ∙ ap
        (λ r.
          if leb max_tasks dst_task && not (dst_task == broadcast)
          then (v4_err Err.invalid_arg, messages q)
          else r)
        (rw (length-window q.queue q.read_idx 0 q.count)
          (elim (Bool-cases (leb msg_queue_size q.count)) [
            | inl full ↦ rw full refl
            | inr room ↦ rw room (
                ap (λ l. (v4_err Err.no_error, l))
                  (enqueued q (sent current dst_task msg_type value) h (ground arith)))
          ]))

-- Send keeps the write index behind the waiting messages.
send-InStep :
    (current dst_task msg_type value : ℕ) (q : MsgQueue)
    → InStep q
    → InStep (send current dst_task msg_type value q).1
unfolding send
send-InStep current dst_task msg_type value q h =
    elim (Bool-cases (leb max_tasks dst_task && not (dst_task == broadcast))) [
      | inl bad ↦ rw bad h
      | inr good ↦ elim (Bool-cases (leb msg_queue_size q.count)) [
        | inl full ↦ rw (good, full) h
        | inr room ↦ rw (good, room) (record { count_in = ground arith; write_at = moved })
      ]
    ]
  where
    moved : (q.write_idx + 1) % msg_queue_size ≡ slot q.read_idx (q.count + 1)
    moved = rw h.write_at (omega arith)

suc_pred : (n : ℕ) → suc n - 1 ≡ n
suc_pred n = omega arith

-- What the search at offset `i` has found among `n` messages, and what closing its slot does to them.
abbrev pub FindsIn : (Message → Bool) → (ℕ → Message) → ℕ → ℕ → ℕ → Option ℕ → Type 0
FindsIn p queue r n i none = take_first p (window queue r i n) ≡ (none, window queue r i n)
FindsIn p queue r n i (some k) =
    (i ≤ k)
    × (k < i + n)
    × (take_first p (window queue r i n)
        ≡ (some (queue (slot r k)), window (shift_down r (i + n - 1 - k) k queue) r i (n - 1)))

FindsIn-later :
    (p : Message → Bool) (queue : ℕ → Message) (r n i : ℕ) (o : Option ℕ)
    → i + suc n ≤ msg_queue_size
    → p (queue (slot r i)) ≡ false
    → FindsIn p queue r n (i + 1) o
    → FindsIn p queue r (suc n) i o
FindsIn-later p queue r n i none fits miss h = rw (miss, h) refl
FindsIn-later p queue r zero i (some k) fits miss (low, high, e) = absurd (omega arith)
FindsIn-later p queue r (suc n) i (some k) fits miss (low, high, e) = (
  omega arith,
  omega arith,
  rw (miss, e, rounds_later, suc_pred n, suc_pred (suc n))
      (ap
        (λ x. (
          some (queue (slot r k)),
          x ∷ window (shift_down r (i + 1 + suc n - 1 - k) k queue) r (i + 1) n,
        ))
        (sym (shift_down-before r _ k queue i (omega arith) (omega arith)))),
)
  where
    rounds_later : i + suc (suc n) - 1 - k ≡ i + 1 + suc n - 1 - k
    rounds_later = omega arith

FindsIn-here :
    (p : Message → Bool) (queue : ℕ → Message) (r n i : ℕ)
    → i + suc n ≤ msg_queue_size
    → p (queue (slot r i)) ≡ true
    → FindsIn p queue r (suc n) i (some i)
FindsIn-here p queue r n i fits hit = (
  omega arith,
  omega arith,
  rw (hit, rounds, suc_pred n)
      (ap (λ l. (some (queue (slot r i)), l)) (sym (window-shift_down r n i queue (omega arith)))),
)
  where
    rounds : i + suc n - 1 - i ≡ n
    rounds = omega arith

pub find_match-FindsIn :
    (current msg_type : ℕ) (queue : ℕ → Message) (r n i : ℕ)
    → i + n ≤ msg_queue_size
    → FindsIn (matches current msg_type) queue r n i (find_match current msg_type queue r n i)
unfolding find_match
find_match-FindsIn current msg_type queue r zero i fits = refl
find_match-FindsIn current msg_type queue r (suc n) i fits =
    elim (Bool-cases (matches current msg_type (queue (slot r i)))) [
      | inl hit ↦
          rw (hit, find_match) (FindsIn-here (matches current msg_type) queue r n i fits hit)
      | inr miss ↦ rw miss (
          FindsIn-later (matches current msg_type) queue r n i _ fits miss
            (find_match-FindsIn current msg_type queue r n (i + 1) (omega arith)))
    ]

take_at-messages :
    (p : Message → Bool) (o : Option ℕ) (q : MsgQueue)
    → FindsIn p q.queue q.read_idx q.count 0 o
    → seen (take_at o q) ≡ take_first p (messages q)
unfolding take_at
take_at-messages p none q h = sym h
take_at-messages p (some i) q (low, high, e) =
    ap
      (λ n. (
        some (q.queue (slot q.read_idx i)),
        window (shift_down q.read_idx n i q.queue) q.read_idx 0 (q.count - 1),
      ))
      rounds
    ∙ sym e
  where
    rounds : q.count - 1 - i ≡ 0 + q.count - 1 - i
    rounds = omega arith

-- On a queue of at most 16 messages, receive takes the first waiting message that is addressed to the
-- task, or to all, and has the type asked for, and leaves the others waiting in their order; with no
-- such message it changes nothing.
pub receive-messages :
    (current msg_type : ℕ) (q : MsgQueue)
    → q.count ≤ msg_queue_size
    → seen (receive current msg_type q) ≡ take_first (matches current msg_type) (messages q)
unfolding receive
receive-messages current msg_type q h =
    take_at-messages _ _ q
      (find_match-FindsIn current msg_type q.queue q.read_idx q.count 0 (omega arith))
