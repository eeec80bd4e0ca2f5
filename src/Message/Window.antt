-- ===== src/Message/Window.antt =====
-- The message queue of src/task_backend_custom.cpp as the list of the messages that wait in it.
use v4_engine.Base.{
  ℕ, zero, suc, ◌+◌, ◌≤◌, ◌<◌, ◌≡◌, refl, ap, ap₂, ◌∙◌, sym, List, [], ◌∷◌, arith, ◌==◌, update,
  length, inl, inr, Bool-cases, ==→eq, eq→==, ◌≢◌,
}
use v4_engine.Message.{slot, shift_down}
use v4_engine.Vm.{Message, MsgQueue, msg_queue_size}

-- `n` messages from offset `i` on, the oldest first.
abbrev pub window : (ℕ → Message) → ℕ → ℕ → ℕ → List Message
window queue read_idx i zero = []
window queue read_idx i (suc n) = queue (slot read_idx i) ∷ window queue read_idx (i + 1) n

abbrev pub messages : MsgQueue → List Message
messages q = window q.queue q.read_idx 0 q.count

abbrev pub append_one : List Message → Message → List Message
append_one [] m = m ∷ []
append_one (x ∷ xs) m = x ∷ append_one xs m

pub length-window : (queue : ℕ → Message) (r i n : ℕ) → length (window queue r i n) ≡ n
length-window queue r i zero = refl
length-window queue r i (suc n) = ap suc (length-window queue r (i + 1) n)

pub slot_inj : (r i j : ℕ) → i < msg_queue_size → j < msg_queue_size → slot r i ≡ slot r j → i ≡ j
slot_inj r i j hi hj e = omega arith

-- A write to a slot shows at no other slot.
pub update-slot :
    (queue : ℕ → Message) (r i j : ℕ) (m : Message)
    → i < msg_queue_size
    → j < msg_queue_size
    → i ≢ j
    → update queue (slot r j) m (slot r i) ≡ queue (slot r i)
update-slot queue r i j m hi hj ne = elim (Bool-cases (slot r j == slot r i)) [
  | inl e ↦ absurd (ne (slot_inj r i j hi hj (sym (==→eq _ _ e))))
  | inr e ↦ rw e refl
]

pub update-same : (queue : ℕ → Message) (p : ℕ) (m : Message) → update queue p m p ≡ m
update-same queue p m = rw (eq→== p p refl) refl

-- A write outside a window does not show in it.
pub window-update :
    (queue : ℕ → Message) (r j : ℕ) (m : Message) (i n : ℕ)
    → i + n ≤ msg_queue_size
    → j < msg_queue_size
    → ((k : ℕ) → i ≤ k → k < i + n → k ≢ j)
    → window (update queue (slot r j) m) r i n ≡ window queue r i n
window-update queue r j m i zero h hj away = refl
window-update queue r j m i (suc n) h hj away =
    ap₂ ◌∷◌ (update-slot queue r i j m (omega arith) hj (away i (omega arith) (omega arith))) (
      window-update queue r j m (i + 1) n (omega arith) hj
        (λ k low high. away k (omega arith) (omega arith)))

suc_right : (i n : ℕ) → i + suc n ≡ i + 1 + n
suc_right i n = omega arith

pub window-snoc :
    (queue : ℕ → Message) (r i n : ℕ)
    → window queue r i (suc n) ≡ append_one (window queue r i n) (queue (slot r (i + n)))
window-snoc queue r i zero = ap (λ k. queue (slot r k) ∷ []) (omega arith)
window-snoc queue r i (suc n) = ap (◌∷◌ (queue (slot r i))) (
    window-snoc queue r (i + 1) n
    ∙ ap (λ k. append_one (window queue r (i + 1) n) (queue (slot r k))) (sym (suc_right i n)))

-- The shift leaves the slots before its first offset alone.
pub shift_down-before :
    (r n j : ℕ) (queue : ℕ → Message) (i : ℕ)
    → i < j
    → j + n ≤ msg_queue_size
    → shift_down r n j queue (slot r i) ≡ queue (slot r i)
unfolding shift_down
shift_down-before r zero j queue i h fits = refl
shift_down-before r (suc n) j queue i h fits =
    shift_down-before r n (j + 1) _ i (omega arith) (omega arith)
    ∙ update-slot queue r i j _ (omega arith) (omega arith) (λ e. omega arith)

-- The shift moves the messages after its first offset down by one.
pub window-shift_down :
    (r n j : ℕ) (queue : ℕ → Message)
    → j + n < msg_queue_size
    → window (shift_down r n j queue) r j n ≡ window queue r (j + 1) n
unfolding shift_down
window-shift_down r zero j queue fits = refl
window-shift_down r (suc n) j queue fits =
    ap₂ ◌∷◌
      (shift_down-before r n (j + 1) _ j (omega arith) (omega arith)
        ∙ update-same queue (slot r j) _)
      (window-shift_down r n (j + 1) _ (omega arith)
        ∙ window-update queue r j _ (j + 1 + 1) n (omega arith) (omega arith)
            (λ k low high e. omega arith))

-- The last message of the window is still in its slot after the shift.
pub shift_down-last :
    (r n j : ℕ) (queue : ℕ → Message)
    → j + n < msg_queue_size
    → shift_down r n j queue (slot r (j + n)) ≡ queue (slot r (j + n))
unfolding shift_down
shift_down-last r zero j queue fits = refl
shift_down-last r (suc n) j queue fits =
    ap (λ k. shift_down r (suc n) j queue (slot r k)) (suc_right j n)
    ∙ shift_down-last r n (j + 1) _ (omega arith)
    ∙ update-slot queue r (j + 1 + n) j _ (omega arith) (omega arith) (λ e. omega arith)
    ∙ ap (λ k. queue (slot r k)) (sym (suc_right j n))
