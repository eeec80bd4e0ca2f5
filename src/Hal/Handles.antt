-- ===== src/Hal/Handles.antt =====
-- The table of handles of src/hal_wrapper.cpp and the handles that the library holds open.
use mathlib.Core.Option.{none-ne-some, some_inj}
use v4_engine.Base.{
  ℕ, ◌<◌, ◌≡◌, ◌⊎◌, refl, sym, ap, ◌∙◌, Bool, true, false, Option, none, some, ◌==◌, if◌then◌else◌,
  update, Bool-cases, inl, inr, ==→eq, eq→==, ==_self,
}
use v4_engine.Hal.{Hal, HalState, UartConfig, uart_ports, close_port}

-- What include/v4/hal.h documents of handles, `opened` telling which are open in each state of the library: a handle
-- that an open returns was not open before and is then; a close ends it; hal_deinit releases all; each leaves the
-- other handles as they were, and the other functions open and close none.
pub record UartLaws {W : Type 0} (hal : Hal W) (opened : W → ℕ → Bool) : Type 0 where
  pub open_none :
      (w : W) (port : ℕ) (config : UartConfig)
      → (hal.uart_open w port config).handle ≡ none
      → (k : ℕ) → opened (hal.uart_open w port config).world k ≡ opened w k
  pub open_fresh :
      (w : W) (port : ℕ) (config : UartConfig) (h : ℕ)
      → (hal.uart_open w port config).handle ≡ some h
      → opened w h ≡ false
  pub open_some :
      (w : W) (port : ℕ) (config : UartConfig) (h : ℕ)
      → (hal.uart_open w port config).handle ≡ some h
      → (k : ℕ)
      → opened (hal.uart_open w port config).world k ≡ (if h == k then true else opened w k)
  pub close :
      (w : W) (h k : ℕ)
      → opened (hal.uart_close w h).world k ≡ (if h == k then false else opened w k)
  pub deinit : (w : W) (k : ℕ) → opened (hal.deinit w) k ≡ false
  pub init : (w : W) (k : ℕ) → opened (hal.init w).world k ≡ opened w k
  pub delay_ms : (w : W) (n k : ℕ) → opened (hal.delay_ms w n) k ≡ opened w k
  pub delay_us : (w : W) (n k : ℕ) → opened (hal.delay_us w n) k ≡ opened w k
  pub mode : (w : W) (pin m k : ℕ) → opened (hal.gpio_mode w pin m).world k ≡ opened w k
  pub pin_write : (w : W) (pin v k : ℕ) → opened (hal.gpio_write w pin v).world k ≡ opened w k
  pub pin_read : (w : W) (pin k : ℕ) → opened (hal.gpio_read w pin).world k ≡ opened w k
  pub write :
      (w : W) (h : ℕ) (buf : ℕ → ℕ) (n k : ℕ)
      → opened (hal.uart_write w h buf n).world k ≡ opened w k
  pub read : (w : W) (h n k : ℕ) → opened (hal.uart_read w h n).world k ≡ opened w k
  pub console_write :
      (w : W) (buf : ℕ → ℕ) (n k : ℕ) → opened (hal.console_write w buf n).world k ≡ opened w k
  pub console_read : (w : W) (n k : ℕ) → opened (hal.console_read w n).world k ≡ opened w k

-- The table holds the open handles: each entry is open, no two ports share one, and no open handle is lost.
pub record HoldsOpen {W : Type 0} (opened : W → ℕ → Bool) (s : HalState W) : Type 0 where
  pub entry_open : (p h : ℕ) → p < uart_ports → s.uart_handles p ≡ some h → opened s.world h ≡ true
  pub apart :
      (p q h : ℕ)
      → p < uart_ports
      → q < uart_ports
      → s.uart_handles p ≡ some h
      → s.uart_handles q ≡ some h
      → p ≡ q
  pub no_leak :
      (h : ℕ) → opened s.world h ≡ true → (p : ℕ) × (p < uart_ports) × (s.uart_handles p ≡ some h)

true_ne_false : {b : Bool} → b ≡ true → b ≡ false → ⊥
true_ne_false h e = cc

-- An entry of an updated table is the new one or an old one of another port.
update-some :
    (t : ℕ → Option ℕ) (port : ℕ) (o : Option ℕ) (p h : ℕ)
    → update t port o p ≡ some h
    → ((port ≡ p) × (o ≡ some h)) ⊎ (((port == p) ≡ false) × (t p ≡ some h))
update-some t port o p h e = elim (Bool-cases (port == p)) [
  | inl same ↦ inl (==→eq port p same, rw same at e)
  | inr other ↦ inr (other, rw other at e)
]

update-other : {A : Type 0} (t : ℕ → A) (i j : ℕ) (v : A) → (i == j) ≡ false → update t i v j ≡ t j
update-other t i j v e = rw e refl

pub update-same : {A : Type 0} (t : ℕ → A) (i : ℕ) (v : A) → update t i v i ≡ v
update-same t i v = rw (==_self i) refl

pub update-free : (t : ℕ → Option ℕ) (i : ℕ) → t i ≡ none → (j : ℕ) → update t i none j ≡ t j
update-free t i free j = elim (Bool-cases (i == j)) [
  | inl same ↦ rw same (sym free ∙ ap t (==→eq i j same))
  | inr other ↦ update-other t i j none other
]

-- After an entry is cleared, what is left is an old entry of another port.
cleared-some :
    (t : ℕ → Option ℕ) (port p h : ℕ)
    → update t port none p ≡ some h
    → ((port == p) ≡ false) × (t p ≡ some h)
cleared-some t port p h e = elim (update-some t port none p h e) [
  | inl both ↦ absurd (none-ne-some h both.1)
  | inr old ↦ old
]

if-true_else : (b c : Bool) → (if b then false else c) ≡ true → (b ≡ false) × (c ≡ true)
if-true_else true c h = absurd (true_ne_false h refl)
if-true_else false c h = (refl, h)

module _ {W : Type 0} {hal : Hal W} {opened : W → ℕ → Bool} (laws : UartLaws hal opened) where
  -- An open handle is closed together with its entry.
  pub clear-HoldsOpen :
      (s : HalState W) (port hd : ℕ)
      → port < uart_ports
      → s.uart_handles port ≡ some hd
      → HoldsOpen opened s
      → HoldsOpen opened (close_port hal port (some hd) s)
  unfolding close_port
  clear-HoldsOpen s port hd small here holds = record {
    entry_open = λ p k lt e.
        let old = cleared-some s.uart_handles port p k e in
        laws.close s.world hd k ∙ rw (differ p k lt old.0 old.1) (holds.entry_open p k lt old.1);
    apart = λ p q k lt lt' e e'.
        holds.apart p q k lt lt' (cleared-some s.uart_handles port p k e).1
          (cleared-some s.uart_handles port q k e').1;
    no_leak = λ k o.
        let was = if-true_else (hd == k) (opened s.world k) (sym (laws.close s.world hd k) ∙ o) in
        let at = holds.no_leak k was.1 in
        (
          at.0,
          at.1,
          update-other s.uart_handles port at.0 none (elsewhere at.0 k was.0 at.2) ∙ at.2,
        );
  }
    where
      differ :
          (p k : ℕ)
          → p < uart_ports
          → (port == p) ≡ false
          → s.uart_handles p ≡ some k
          → (hd == k) ≡ false
      differ p k lt other e = elim (Bool-cases (hd == k)) [
        | inl same ↦ absurd (
            true_ne_false
              (eq→== port p (holds.apart port p k small lt (here ∙ ap some (==→eq hd k same)) e))
              other)
        | inr d ↦ d
      ]

      elsewhere : (p k : ℕ) → (hd == k) ≡ false → s.uart_handles p ≡ some k → (port == p) ≡ false
      elsewhere p k d e = elim (Bool-cases (port == p)) [
        | inl same ↦ absurd (
            true_ne_false
              (eq→== hd k (some_inj.0 (sym here ∙ ap s.uart_handles (==→eq port p same) ∙ e))) d)
        | inr o ↦ o
      ]

  -- The old contents of a state whose entries and open handles are those of a state that holds the open ones.
  pub same-HoldsOpen :
      (s : HalState W) (w : W) (table : ℕ → Option ℕ)
      → ((p : ℕ) → table p ≡ s.uart_handles p)
      → ((k : ℕ) → opened w k ≡ opened s.world k)
      → HoldsOpen opened s
      → HoldsOpen opened record { uart_handles = table; world = w }
  same-HoldsOpen s w table tables worlds holds = record {
    entry_open = λ p k lt e. worlds k ∙ holds.entry_open p k lt (sym (tables p) ∙ e);
    apart =
        λ p q k lt lt' e e'. holds.apart p q k lt lt' (sym (tables p) ∙ e) (sym (tables q) ∙ e');
    no_leak =
        λ k o. let at = holds.no_leak k (sym (worlds k) ∙ o) in (at.0, at.1, tables at.0 ∙ at.2);
  }

  -- A new handle is entered at a port that had none.
  pub enter-HoldsOpen :
      (s : HalState W) (port : ℕ) (config : UartConfig) (n : ℕ)
      → port < uart_ports
      → s.uart_handles port ≡ none
      → (hal.uart_open s.world port config).handle ≡ some n
      → HoldsOpen opened s
      → HoldsOpen opened record {
        uart_handles = update s.uart_handles port (some n);
        world = (hal.uart_open s.world port config).world;
      }
  enter-HoldsOpen s port config n small free got holds = record {
    entry_open = λ p k lt e. laws.open_some s.world port config n got k ∙ entry p k lt e;
    apart = λ p q k lt lt' e e'. meet p q k lt lt' (found p k e) (found q k e');
    no_leak = λ k o. lost k (sym (laws.open_some s.world port config n got k) ∙ o);
  }
    where
      found :
          (p k : ℕ)
          → update s.uart_handles port (some n) p ≡ some k
          → ((port ≡ p) × (n ≡ k)) ⊎ (((port == p) ≡ false) × (s.uart_handles p ≡ some k))
      found p k e = elim (update-some s.uart_handles port (some n) p k e) [
        | inl new ↦ inl (new.0, some_inj.0 new.1)
        | inr old ↦ inr old
      ]

      fresh : (p : ℕ) → p < uart_ports → s.uart_handles p ≡ some n → ⊥
      fresh p lt e =
          true_ne_false (holds.entry_open p n lt e) (laws.open_fresh s.world port config n got)

      entry :
          (p k : ℕ)
          → p < uart_ports
          → update s.uart_handles port (some n) p ≡ some k
          → (if n == k then true else opened s.world k) ≡ true
      entry p k lt e = elim (Bool-cases (n == k)) [
        | inl same ↦ rw same refl
        | inr other ↦ rw other (elim (found p k e) [
          | inl new ↦ absurd (true_ne_false (eq→== n k new.1) other)
          | inr old ↦ holds.entry_open p k lt old.1
        ])
      ]

      meet :
          (p q k : ℕ)
          → p < uart_ports
          → q < uart_ports
          → ((port ≡ p) × (n ≡ k)) ⊎ (((port == p) ≡ false) × (s.uart_handles p ≡ some k))
          → ((port ≡ q) × (n ≡ k)) ⊎ (((port == q) ≡ false) × (s.uart_handles q ≡ some k))
          → p ≡ q
      meet p q k lt lt' (inl a) (inl b) = sym a.0 ∙ b.0
      meet p q k lt lt' (inl a) (inr b) = absurd (fresh q lt' (b.1 ∙ ap some (sym a.1)))
      meet p q k lt lt' (inr a) (inl b) = absurd (fresh p lt (a.1 ∙ ap some (sym b.1)))
      meet p q k lt lt' (inr a) (inr b) = holds.apart p q k lt lt' a.1 b.1

      elsewhere : (p k : ℕ) → s.uart_handles p ≡ some k → (port == p) ≡ false
      elsewhere p k e = elim (Bool-cases (port == p)) [
        | inl same ↦ absurd (none-ne-some k (sym free ∙ ap s.uart_handles (==→eq port p same) ∙ e))
        | inr o ↦ o
      ]

      lost :
          (k : ℕ)
          → (if n == k then true else opened s.world k) ≡ true
          → (p : ℕ) × (p < uart_ports) × (update s.uart_handles port (some n) p ≡ some k)
      lost k o = elim (Bool-cases (n == k)) [
        | inl same ↦
            (port, small, update-same s.uart_handles port (some n) ∙ ap some (==→eq n k same))
        | inr other ↦
            let at = holds.no_leak k (rw other at o) in
            (
              at.0,
              at.1,
              update-other s.uart_handles port at.0 (some n) (elsewhere at.0 k at.2) ∙ at.2,
            )
      ]
