-- ===== src/Tests/Hal.antt =====
-- A library with one handle, 7, for src/hal_wrapper.cpp, and its calls at concrete ports.
use mathlib.Core.Option.{none-ne-some, some_inj}
use v4_engine.Base.{
  ℕ, ◌≡◌, ◌≢◌, ◌<◌, ◌≤◌, refl, sym, ap, Bool, true, false, Option, none, some, List, [], ◌∷◌, ◌==◌,
  ◌&&◌, ◌⊎◌, if◌then◌else◌, arith,
}
use v4_engine.Hal.{Hal, HalState, uart_init, hal_err, HalErr, system_reset, open_port, close_port}
use v4_engine.Hal.Handles.{UartLaws, HoldsOpen}
use v4_engine.Hal.Calls.{HalCall, calls}
use v4_engine.Hal.Ports.{calls-HoldsOpen, system_reset-stale}
use v4_engine.Hal.Errors.{Refuses, uart_init-Refuses, uart_init-open_handle}

-- What an open returns.
abbrev handle_for : Bool → Option ℕ
handle_for w = if w then none else some 7

-- Whether the handle is open.
abbrev one_handle : Hal Bool
one_handle = record {
  gpio_mode = λ w pin mode. record { code = 0; world = w };
  gpio_write = λ w pin v. record { code = 0; world = w };
  gpio_read = λ w pin. record { code = 0; value = 1; world = w };
  uart_open = λ w port config. record { handle = handle_for w; world = true };
  uart_close = λ w h. record { code = 0; world = if h == 7 then false else w };
  uart_write = λ w h buf n. record { code = n; world = w };
  uart_read = λ w h n. record { code = n; bytes = λ i. 65; world = w };
  console_write = λ w buf n. record { code = n; world = w };
  console_read = λ w n. record { code = n; bytes = λ i. 66; world = w };
  millis = λ w. 0;
  micros = λ w. 0;
  delay_ms = λ w n. w;
  delay_us = λ w n. w;
  deinit = λ w. false;
  init = λ w. record { code = 0; world = w };
}

abbrev is_opened : Bool → ℕ → Bool
is_opened w k = w && (7 == k)

seven : {h : ℕ} → handle_for false ≡ some h → (k : ℕ) → (h == k) ≡ (7 == k)
seven e k = ap (λ x. x == k) (sym (some_inj.0 e))

opens_none : (w : Bool) → handle_for w ≡ none → (k : ℕ) → is_opened true k ≡ is_opened w k
opens_none true e k = refl
opens_none false e k = absurd (none-ne-some 7 (sym e))

opens_fresh : (w : Bool) (h : ℕ) → handle_for w ≡ some h → is_opened w h ≡ false
opens_fresh true h e = absurd (none-ne-some h e)
opens_fresh false h e = refl

opens_some :
    (w : Bool) (h : ℕ)
    → handle_for w ≡ some h
    → (k : ℕ) → is_opened true k ≡ (if h == k then true else is_opened w k)
opens_some true h e k = absurd (none-ne-some h e)
opens_some false h e k = rw (seven e k) (both (7 == k))
  where
    both : (b : Bool) → b ≡ (if b then true else false)
    both true = refl
    both false = refl

closes :
    (w : Bool) (h k : ℕ)
    → is_opened (if h == 7 then false else w) k ≡ (if h == k then false else is_opened w k)
closes w h k = ground arith

one_handle-laws : UartLaws one_handle is_opened
one_handle-laws = record {
  open_none = λ w port config e k. opens_none w e k;
  open_fresh = λ w port config h e. opens_fresh w h e;
  open_some = λ w port config h e k. opens_some w h e k;
  close = closes;
  deinit = λ w k. refl;
  init = λ w k. refl;
  delay_ms = λ w n k. refl;
  delay_us = λ w n k. refl;
  mode = λ w pin m k. refl;
  pin_write = λ w pin v k. refl;
  pin_read = λ w pin k. refl;
  write = λ w h buf n k. refl;
  read = λ w h n k. refl;
  console_write = λ w buf n k. refl;
  console_read = λ w n k. refl;
}

-- No port is open.
abbrev all_closed : HalState Bool
all_closed = record { uart_handles = λ p. none; world = false }

all_closed-HoldsOpen : HoldsOpen is_opened all_closed
all_closed-HoldsOpen = record {
  entry_open = λ p h lt e. absurd (none-ne-some h e);
  apart = λ p q h lt lt' e e'. absurd (none-ne-some h e);
  no_leak = λ h o. absurd (ne o);
}
  where
    ne : false ≡ true → ⊥
    ne e = cc

-- Port 1 is set up twice, port 2 finds no handle, and bytes go out at both.
abbrev some_calls : List HalCall
some_calls =
    HalCall.set_up 1 9600
    ∷ HalCall.putc 1 65
    ∷ HalCall.set_up 1 115200
    ∷ HalCall.set_up 2 9600
    ∷ HalCall.putc 2 66
    ∷ []

calls-HoldsOpen_example : HoldsOpen is_opened (calls one_handle some_calls all_closed)
calls-HoldsOpen_example =
    calls-HoldsOpen one_handle-laws some_calls all_closed tt all_closed-HoldsOpen

abbrev one_open : HalState Bool
one_open = record { uart_handles = λ p. if p == 1 then some 7 else none; world = true }

system_reset-stale_example :
    ((system_reset one_handle one_open).uart_handles 1 ≡ some 7)
    × (is_opened (system_reset one_handle one_open).world 7 ≡ false)
system_reset-stale_example = system_reset-stale one_handle-laws one_open 1 7 refl

uart_init-open_handle_example :
    (((uart_init one_handle 1 9600 one_open).0 ≡ hal_err HalErr.no_error)
      × (1 < 4)
      × ((h : ℕ) × ((uart_init one_handle 1 9600 one_open).1.uart_handles 1 ≡ some h)))
    ⊎ ((((uart_init one_handle 1 9600 one_open).0 ≡ hal_err HalErr.nodev)
          × (1 < 4)
          × ((uart_init one_handle 1 9600 one_open).1.uart_handles 1 ≡ none))
        ⊎ ((uart_init one_handle 1 9600 one_open ≡ (hal_err HalErr.param, one_open)) × (4 ≤ 1)))
uart_init-open_handle_example = uart_init-open_handle one_handle 1 9600 one_open

-- Port 2 finds no handle, since port 1 has the only one.
no_device : (uart_init one_handle 2 9600 one_open).0 ≢ hal_err HalErr.no_error
unfolding uart_init open_port close_port
no_device e = absurd (omega arith)

uart_init-Refuses_example : Refuses one_handle 2 (uart_init one_handle 2 9600 one_open).1
uart_init-Refuses_example = uart_init-Refuses one_handle 2 9600 one_open no_device
