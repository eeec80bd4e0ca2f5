-- ===== src/Hal/Ports.antt =====
-- The calls of src/hal_wrapper.cpp against its table of handles.
use v4_engine.Base.{
  ℕ, ◌<◌, ◌≡◌, refl, ap, ◌∙◌, update, Bool, false, Option, none, some, List, [], ◌∷◌, leb, ◌||◌,
  ◌==◌, u8, if◌then◌else◌, Bool-cases, inl, inr, is_negative, arith,
}
use v4_engine.Hal.{
  Hal, HalState, uart_config, uart_ports, close_port, open_port, uart_init, system_reset, set_mode,
  to_hal_mode, gpio_init, gpio_write, gpio_read, write_all, uart_putc, uart_write, read_one,
  uart_getc, read_some, uart_read, console_putc, console_getc, wait_ms, wait_us, open_handle, after,
}
use v4_engine.Hal.Calls.{HalCall, NoReset, call, calls}
use v4_engine.Hal.Handles.{
  UartLaws, HoldsOpen, clear-HoldsOpen, same-HoldsOpen, enter-HoldsOpen, update-same, update-free,
}

in_table : (port : ℕ) → (is_negative port || leb uart_ports port) ≡ false → port < uart_ports
in_table port h = ground arith

module _ {W : Type 0} {hal : Hal W} {opened : W → ℕ → Bool} (laws : UartLaws hal opened) where
  open-HoldsOpen :
      (port baudrate : ℕ) (s : HalState W)
      → port < uart_ports
      → s.uart_handles port ≡ none
      → HoldsOpen opened s
      → HoldsOpen opened (open_port hal port baudrate s).1
  unfolding open_port
  open-HoldsOpen port baudrate s small free holds =
      go (hal.uart_open s.world port (uart_config baudrate)).handle refl
    where
      go :
          (o : Option ℕ)
          → (hal.uart_open s.world port (uart_config baudrate)).handle ≡ o
          → HoldsOpen opened (open_port hal port baudrate s).1
      go none e =
          same-HoldsOpen laws s (hal.uart_open s.world port (uart_config baudrate)).world
            (update s.uart_handles port (hal.uart_open s.world port (uart_config baudrate)).handle)
            (λ p.
              ap (λ x. update s.uart_handles port x p) e ∙ update-free s.uart_handles port free p)
            (laws.open_none s.world port (uart_config baudrate) e) holds
      go (some n) e = rw e (enter-HoldsOpen laws s port (uart_config baudrate) n small free e holds)

  closed-HoldsOpen :
      (port : ℕ) (s : HalState W) (o : Option ℕ)
      → s.uart_handles port ≡ o
      → port < uart_ports
      → HoldsOpen opened s
      → HoldsOpen opened (close_port hal port o s)
        × ((close_port hal port o s).uart_handles port ≡ none)
  unfolding close_port
  closed-HoldsOpen port s none e small holds = (holds, e)
  closed-HoldsOpen port s (some hd) e small holds =
      (clear-HoldsOpen laws s port hd small e holds, update-same s.uart_handles port none)

  init-HoldsOpen :
      (port baudrate : ℕ) (s : HalState W)
      → HoldsOpen opened s
      → HoldsOpen opened (uart_init hal port baudrate s).1
  unfolding uart_init
  init-HoldsOpen port baudrate s holds =
      elim (Bool-cases (is_negative port || leb uart_ports port)) [
        | inl bad ↦ rw bad holds
        | inr good ↦
            let closed =
              closed-HoldsOpen port s (s.uart_handles port) refl (in_table port good) holds in
            rw good (
              open-HoldsOpen port baudrate (close_port hal port (s.uart_handles port) s)
                (in_table port good) closed.1 closed.0)
      ]

  -- A call that leaves the table and the open handles as they were.
  after-HoldsOpen :
      (s : HalState W) (w : W)
      → ((k : ℕ) → opened w k ≡ opened s.world k)
      → HoldsOpen opened s
      → HoldsOpen opened (after hal s w)
  after-HoldsOpen s w quiet holds = same-HoldsOpen laws s w s.uart_handles (λ p. refl) quiet holds

  mode-HoldsOpen :
      (pin : ℕ) (o : Option ℕ) (s : HalState W)
      → HoldsOpen opened s
      → HoldsOpen opened (set_mode hal pin o s).1
  unfolding set_mode
  mode-HoldsOpen pin none s holds = holds
  mode-HoldsOpen pin (some m) s holds = after-HoldsOpen s _ (laws.mode s.world pin m) holds

  write-HoldsOpen :
      (o : Option ℕ) (buf : ℕ → ℕ) (len : ℕ) (s : HalState W)
      → HoldsOpen opened s
      → HoldsOpen opened (write_all hal o buf len s).1
  unfolding write_all
  write-HoldsOpen none buf len s holds = holds
  write-HoldsOpen (some h) buf len s holds =
      after-HoldsOpen s _ (laws.write s.world h buf len) holds

  one-HoldsOpen :
      (o : Option ℕ) (s : HalState W) → HoldsOpen opened s → HoldsOpen opened (read_one hal o s).2
  unfolding read_one
  one-HoldsOpen none s holds = holds
  one-HoldsOpen (some h) s holds = elim (Bool-cases ((hal.uart_read s.world h 1).code == 1)) [
    | inl got ↦ rw got (after-HoldsOpen s _ (laws.read s.world h 1) holds)
    | inr not ↦ rw not (after-HoldsOpen s _ (laws.read s.world h 1) holds)
  ]

  some-HoldsOpen :
      (o : Option ℕ) (n : ℕ) (s : HalState W)
      → HoldsOpen opened s
      → HoldsOpen opened (read_some hal o n s).2
  unfolding read_some
  some-HoldsOpen none n s holds = holds
  some-HoldsOpen (some h) n s holds =
      elim (Bool-cases (is_negative (hal.uart_read s.world h n).code)) [
        | inl bad ↦ rw bad (after-HoldsOpen s _ (laws.read s.world h n) holds)
        | inr got ↦ rw got (after-HoldsOpen s _ (laws.read s.world h n) holds)
      ]

  call-HoldsOpen :
      (c : HalCall) (s : HalState W)
      → NoReset (c ∷ [])
      → HoldsOpen opened s
      → HoldsOpen opened (call hal c s)
  unfolding call gpio_init gpio_write gpio_read uart_putc uart_getc uart_write uart_read
      console_putc console_getc wait_ms wait_us
  call-HoldsOpen (HalCall.pin_mode pin mode) s kept holds =
      mode-HoldsOpen pin (to_hal_mode mode) s holds
  call-HoldsOpen (HalCall.pin_write pin v) s kept holds =
      after-HoldsOpen s _ (laws.pin_write s.world pin (if v == 0 then 0 else 1)) holds
  call-HoldsOpen (HalCall.pin_read pin) s kept holds =
      after-HoldsOpen s _ (laws.pin_read s.world pin) holds
  call-HoldsOpen (HalCall.putc port c) s kept holds =
      write-HoldsOpen (open_handle port s.uart_handles) (λ _. u8 c) 1 s holds
  call-HoldsOpen (HalCall.getc port) s kept holds =
      one-HoldsOpen (open_handle port s.uart_handles) s holds
  call-HoldsOpen (HalCall.write port buf len) s kept holds = elim (Bool-cases (is_negative len)) [
    | inl bad ↦ rw (bad, call) holds
    | inr good ↦ rw (good, call) (write-HoldsOpen (open_handle port s.uart_handles) buf len s holds)
  ]
  call-HoldsOpen (HalCall.read port n) s kept holds = elim (Bool-cases (is_negative n)) [
    | inl bad ↦ rw (bad, call) holds
    | inr good ↦ rw (good, call) (some-HoldsOpen (open_handle port s.uart_handles) n s holds)
  ]
  call-HoldsOpen (HalCall.set_up port baudrate) s kept holds = init-HoldsOpen port baudrate s holds
  call-HoldsOpen (HalCall.print c) s kept holds =
      after-HoldsOpen s _ (laws.console_write s.world (λ _. u8 c) 1) holds
  call-HoldsOpen HalCall.scan s kept holds =
      elim (Bool-cases ((hal.console_read s.world 1).code == 1)) [
        | inl got ↦ rw (got, call) (after-HoldsOpen s _ (laws.console_read s.world 1) holds)
        | inr not ↦ rw (not, call) (after-HoldsOpen s _ (laws.console_read s.world 1) holds)
      ]
  call-HoldsOpen (HalCall.sleep_ms ms) s kept holds =
      after-HoldsOpen s _ (laws.delay_ms s.world ms) holds
  call-HoldsOpen (HalCall.sleep_us us) s kept holds =
      after-HoldsOpen s _ (laws.delay_us s.world us) holds
  call-HoldsOpen HalCall.reset s kept holds = absurd kept

  first : (c : HalCall) (cs : List HalCall) → NoReset (c ∷ cs) → NoReset (c ∷ []) × NoReset cs
  first (HalCall.pin_mode _ _) cs kept = (tt, kept)
  first (HalCall.pin_write _ _) cs kept = (tt, kept)
  first (HalCall.pin_read _) cs kept = (tt, kept)
  first (HalCall.putc _ _) cs kept = (tt, kept)
  first (HalCall.getc _) cs kept = (tt, kept)
  first (HalCall.write _ _ _) cs kept = (tt, kept)
  first (HalCall.read _ _) cs kept = (tt, kept)
  first (HalCall.set_up _ _) cs kept = (tt, kept)
  first (HalCall.print _) cs kept = (tt, kept)
  first HalCall.scan cs kept = (tt, kept)
  first (HalCall.sleep_ms _) cs kept = (tt, kept)
  first (HalCall.sleep_us _) cs kept = (tt, kept)
  first HalCall.reset cs kept = absurd kept

  -- With a library that keeps `UartLaws`, any calls, of which none is v4_hal_system_reset, from a state whose table
  -- holds exactly the open handles, one port each, reach such a state again: no handle is used after it is closed and
  -- none is lost, also when a port is set up again or an open fails.
  pub calls-HoldsOpen :
      (cs : List HalCall) (s : HalState W)
      → NoReset cs
      → HoldsOpen opened s
      → HoldsOpen opened (calls hal cs s)
  unfolding calls
  calls-HoldsOpen [] s kept holds = holds
  calls-HoldsOpen (c ∷ cs) s kept holds =
      let each = first c cs kept in
      calls-HoldsOpen cs (call hal c s) each.1 (call-HoldsOpen c s each.0 holds)

  -- After v4_hal_system_reset, each port that was open has its old handle in the table, and that handle is not open.
  pub system_reset-stale :
      (s : HalState W) (p h : ℕ)
      → s.uart_handles p ≡ some h
      → ((system_reset hal s).uart_handles p ≡ some h)
        × (opened (system_reset hal s).world h ≡ false)
  unfolding system_reset
  system_reset-stale s p h e = (e, laws.init (hal.deinit s.world) h ∙ laws.deinit s.world h)
