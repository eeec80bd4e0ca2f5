-- ===== src/Hal/Errors.antt =====
-- The codes of the UART functions of src/hal_wrapper.cpp.
use v4_engine.Base.{
  ℕ, ◌≡◌, ◌≢◌, ◌≤◌, ◌<◌, arith, true, refl, ap, ◌∙◌, false, Option, none, some, leb, ◌||◌, u8,
  Bool-cases, ◌⊎◌, inl, inr, is_negative,
}
use v4_engine.Hal.{
  Hal, HalState, uart_config, uart_ports, close_port, open_port, uart_init, write_all, uart_putc,
  uart_write, read_one, uart_getc, read_some, uart_read, open_handle, hal_err, HalErr,
}
use v4_engine.Hal.Handles.{update-same}

module _ {W : Type 0} (hal : Hal W) where
  -- The functions that send and receive refuse the port: HAL_ERR_PARAM, no output, and the library and the table
  -- left as they were, whatever the bytes and lengths.
  abbrev pub Refuses : ℕ → HalState W → Type 0
  Refuses port s =
      ((c : ℕ) → uart_putc hal port c s ≡ (hal_err HalErr.param, s))
      × (uart_getc hal port s ≡ (hal_err HalErr.param, none, s))
      × ((buf : ℕ → ℕ) (len : ℕ) → uart_write hal port buf len s ≡ (hal_err HalErr.param, s))
      × ((n : ℕ) → uart_read hal port n s ≡ (hal_err HalErr.param, none, s))

  closed_port_refused :
      (port : ℕ) (s : HalState W) → open_handle port s.uart_handles ≡ none → Refuses port s
  unfolding uart_putc uart_getc uart_write uart_read write_all read_one read_some
  closed_port_refused port s e = (
    λ c. ap (λ o. write_all hal o (λ _. u8 c) 1 s) e,
    ap (λ o. read_one hal o s) e,
    λ buf len. sent buf len,
    λ n. received n,
  )
    where
      sent : (buf : ℕ → ℕ) (len : ℕ) → uart_write hal port buf len s ≡ (hal_err HalErr.param, s)
      sent buf len = elim (Bool-cases (is_negative len)) [
        | inl bad ↦ rw bad refl
        | inr good ↦ rw good (ap (λ o. write_all hal o buf len s) e)
      ]

      received : (n : ℕ) → uart_read hal port n s ≡ (hal_err HalErr.param, none, s)
      received n = elim (Bool-cases (is_negative n)) [
        | inl bad ↦ rw bad refl
        | inr good ↦ rw good (ap (λ o. read_some hal o n s) e)
      ]

  opens :
      (port baudrate : ℕ) (s : HalState W) (o : Option ℕ)
      → (hal.uart_open s.world port (uart_config baudrate)).handle ≡ o
      → ((open_port hal port baudrate s).1.uart_handles port ≡ o)
        × ((open_port hal port baudrate s).0
            ≡ elim o [ none ↦ hal_err HalErr.nodev | some handle ↦ hal_err HalErr.no_error ])
  unfolding open_port
  opens port baudrate s o e = (
    update-same s.uart_handles port _ ∙ e,
    ap (λ x. elim x [ none ↦ hal_err HalErr.nodev | some handle ↦ hal_err HalErr.no_error ]) e,
  )

  in_table : (port : ℕ) → (is_negative port || leb uart_ports port) ≡ false → port < 4
  in_table port h = ground arith

  off_table : (port : ℕ) → (is_negative port || leb uart_ports port) ≡ true → 4 ≤ port
  off_table port h = ground arith

  -- v4_hal_uart_init ends in one of three ways: HAL_OK at one of the ports 0 to 3, and the port's entry is a handle;
  -- HAL_ERR_NODEV at one of them, and the entry is empty, also if the port was open before; or HAL_ERR_PARAM at any
  -- other port, as a pattern of 32 bits a negative one too, and nothing changes.
  pub uart_init-open_handle :
      (port baudrate : ℕ) (s : HalState W)
      → (((uart_init hal port baudrate s).0 ≡ hal_err HalErr.no_error)
          × (port < 4)
          × ((h : ℕ) × ((uart_init hal port baudrate s).1.uart_handles port ≡ some h)))
        ⊎ ((((uart_init hal port baudrate s).0 ≡ hal_err HalErr.nodev)
              × (port < 4)
              × ((uart_init hal port baudrate s).1.uart_handles port ≡ none))
            ⊎ ((uart_init hal port baudrate s ≡ (hal_err HalErr.param, s)) × (4 ≤ port)))
  unfolding uart_init
  uart_init-open_handle port baudrate s =
      elim (Bool-cases (is_negative port || leb uart_ports port)) [
        | inl bad ↦ inr (inr (rw bad refl, off_table port bad))
        | inr good ↦ rw good (
            go (in_table port good) (hal.uart_open closed.world port (uart_config baudrate)).handle
              refl)
      ]
    where
      closed : HalState W
      closed = close_port hal port (s.uart_handles port) s

      go :
          port < 4
          → (o : Option ℕ) → (hal.uart_open closed.world port (uart_config baudrate)).handle ≡ o
          → (((open_port hal port baudrate closed).0 ≡ hal_err HalErr.no_error)
              × (port < 4)
              × ((h : ℕ) × ((open_port hal port baudrate closed).1.uart_handles port ≡ some h)))
            ⊎ ((((open_port hal port baudrate closed).0 ≡ hal_err HalErr.nodev)
                  × (port < 4)
                  × ((open_port hal port baudrate closed).1.uart_handles port ≡ none))
                ⊎ ((open_port hal port baudrate closed ≡ (hal_err HalErr.param, s)) × (4 ≤ port)))
      go low none e = let r = opens port baudrate closed none e in inr (inl (r.1, low, r.0))
      go low (some h) e = let r = opens port baudrate closed (some h) e in inl (r.1, low, (h, r.0))

  -- A port of no table entry, or whose entry is empty, has no handle.
  no_handle :
      (port : ℕ) (handles : ℕ → Option ℕ)
      → (4 ≤ port) ⊎ (handles port ≡ none)
      → open_handle port handles ≡ none
  unfolding open_handle
  no_handle port handles h = elim (Bool-cases (is_negative port || leb uart_ports port)) [
    | inl bad ↦ rw bad refl
    | inr good ↦ rw good (empty (in_table port good) h)
  ]
    where
      empty : port < 4 → (4 ≤ port) ⊎ (handles port ≡ none) → handles port ≡ none
      empty low (inl far) = absurd (omega arith)
      empty low (inr none_there) = none_there

  -- After v4_hal_uart_init returned anything but HAL_OK, at whatever port and whatever was open before, the functions
  -- that send and receive at that port return HAL_ERR_PARAM, give no output, and leave the library and the table
  -- as they were, whatever the bytes and lengths.
  pub uart_init-Refuses :
      (port baudrate : ℕ) (s : HalState W)
      → (uart_init hal port baudrate s).0 ≢ hal_err HalErr.no_error
      → Refuses port (uart_init hal port baudrate s).1
  uart_init-Refuses port baudrate s failed = elim (uart_init-open_handle port baudrate s) [
    | inl (done, low, handle) ↦ absurd (failed done)
    | inr (inl (nodev, low, empty)) ↦ closed_port_refused port _ (no_handle port _ (inr empty))
    | inr (inr (refused, far)) ↦ closed_port_refused port _ (no_handle port _ (inl far))
  ]
