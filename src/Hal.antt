-- ===== src/Hal.antt =====
-- src/hal_wrapper.cpp: the engine's v4_hal_* functions over the hal_* functions of a hardware library, which is not in
-- the repository: it is the parameter `Hal`. `W` is the state of that library and the devices. An `int` or a `char` is
-- its bit pattern, a buffer a function of the index, and a null pointer `none`.
pub mod Handles
pub mod Calls
pub mod Ports
pub mod Errors
use v4_engine.Base.{
  ℕ, Bool, Option, none, some, leb, ◌==◌, ◌||◌, if◌then◌else◌, update, is_negative, minus, u8,
}

-- hal_uart_config_t
pub record UartConfig : Type 0 where
  pub baudrate : ℕ
  pub data_bits : ℕ
  pub stop_bits : ℕ
  pub parity : ℕ

-- The library's functions of include/v4/hal.h that the file calls. A call returns its `int` as `code`.
pub record Hal (W : Type 0) : Type 0 where
  pub gpio_mode : W → ℕ → ℕ → record { code : ℕ; world : W }
  pub gpio_write : W → ℕ → ℕ → record { code : ℕ; world : W }
  pub gpio_read : W → ℕ → record { code : ℕ; value : ℕ; world : W }
  pub uart_open : W → ℕ → UartConfig → record { handle : Option ℕ; world : W }
  pub uart_close : W → ℕ → record { code : ℕ; world : W }
  pub uart_write : W → ℕ → (ℕ → ℕ) → ℕ → record { code : ℕ; world : W }
  pub uart_read : W → ℕ → ℕ → record { code : ℕ; bytes : ℕ → ℕ; world : W }
  pub console_write : W → (ℕ → ℕ) → ℕ → record { code : ℕ; world : W }
  pub console_read : W → ℕ → record { code : ℕ; bytes : ℕ → ℕ; world : W }
  pub millis : W → ℕ
  pub micros : W → ℕ
  pub delay_ms : W → ℕ → W
  pub delay_us : W → ℕ → W
  pub deinit : W → W
  pub init : W → record { code : ℕ; world : W }

-- include/v4/hal_errors.def
pub data HalErr : Type 0 where
  no_error param busy timeout nodev nomem notsup io : HalErr

abbrev pub hal_err : HalErr → ℕ
hal_err HalErr.no_error = 0
hal_err HalErr.param = minus 1
hal_err HalErr.busy = minus 2
hal_err HalErr.timeout = minus 3
hal_err HalErr.nodev = minus 4
hal_err HalErr.nomem = minus 5
hal_err HalErr.notsup = minus 6
hal_err HalErr.io = minus 7

-- The switch of v4_hal_gpio_init, from v4_hal_gpio_mode to hal_gpio_mode_t.
unfoldable pub to_hal_mode : ℕ → Option ℕ
to_hal_mode mode =
    if mode == 0
    then some 0
    else if mode == 1
    then some 3
    else if mode == 2
    then some 1
    else if mode == 3
    then some 2
    else none

-- The library and the static table `uart_handles`.
pub record HalState (W : Type 0) : Type 0 where
  pub uart_handles : ℕ → Option ℕ
  pub world : W

-- The number of ports of the table.
abbrev pub uart_ports : ℕ
uart_ports = 4

-- 8N1
abbrev pub uart_config : ℕ → UartConfig
uart_config baudrate = record { baudrate = baudrate; data_bits = 8; stop_bits = 1; parity = 0 }

-- The handle of a port, if the port is in the table and open.
unfoldable pub open_handle : ℕ → (ℕ → Option ℕ) → Option ℕ
open_handle port handles = if is_negative port || leb uart_ports port then none else handles port

module _ {W : Type 0} (hal : Hal W) where
  abbrev pub after : HalState W → W → HalState W
  after s w = record s { world = w }

  unfoldable pub set_mode : ℕ → Option ℕ → HalState W → ℕ × HalState W
  set_mode pin none s = (hal_err HalErr.param, s)
  set_mode pin (some mode) s = let r = hal.gpio_mode s.world pin mode in (r.code, after s r.world)

  -- v4_hal_gpio_init
  unfoldable pub gpio_init : ℕ → ℕ → HalState W → ℕ × HalState W
  unfolding set_mode to_hal_mode
  gpio_init pin mode s = set_mode pin (to_hal_mode mode) s

  -- v4_hal_gpio_write
  unfoldable pub gpio_write : ℕ → ℕ → HalState W → ℕ × HalState W
  gpio_write pin value s =
      let r = hal.gpio_write s.world pin (if value == 0 then 0 else 1) in (r.code, after s r.world)

  -- v4_hal_gpio_read at a pointer that is not null: the code and what `*out_value` is given.
  unfoldable pub gpio_read : ℕ → HalState W → ℕ × Option ℕ × HalState W
  gpio_read pin s =
      let r = hal.gpio_read s.world pin in
      (r.code, if r.code == 0 then some (if r.value == 1 then 1 else 0) else none, after s r.world)

  -- The first part of v4_hal_uart_init: an open handle of the port is closed.
  unfoldable pub close_port : ℕ → Option ℕ → HalState W → HalState W
  close_port port none s = s
  close_port port (some handle) s = record {
    uart_handles = update s.uart_handles port none;
    world = (hal.uart_close s.world handle).world;
  }

  -- The last part: the port is opened, 8N1.
  unfoldable pub open_port : ℕ → ℕ → HalState W → ℕ × HalState W
  open_port port baudrate s =
      let r = hal.uart_open s.world port (uart_config baudrate) in
      (
        elim r.handle [ none ↦ hal_err HalErr.nodev | some handle ↦ hal_err HalErr.no_error ],
        record { uart_handles = update s.uart_handles port r.handle; world = r.world },
      )

  -- v4_hal_uart_init
  unfoldable pub uart_init : ℕ → ℕ → HalState W → ℕ × HalState W
  unfolding close_port open_port
  uart_init port baudrate s =
      if is_negative port || leb uart_ports port
      then (hal_err HalErr.param, s)
      else open_port port baudrate (close_port port (s.uart_handles port) s)

  -- `len` bytes written through a handle; the code tells whether all were.
  unfoldable pub write_all : Option ℕ → (ℕ → ℕ) → ℕ → HalState W → ℕ × HalState W
  write_all none buf len s = (hal_err HalErr.param, s)
  write_all (some handle) buf len s =
      let r = hal.uart_write s.world handle buf len in
      (if r.code == len then hal_err HalErr.no_error else hal_err HalErr.io, after s r.world)

  -- v4_hal_uart_putc
  unfoldable pub uart_putc : ℕ → ℕ → HalState W → ℕ × HalState W
  unfolding write_all open_handle
  uart_putc port c s = write_all (open_handle port s.uart_handles) (λ _. u8 c) 1 s

  -- v4_hal_uart_write at a pointer that is not null
  unfoldable pub uart_write : ℕ → (ℕ → ℕ) → ℕ → HalState W → ℕ × HalState W
  unfolding write_all open_handle
  uart_write port buf len s =
      if is_negative len
      then (hal_err HalErr.param, s)
      else write_all (open_handle port s.uart_handles) buf len s

  unfoldable pub read_one : Option ℕ → HalState W → ℕ × Option ℕ × HalState W
  read_one none s = (hal_err HalErr.param, none, s)
  read_one (some handle) s =
      let r = hal.uart_read s.world handle 1 in
      if r.code == 1
      then (hal_err HalErr.no_error, some (r.bytes 0), after s r.world)
      else (hal_err HalErr.io, none, after s r.world)

  -- v4_hal_uart_getc at a pointer that is not null: the code and what `*out_c` is given.
  unfoldable pub uart_getc : ℕ → HalState W → ℕ × Option ℕ × HalState W
  unfolding read_one open_handle
  uart_getc port s = read_one (open_handle port s.uart_handles) s

  unfoldable pub read_some : Option ℕ → ℕ → HalState W → ℕ × Option (ℕ × (ℕ → ℕ)) × HalState W
  read_some none max_len s = (hal_err HalErr.param, none, s)
  read_some (some handle) max_len s =
      let r = hal.uart_read s.world handle max_len in
      if is_negative r.code
      then (hal_err HalErr.io, none, after s r.world)
      else (hal_err HalErr.no_error, some (r.code, r.bytes), after s r.world)

  -- v4_hal_uart_read at pointers that are not null: the code, and what `*out_len` and the buffer are given.
  unfoldable pub uart_read : ℕ → ℕ → HalState W → ℕ × Option (ℕ × (ℕ → ℕ)) × HalState W
  unfolding read_some open_handle
  uart_read port max_len s =
      if is_negative max_len
      then (hal_err HalErr.param, none, s)
      else read_some (open_handle port s.uart_handles) max_len s

  -- v4_hal_millis
  unfoldable pub now_ms : HalState W → ℕ
  now_ms s = hal.millis s.world

  -- v4_hal_micros
  unfoldable pub now_us : HalState W → ℕ
  now_us s = hal.micros s.world

  -- v4_hal_delay_ms
  unfoldable pub wait_ms : ℕ → HalState W → HalState W
  wait_ms ms s = after s (hal.delay_ms s.world ms)

  -- v4_hal_delay_us
  unfoldable pub wait_us : ℕ → HalState W → HalState W
  wait_us us s = after s (hal.delay_us s.world us)

  -- v4_hal_putc
  unfoldable pub console_putc : ℕ → HalState W → ℕ × HalState W
  console_putc c s =
      let r = hal.console_write s.world (λ _. u8 c) 1 in
      (if r.code == 1 then hal_err HalErr.no_error else hal_err HalErr.io, after s r.world)

  -- v4_hal_getc at a pointer that is not null: the code and what `*out_c` is given.
  unfoldable pub console_getc : HalState W → ℕ × Option ℕ × HalState W
  console_getc s =
      let r = hal.console_read s.world 1 in
      if r.code == 1
      then (hal_err HalErr.no_error, some (r.bytes 0), after s r.world)
      else (hal_err HalErr.io, none, after s r.world)

  -- v4_hal_system_reset
  unfoldable pub system_reset : HalState W → HalState W
  system_reset s = after s (hal.init (hal.deinit s.world)).world
