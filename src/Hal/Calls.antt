-- ===== src/Hal/Calls.antt =====
-- A program's calls of src/hal_wrapper.cpp, one after another.
use v4_engine.Base.{ℕ, List, [], ◌∷◌}
use v4_engine.Hal.{
  Hal, HalState, gpio_init, gpio_write, gpio_read, uart_init, uart_putc, uart_getc, uart_write,
  uart_read, console_putc, console_getc, wait_ms, wait_us, system_reset,
}

-- The functions that may change a device or the table.
pub data HalCall : Type 0 where
  pin_mode : ℕ → ℕ → HalCall
  pin_write : ℕ → ℕ → HalCall
  pin_read : ℕ → HalCall
  putc : ℕ → ℕ → HalCall
  getc : ℕ → HalCall
  write : ℕ → (ℕ → ℕ) → ℕ → HalCall
  read : ℕ → ℕ → HalCall
  set_up : ℕ → ℕ → HalCall
  print : ℕ → HalCall
  scan : HalCall
  sleep_ms : ℕ → HalCall
  sleep_us : ℕ → HalCall
  reset : HalCall

-- No call is v4_hal_system_reset.
abbrev pub NoReset : List HalCall → Type 0
NoReset [] = Unit
NoReset (HalCall.reset ∷ cs) = ⊥
NoReset (_ ∷ cs) = NoReset cs

module _ {W : Type 0} (hal : Hal W) where
  -- The state after a call.
  unfoldable pub call : HalCall → HalState W → HalState W
  unfolding gpio_init gpio_write gpio_read uart_putc uart_getc uart_write uart_read uart_init
      console_putc console_getc wait_ms wait_us system_reset
  call (HalCall.pin_mode pin mode) s = (gpio_init hal pin mode s).1
  call (HalCall.pin_write pin v) s = (gpio_write hal pin v s).1
  call (HalCall.pin_read pin) s = (gpio_read hal pin s).2
  call (HalCall.putc port c) s = (uart_putc hal port c s).1
  call (HalCall.getc port) s = (uart_getc hal port s).2
  call (HalCall.write port buf len) s = (uart_write hal port buf len s).1
  call (HalCall.read port n) s = (uart_read hal port n s).2
  call (HalCall.set_up port baudrate) s = (uart_init hal port baudrate s).1
  call (HalCall.print c) s = (console_putc hal c s).1
  call HalCall.scan s = (console_getc hal s).2
  call (HalCall.sleep_ms ms) s = wait_ms hal ms s
  call (HalCall.sleep_us us) s = wait_us hal us s
  call HalCall.reset s = system_reset hal s

  unfoldable pub calls : List HalCall → HalState W → HalState W
  unfolding call
  calls [] s = s
  calls (c ∷ cs) s = calls cs (call c s)
