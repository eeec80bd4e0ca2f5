-- ===== src/Bare.antt =====
-- bare-metal/riscv32: what main.c and main_simple.c send to the UART (uart.h), as the list of its bytes.
pub mod Digits
pub mod Print
pub mod Main
pub mod Runs
use Prim.Native.Char.{Char, code}
use Prim.Native.String.{String}
use v4_engine.Base.{
  ℕ, zero, suc, ◌+◌, ◌*◌, ◌/◌, ◌%◌, Option, none, some, List, [], ◌∷◌, ◌++◌, ◌==◌, ◌||◌,
  if◌then◌else◌, update, is_negative, minus,
}

-- The bytes of an ASCII text, which `uart_puts` sends.
abbrev pub codes : String → List ℕ
codes String.[] = []
codes (String.◌∷◌ c s) = code c ∷ codes s

-- The first loop of print_int at `i`, with `room` bytes of `buf` left; `none` is a store past its end.
unfoldable pub fill : ℕ → ℕ → ℕ → (ℕ → ℕ) → Option (ℕ × (ℕ → ℕ))
fill zero n i buf = if n == 0 || is_negative n then some (i, buf) else none
fill (suc room) n i buf =
    let rest = fill room (n / 10) (i + 1) (update buf i (48 + n % 10)) in
    if n == 0 || is_negative n then some (i, buf) else rest

-- The second loop: the first `i` bytes of `buf` in reverse.
unfoldable pub drain : (ℕ → ℕ) → ℕ → List ℕ
drain buf zero = []
drain buf (suc i) = buf i ∷ drain buf i

unfoldable pub drained : Option (ℕ × (ℕ → ℕ)) → Option (List ℕ)
unfolding drain
drained none = none
drained (some (i, buf)) = some (drain buf i)

-- What print_int sends of a number that is not 0, after the sign.
unfoldable pub digits : ℕ → Option (List ℕ)
unfolding fill drained
digits n = drained (fill 12 n 0 (λ _. 0))

unfoldable pub signed : Option (List ℕ) → Option (List ℕ)
signed none = none
signed (some text) = some (45 ∷ text)

-- print_int
unfoldable pub print_int : ℕ → Option (List ℕ)
print_int n =
    if n == 0 then some (48 ∷ []) else if is_negative n then signed (digits (minus n)) else digits n

infixr 5 ◌then◌
-- One text sent after another.
abbrev pub ◌then◌ : Option (List ℕ) → Option (List ℕ) → Option (List ℕ)
none then out = none
some text then none = none
some text then some out = some (text ++ out)

-- uart_puts
abbrev pub put : String → Option (List ℕ)
put text = some (codes text)

-- print_int of main_simple.c, the same code
abbrev simple_print_int : ℕ → Option (List ℕ)
simple_print_int n = print_int n

-- main of main_simple.c, which returns 0
unfoldable pub simple_main : Option (List ℕ)
unfolding print_int
simple_main =
    put "V4 Engine Bare-Metal Test\r\n"
    then put "=========================\r\n\r\n"
    then put "Phase 1: Basic UART output\r\n"
    then put "Hello from RISC-V bare-metal!\r\n\r\n"
    then put "Phase 2: Simple calculations\r\n"
    then put "10 + 32 = "
    then simple_print_int (10 + 32)
    then put "\r\n"
    then put "10 * 32 = "
    then simple_print_int (10 * 32)
    then put "\r\n\r\n"
    then put "Test completed successfully!\r\n"
