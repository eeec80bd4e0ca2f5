-- ===== src/Alu.antt =====
-- src/core.cpp: the arithmetic, comparison and bitwise opcodes on 32-bit patterns. A signed sum, difference
-- or product wraps, as two's complement machines do; C++17 leaves an overflowing one undefined.
pub mod Division
pub mod Exact
use v4_engine.Base.{
  ℕ, ◌+◌, ◌-◌, ◌*◌, ◌/◌, ◌%◌, ◌^◌, Bool, true, false, ◌&&◌, not, bit_and, bit_or, bit_xor, ltb, leb,
  ◌==◌, if◌then◌else◌, u32, minus, is_negative, slt, magnitude, negate,
}
use v4_engine.Opcode.{Op}
use v4_engine.Err.{Err}

-- V4_TRUE and V4_FALSE
abbrev pub v4_bool : Bool → ℕ
v4_bool true = minus 1
v4_bool false = 0

-- A result, a panic, or the division INT_MIN / -1, which traps.
pub data Computed : Type 0 where
  value : ℕ → Computed
  panics : Err → Computed
  traps : Computed

-- INT_MIN / -1 and INT_MIN % -1 overflow.
abbrev pub overflows : ℕ → ℕ → Bool
overflows a b = a == 2 ^ 31 && b == minus 1

-- a / b and a % b as int32_t, rounding towards zero.
unfoldable pub sdiv : ℕ → ℕ → ℕ
sdiv a b =
    let q = magnitude a / magnitude b in
    if is_negative a
    then if is_negative b then q else negate q
    else if is_negative b
    then negate q
    else q

unfoldable pub smod : ℕ → ℕ → ℕ
smod a b = let r = magnitude a % magnitude b in if is_negative a then negate r else r

-- The inner switch of the binary opcodes; the other opcodes do not enter it and leave 0.
unfoldable pub binary : Op → ℕ → ℕ → Computed
unfolding sdiv smod
binary Op.add a b = value (u32 (a + b))
binary Op.sub a b = value (u32 (a + 2 ^ 32 - b))
binary Op.mul a b = value (u32 (a * b))
binary Op.div a b =
    if b == 0 then panics Err.div_by_zero else if overflows a b then traps else value (sdiv a b)
binary Op.modulo a b =
    if b == 0 then panics Err.div_by_zero else if overflows a b then traps else value (smod a b)
binary Op.divu a b = if b == 0 then panics Err.div_by_zero else value (a / b)
binary Op.modu a b = if b == 0 then panics Err.div_by_zero else value (a % b)
binary Op.eq a b = value (v4_bool (a == b))
binary Op.ne a b = value (v4_bool (not (a == b)))
binary Op.lt a b = value (v4_bool (slt a b))
binary Op.le a b = value (v4_bool (not (slt b a)))
binary Op.gt a b = value (v4_bool (slt b a))
binary Op.ge a b = value (v4_bool (not (slt a b)))
binary Op.ltu a b = value (v4_bool (ltb a b))
binary Op.leu a b = value (v4_bool (leb a b))
binary _ a b = value 0

-- AND, OR, XOR: `a` below `b`.
unfoldable pub bitwise : Op → ℕ → ℕ → ℕ
bitwise Op.and a b = bit_and a b
bitwise Op.or a b = bit_or a b
bitwise _ a b = bit_xor a b

-- ~a
unfoldable pub invert : ℕ → ℕ
invert a = 2 ^ 32 - 1 - a

-- val << (shift & 0x1F), (v4_u32)val >> …, and val >> … on the signed value
unfoldable pub shift_left : ℕ → ℕ → ℕ
shift_left val shift = u32 (val * 2 ^ bit_and shift 0x1f)

unfoldable pub shift_right : ℕ → ℕ → ℕ
shift_right val shift = val / 2 ^ bit_and shift 0x1f

unfoldable pub shift_arith : ℕ → ℕ → ℕ
shift_arith val shift =
    if is_negative val
    then 2 ^ 32 - 1 - (2 ^ 32 - 1 - val) / 2 ^ bit_and shift 0x1f
    else val / 2 ^ bit_and shift 0x1f
