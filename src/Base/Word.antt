-- ===== src/Base/Word.antt =====
-- Machine words. A C integer of w bits is its bit pattern, a number below 2 ^ w; a signed one is
-- read by its top bit.
use Prim.Native.Nat.{ℕ, ◌+◌, ◌-◌, ◌%◌, ◌^◌}
use mathlib.Core.Bool.{Bool}
use v4_engine.Base.Tests.{ltb, leb, if◌then◌else◌}

abbrev pub u8 : ℕ → ℕ
u8 n = n % 2 ^ 8

abbrev pub u16 : ℕ → ℕ
u16 n = n % 2 ^ 16

abbrev pub u32 : ℕ → ℕ
u32 n = n % 2 ^ 32

-- The pattern of the C integer -n, for 0 < n.
abbrev pub minus : ℕ → ℕ
minus n = 2 ^ 32 - n

abbrev pub is_negative : ℕ → Bool
is_negative w = leb (2 ^ 31) w

-- (int32_t)(int8_t)b and (int32_t)(int16_t)h.
abbrev pub sign_extend8 : ℕ → ℕ
sign_extend8 b = if ltb b (2 ^ 7) then b else b + (2 ^ 32 - 2 ^ 8)

abbrev pub sign_extend16 : ℕ → ℕ
sign_extend16 h = if ltb h (2 ^ 15) then h else h + (2 ^ 32 - 2 ^ 16)

-- a < b as int32_t: adding 2 ^ 31 turns the signed order into the unsigned one.
abbrev pub slt : ℕ → ℕ → Bool
slt a b = ltb (u32 (a + 2 ^ 31)) (u32 (b + 2 ^ 31))

-- Absolute value and negation of an int32_t.
abbrev pub magnitude : ℕ → ℕ
magnitude w = if is_negative w then 2 ^ 32 - w else w

abbrev pub negate : ℕ → ℕ
negate w = u32 (2 ^ 32 - w)
