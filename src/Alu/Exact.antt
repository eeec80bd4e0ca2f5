-- ===== src/Alu/Exact.antt =====
-- The binary opcodes of vm_exec_raw in src/core.cpp and what they mean on 32-bit patterns.
use Prim.Native.Nat.{min}
use v4_engine.Alu.{
  Computed, value, panics, traps, binary, sdiv, smod, v4_bool, shift_left, shift_right, shift_arith,
}
use v4_engine.Arena.Mask.{two_power, bit_and-parts}
use v4_engine.Base.{
  ℕ, zero, suc, ◌+◌, ◌-◌, ◌*◌, ◌/◌, ◌%◌, ◌^◌, ◌<◌, ◌≡◌, refl, ap, ◌∙◌, Bool, true, false, not, ◌&&◌,
  arith, ltb, leb, ◌==◌, if◌then◌else◌, is_negative, magnitude, negate, bit_and, bit_or, bit_xor,
  slt, u32,
}
use v4_engine.Err.{Err}
use v4_engine.Opcode.{Op}

-- All 32 bits set, or none.
abbrev pub flag : Bool → ℕ
flag b = if b then 4294967295 else 0

-- The order of int32_t: a negative number is below any other, and patterns of one sign stand in their own order.
abbrev pub below : ℕ → ℕ → Bool
below a b =
    if is_negative a
    then if is_negative b then ltb a b else true
    else if is_negative b
    then false
    else ltb a b

-- The quotient is negative if the signs differ.
abbrev pub signs_differ : ℕ → ℕ → Bool
signs_differ a b = if is_negative a then not (is_negative b) else is_negative b

abbrev pub unless_zero : ℕ → Computed → Computed
unless_zero b c = if b == 0 then panics Err.div_by_zero else c

-- INT_MIN by -1 is left to the host.
abbrev pub unless_overflow : ℕ → ℕ → Computed → Computed
unless_overflow a b c = if a == 2147483648 && b == 4294967295 then traps else c

-- The result of an opcode at the operands `a`, below, and `b`; the opcodes without two operands and a result give 0.
abbrev pub exact : Op → ℕ → ℕ → Computed
exact Op.add a b = value (if ltb (a + b) (2 ^ 32) then a + b else a + b - 2 ^ 32)
exact Op.sub a b = value (if leb b a then a - b else a + 2 ^ 32 - b)
exact Op.mul a b = value ((a * b) % 2 ^ 32)
exact Op.div a b =
    let q = magnitude a / magnitude b in
    unless_zero b (unless_overflow a b (value (if signs_differ a b then negate q else q)))
exact Op.modulo a b =
    let r = magnitude a % magnitude b in
    unless_zero b (unless_overflow a b (value (if is_negative a then negate r else r)))
exact Op.divu a b = unless_zero b (value (a / b))
exact Op.modu a b = unless_zero b (value (a % b))
exact Op.eq a b = value (flag (a == b))
exact Op.ne a b = value (flag (not (a == b)))
exact Op.lt a b = value (flag (below a b))
exact Op.le a b = value (flag (not (below b a)))
exact Op.gt a b = value (flag (below b a))
exact Op.ge a b = value (flag (not (below a b)))
exact Op.ltu a b = value (flag (ltb a b))
exact Op.leu a b = value (flag (not (ltb b a)))
exact Op.and a b = value (bit_and a b)
exact Op.or a b = value (bit_or a b)
exact Op.xor a b = value (bit_xor a b)
exact Op.shl a b = value ((a * 2 ^ (b % 32)) % 2 ^ 32)
exact Op.shr a b = value (a / 2 ^ (b % 32))
exact Op.sar a b =
    value (if is_negative a then 4294967295 - (4294967295 - a) / 2 ^ (b % 32) else a / 2 ^ (b % 32))
exact _ a b = value 0

flag-v4_bool : (b : Bool) → v4_bool b ≡ flag b
flag-v4_bool true = refl
flag-v4_bool false = refl

below-slt : (a b : ℕ) → a < 2 ^ 32 → b < 2 ^ 32 → slt a b ≡ below a b
below-slt a b h k = ground arith

leb-ltb : (a b : ℕ) → leb a b ≡ not (ltb b a)
leb-ltb a b = ground arith

add-exact : (a b : ℕ) → a < 2 ^ 32 → b < 2 ^ 32 → binary Op.add a b ≡ exact Op.add a b
unfolding binary
add-exact a b h k = ap value (wrap a b h k)
  where
    wrap :
        (a b : ℕ)
        → a < 2 ^ 32
        → b < 2 ^ 32
        → u32 (a + b) ≡ (if ltb (a + b) (2 ^ 32) then a + b else a + b - 2 ^ 32)
    wrap a b h k = ground arith

sub-exact : (a b : ℕ) → a < 2 ^ 32 → b < 2 ^ 32 → binary Op.sub a b ≡ exact Op.sub a b
unfolding binary
sub-exact a b h k = ap value (wrap a b h k)
  where
    wrap :
        (a b : ℕ)
        → a < 2 ^ 32
        → b < 2 ^ 32
        → u32 (a + 2 ^ 32 - b) ≡ (if leb b a then a - b else a + 2 ^ 32 - b)
    wrap a b h k = ground arith

div-exact : (a b : ℕ) → binary Op.div a b ≡ exact Op.div a b
unfolding binary sdiv
div-exact a b =
    ap (λ q. unless_zero b (unless_overflow a b (value q)))
      (signed (is_negative a) (is_negative b) (magnitude a / magnitude b))
  where
    signed :
        (x y : Bool) (q : ℕ)
        → (if x then if y then q else negate q else if y then negate q else q)
          ≡ (if (if x then not y else y) then negate q else q)
    signed true true q = refl
    signed true false q = refl
    signed false true q = refl
    signed false false q = refl

modulo-exact : (a b : ℕ) → binary Op.modulo a b ≡ exact Op.modulo a b
unfolding binary smod
modulo-exact a b = refl

-- The binary opcodes of the inner switch.
abbrev pub IsBinary : Op → Type 0
IsBinary Op.add = Unit
IsBinary Op.sub = Unit
IsBinary Op.mul = Unit
IsBinary Op.div = Unit
IsBinary Op.modulo = Unit
IsBinary Op.divu = Unit
IsBinary Op.modu = Unit
IsBinary Op.eq = Unit
IsBinary Op.ne = Unit
IsBinary Op.lt = Unit
IsBinary Op.le = Unit
IsBinary Op.gt = Unit
IsBinary Op.ge = Unit
IsBinary Op.ltu = Unit
IsBinary Op.leu = Unit
IsBinary _ = ⊥

pub binary-exact :
    (op : Op) → IsBinary op → (a b : ℕ) → a < 2 ^ 32 → b < 2 ^ 32 → binary op a b ≡ exact op a b
unfolding binary
binary-exact Op.add i a b h k = add-exact a b h k
binary-exact Op.sub i a b h k = sub-exact a b h k
binary-exact Op.mul i a b h k = refl
binary-exact Op.div i a b h k = div-exact a b
binary-exact Op.modulo i a b h k = modulo-exact a b
binary-exact Op.divu i a b h k = refl
binary-exact Op.modu i a b h k = refl
binary-exact Op.eq i a b h k = ap value (flag-v4_bool _)
binary-exact Op.ne i a b h k = ap value (flag-v4_bool _)
binary-exact Op.lt i a b h k = ap value (flag-v4_bool _ ∙ ap flag (below-slt a b h k))
binary-exact Op.le i a b h k =
    ap value (flag-v4_bool _ ∙ ap (λ x. flag (not x)) (below-slt b a k h))
binary-exact Op.gt i a b h k = ap value (flag-v4_bool _ ∙ ap flag (below-slt b a k h))
binary-exact Op.ge i a b h k =
    ap value (flag-v4_bool _ ∙ ap (λ x. flag (not x)) (below-slt a b h k))
binary-exact Op.ltu i a b h k = ap value (flag-v4_bool _)
binary-exact Op.leu i a b h k = ap value (flag-v4_bool _ ∙ ap flag (leb-ltb a b))
binary-exact _ i a b h k = absurd i

bit_and-zero : (d x : ℕ) → x < two_power d → bit_and x 0 ≡ 0
unfolding two_power
bit_and-zero zero x small = ap (λ z. bit_and z 0) (none_left x small)
  where
    none_left : (x : ℕ) → x < 1 → x ≡ 0
    none_left x h = omega arith
bit_and-zero (suc d) x small =
    bit_and-parts x 0 (x / 2) 0 (x % 2) 0 refl refl refl refl
    ∙ ap (λ n. n * 2 + min (x % 2) 0) (bit_and-zero d (x / 2) (omega arith))
    ∙ min_none (x % 2)
  where
    min_none : (z : ℕ) → 0 * 2 + min z 0 ≡ 0
    min_none z = omega arith

bit_and-odd : (x m : ℕ) → bit_and x (2 * m + 1) ≡ bit_and (x / 2) m * 2 + x % 2
bit_and-odd x m =
    bit_and-parts x (2 * m + 1) (x / 2) m (x % 2) 1 refl (omega arith) refl (omega arith)
    ∙ ap (λ n. bit_and (x / 2) m * 2 + n) (lowest x)
  where
    lowest : (x : ℕ) → min (x % 2) 1 ≡ x % 2
    lowest x = omega arith

-- The mask of a shift leaves the shift modulo 32.
pub bit_and-mask : (x : ℕ) → x < 2 ^ 32 → bit_and x 0x1f ≡ x % 32
unfolding two_power
bit_and-mask x h =
    five x _ _ _ _ _ _ (bit_and-odd x 15) (bit_and-odd (x / 2) 7) (bit_and-odd (x / 2 / 2) 3)
      (bit_and-odd (x / 2 / 2 / 2) 1) (bit_and-odd (x / 2 / 2 / 2 / 2) 0)
      (bit_and-zero 32 (x / 2 / 2 / 2 / 2 / 2) (omega arith))
  where
    five :
        (x n₅ n₄ n₃ n₂ n₁ n₀ : ℕ)
        → n₅ ≡ n₄ * 2 + x % 2
        → n₄ ≡ n₃ * 2 + x / 2 % 2
        → n₃ ≡ n₂ * 2 + x / 2 / 2 % 2
        → n₂ ≡ n₁ * 2 + x / 2 / 2 / 2 % 2
        → n₁ ≡ n₀ * 2 + x / 2 / 2 / 2 / 2 % 2
        → n₀ ≡ 0
        → n₅ ≡ x % 32
    five x n₅ n₄ n₃ n₂ n₁ n₀ e₅ e₄ e₃ e₂ e₁ e₀ = omega arith

-- The opcodes that test no result: AND, OR, XOR and the shifts.
pub shift-exact :
    (a b : ℕ)
    → b < 2 ^ 32
    → (value (shift_left a b) ≡ exact Op.shl a b)
      × (value (shift_right a b) ≡ exact Op.shr a b)
      × (value (shift_arith a b) ≡ exact Op.sar a b)
unfolding shift_left shift_right shift_arith
shift-exact a b k =
    let e = bit_and-mask b k in
    (
      ap (λ n. value (u32 (a * 2 ^ n))) e,
      ap (λ n. value (a / 2 ^ n)) e,
      ap (λ n. value (if is_negative a then 2 ^ 32 - 1 - (2 ^ 32 - 1 - a) / 2 ^ n else a / 2 ^ n))
          e,
    )
