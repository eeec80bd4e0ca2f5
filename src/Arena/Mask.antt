-- ===== src/Arena/Mask.antt =====
-- The masks of src/arena.cpp: `align & (align - 1)` and `x & ~(align - 1)`, bit by bit.
use Prim.Native.Nat.{min, digits, bit_and-bitwise}
use native.Mathlib.Nat.{mul_left_comm}
use v4_engine.Base.{
  ℕ, zero, suc, ◌+◌, ◌*◌, ◌-◌, ◌/◌, ◌%◌, ◌≤◌, ◌<◌, ◌≡◌, refl, sym, ap, ◌∙◌, bit_and, arith,
}

-- The common bits of the `n` lowest places.
abbrev low_bits : ℕ → ℕ → ℕ → ℕ
low_bits n x y = digits (λ _. 0) min n x y

low_bits-none : (n y : ℕ) → low_bits n 0 y ≡ 0
low_bits-none zero y = refl
low_bits-none (suc n) y = refl

low_bits-enough : (m n x y : ℕ) → x ≤ m → x ≤ n → low_bits m x y ≡ low_bits n x y
low_bits-enough m n zero y h k = low_bits-none m y ∙ sym (low_bits-none n y)
low_bits-enough zero n (suc x) y h k = absurd (no_room h)
  where
    no_room : suc x ≤ 0 → ⊥
    no_room h = omega arith
low_bits-enough (suc m) zero (suc x) y h k = absurd (no_room k)
  where
    no_room : suc x ≤ 0 → ⊥
    no_room k = omega arith
low_bits-enough (suc m) (suc n) (suc x) y h k =
    ap (λ z. z * 2 + min (suc x % 2) (y % 2))
      (low_bits-enough m n (suc x / 2) (y / 2) (omega arith) (omega arith))

-- The lowest bit apart from the others.
bit_and-halves : (x y : ℕ) → bit_and x y ≡ bit_and (x / 2) (y / 2) * 2 + min (x % 2) (y % 2)
bit_and-halves zero y =
    bit_and-bitwise 0 y
    ∙ sym (ap (λ z. z * 2 + min 0 (y % 2)) (bit_and-bitwise 0 (y / 2)) ∙ min_none (y % 2))
  where
    min_none : (z : ℕ) → 0 * 2 + min 0 z ≡ 0
    min_none z = omega arith
bit_and-halves (suc x) y =
    bit_and-bitwise (suc x) y
    ∙ ap (λ z. z * 2 + min (suc x % 2) (y % 2))
        (low_bits-enough x (suc x / 2) (suc x / 2) (y / 2) (omega arith) (omega arith)
          ∙ sym (bit_and-bitwise (suc x / 2) (y / 2)))

pub bit_and-parts :
    (x y x' y' p q : ℕ)
    → x / 2 ≡ x'
    → y / 2 ≡ y'
    → x % 2 ≡ p
    → y % 2 ≡ q
    → bit_and x y ≡ bit_and x' y' * 2 + min p q
bit_and-parts x y x' y' p q hx hy hp hq = bit_and-halves x y ∙ rw (hx, hy, hp, hq) refl

unfoldable pub two_power : ℕ → ℕ
two_power zero = 1
two_power (suc k) = 2 * two_power k

pub two_power-positive : (k : ℕ) → 0 < two_power k
unfolding two_power
two_power-positive zero = omega arith
two_power-positive (suc k) = let h = two_power-positive k in omega arith

-- align & (align - 1)
pub bit_and-below : (k : ℕ) → bit_and (two_power k) (two_power k - 1) ≡ 0
unfolding two_power
bit_and-below zero = refl
bit_and-below (suc k) =
    let h = two_power-positive k in
    let e = bit_and-below k in
    bit_and-parts (2 * two_power k) (2 * two_power k - 1) (two_power k) (two_power k - 1) 0 1
      (omega arith) (omega arith) (omega arith) (omega arith)
    ∙ rw e refl

-- The largest multiple of a power of two that is not above `x`.
pub record Floor (k x r : ℕ) : Type 0 where
  pub count : ℕ
  pub is_multiple : r ≡ count * two_power k
  pub low : r ≤ x
  pub near : x < r + two_power k

double : (k x r : ℕ) → Floor k (x / 2) r → Floor (suc k) x (r * 2 + min (x % 2) 0)
unfolding two_power
double k x r f =
    let m = f.is_multiple in
    let l = f.low in
    let n = f.near in
    record {
      count = f.count;
      is_multiple = omega (arith, mul_left_comm f.count 2 (two_power k));
      low = omega arith;
      near = omega arith;
    }

-- All bits are kept.
bit_and-ones : (d x : ℕ) → x < two_power d → bit_and x (two_power d - 1) ≡ x
unfolding two_power
bit_and-ones zero x small = ap (λ z. bit_and z 0) none_left ∙ sym none_left
  where
    none_left : x ≡ 0
    none_left = omega arith
bit_and-ones (suc d) x small =
    let h = two_power-positive d in
    let e = bit_and-ones d (x / 2) (omega arith) in
    bit_and-parts x (2 * two_power d - 1) (x / 2) (two_power d - 1) (x % 2) 1 refl (omega arith)
      refl (omega arith)
    ∙ rw e (omega arith)

-- x & ~(align - 1), in `d` bits
pub bit_and-Floor :
    (d k x : ℕ) → k ≤ d → x < two_power d → Floor k x (bit_and x (two_power d - two_power k))
unfolding two_power
bit_and-Floor d zero x h small =
    rw (bit_and-ones d x small)
      (record { count = x; is_multiple = omega arith; low = omega arith; near = omega arith })
bit_and-Floor zero (suc k) x h small = absurd (no_room h)
  where
    no_room : suc k ≤ 0 → ⊥
    no_room h = omega arith
bit_and-Floor (suc d) (suc k) x h small =
    let f = bit_and-Floor d k (x / 2) (omega arith) (omega arith) in
    rw
      (bit_and-parts x (2 * two_power d - 2 * two_power k) (x / 2) (two_power d - two_power k)
        (x % 2) 0 refl (omega arith) refl (omega arith))
      (double k x (bit_and (x / 2) (two_power d - two_power k)) f)
