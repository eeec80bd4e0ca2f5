-- ===== src/Alu/Division.antt =====
-- DIV and MOD of vm_exec_raw in src/core.cpp and the division of C, which rounds towards zero.
use native.Mathlib.Nat.{mul-add, add-mul, mul_comm, div-add-mod, div-le_self, mod-lt, le_trans}
use v4_engine.Base.{
  ℕ, zero, suc, ◌+◌, ◌-◌, ◌*◌, ◌/◌, ◌%◌, ◌^◌, ◌≤◌, ◌<◌, ◌≡◌, ◌≢◌, refl, sym, ap, ◌∙◌, subst, Bool,
  true, false, not, ◌⊎◌, inl, inr, arith, ◌==◌, if◌then◌else◌, u32, is_negative, magnitude, negate,
  minus, Bool-cases, ==→eq, lt→not_leb,
}
use v4_engine.Alu.{value, overflows, sdiv, smod, binary}
use v4_engine.Opcode.{Op}

-- `q` and `r` are the quotient and the remainder of `a` by `b` as C defines them on int32_t: their absolute values
-- divide that of `a`, the remainder is 0 or has the sign of `a`, the quotient is 0 or negative exactly if the
-- signs differ, and q * b + r is `a` in 32 bits.
pub record IsQuotient (a b q r : ℕ) : Type 0 where
  pub exact : magnitude q * magnitude b + magnitude r ≡ magnitude a
  pub small : magnitude r < magnitude b
  pub sign_r : (r ≡ 0) ⊎ (is_negative r ≡ is_negative a)
  pub sign_q :
      (q ≡ 0) ⊎ (is_negative q ≡ (if is_negative a then not (is_negative b) else is_negative b))
  pub wraps : u32 (q * b + r) ≡ a

magnitude-negate : (n : ℕ) → n ≤ 2 ^ 31 → magnitude (negate n) ≡ n
magnitude-negate n h = ground arith

magnitude-positive : (n : ℕ) → n < 2 ^ 31 → magnitude n ≡ n
magnitude-positive n h = ground arith

-- A pattern and its negation add up to 0 or to 2 ^ 32.
abbrev Opposite : ℕ → ℕ → Type 0
Opposite x n = (x + n ≡ 0) ⊎ (x + n ≡ 2 ^ 32)

negate-Opposite : (n : ℕ) → n ≤ 2 ^ 31 → Opposite (negate n) n
negate-Opposite zero h = inl refl
negate-Opposite (suc n) h = inr (omega arith)

negative_negate : (n : ℕ) → n ≤ 2 ^ 31 → (negate n ≡ 0) ⊎ (is_negative (negate n) ≡ true)
negative_negate zero h = inl refl
negative_negate (suc n) h = inr (ground arith)

-- So do their products by one number, times a number.
Opposite-product : (x n b : ℕ) → Opposite x n → (k : ℕ) × (x * b + n * b ≡ 2 ^ 32 * k)
Opposite-product x n b (inl e) = (0, sym (add-mul x n b) ∙ ap (λ m. m * b) e ∙ omega arith)
Opposite-product x n b (inr e) = (b, sym (add-mul x n b) ∙ ap (λ m. m * b) e)

product-Opposite : (n x b : ℕ) → x + b ≡ 2 ^ 32 → n * x + n * b ≡ n * 2 ^ 32
product-Opposite n x b e = sym (mul-add n x b) ∙ ap (λ m. n * m) e

-- The sums in 32 bits, the products standing as numbers of their own.
sum_pn :
    (qb nb nB r a k n : ℕ)
    → a < 2 ^ 32
    → qb + nb ≡ 2 ^ 32 * k
    → nb + nB ≡ n * 2 ^ 32
    → nB + r ≡ a
    → u32 (qb + r) ≡ a
sum_pn qb nb nB r a k n h e₁ e₂ e₃ = omega arith

sum_np :
    (qb nb r m a k : ℕ)
    → 0 < a
    → a < 2 ^ 32
    → qb + nb ≡ 2 ^ 32 * k
    → Opposite r m
    → nb + m ≡ 2 ^ 32 - a
    → u32 (qb + r) ≡ a
sum_np qb nb r m a k h₀ h e₁ (inl e₂) e₃ = omega arith
sum_np qb nb r m a k h₀ h e₁ (inr e₂) e₃ = omega arith

sum_nn :
    (qb qB r m a q : ℕ)
    → 0 < a
    → a < 2 ^ 32
    → qb + qB ≡ q * 2 ^ 32
    → Opposite r m
    → qB + m ≡ 2 ^ 32 - a
    → u32 (qb + r) ≡ a
sum_nn qb qB r m a q h₀ h e₁ (inl e₂) e₃ = omega arith
sum_nn qb qB r m a q h₀ h e₁ (inr e₂) e₃ = omega arith

positive : (n : ℕ) → is_negative n ≡ false → n < 2 ^ 31
positive n h = ground arith

negative_pos : (n : ℕ) → is_negative n ≡ true → 0 < n
negative_pos n h = ground arith

magnitude-negative : (n : ℕ) → is_negative n ≡ true → magnitude n ≡ 2 ^ 32 - n
magnitude-negative n h = rw h refl

magnitude-le : (n : ℕ) → n < 2 ^ 32 → magnitude n ≤ 2 ^ 31
magnitude-le n h = ground arith

complement : (n : ℕ) → n < 2 ^ 32 → is_negative n ≡ true → n + magnitude n ≡ 2 ^ 32
complement n fits h = rw h (omega arith)

module _ (a b q r : ℕ) (fits : a < 2 ^ 32) (fits_b : b < 2 ^ 32)
    (exact : q * magnitude b + r ≡ magnitude a) (small : r < magnitude b)
    (below : q ≤ magnitude a) where
  quotient_in : q ≤ 2 ^ 31
  quotient_in = le_trans below (magnitude-le a fits)

  rest_lt : r < 2 ^ 31
  rest_lt = bound r (magnitude b) small (magnitude-le b fits_b)
    where
      bound : (m n : ℕ) → m < n → n ≤ 2 ^ 31 → m < 2 ^ 31
      bound m n h k = omega arith

  rest_in : r ≤ 2 ^ 31
  rest_in = weaken rest_lt
    where
      weaken : {m : ℕ} → r < m → r ≤ m
      weaken h = omega arith

  times : (k : ℕ) × (negate q * b + q * b ≡ 2 ^ 32 * k)
  times = Opposite-product (negate q) q b (negate-Opposite q quotient_in)

  IsQuotient-pp : is_negative a ≡ false → is_negative b ≡ false → IsQuotient a b q r
  IsQuotient-pp pa pb = record {
    exact = rw (magnitude-positive q q_lt, magnitude-positive r rest_lt) exact;
    small = rw (magnitude-positive r rest_lt) small;
    sign_r = inr (lt→not_leb r (2 ^ 31) rest_lt ∙ sym pa);
    sign_q = inr (rw (pa, pb) (lt→not_leb q (2 ^ 31) q_lt));
    wraps =
        in_word (q * b + r)
          (subst (λ m. q * m + r ≡ a) (magnitude-positive b (positive b pb)) (exact ∙ is_a));
  }
    where
      is_a : magnitude a ≡ a
      is_a = magnitude-positive a (positive a pa)

      q_lt : q < 2 ^ 31
      q_lt = step (magnitude a) is_a (positive a pa) below
        where
          step : (m : ℕ) → m ≡ a → a < 2 ^ 31 → q ≤ m → q < 2 ^ 31
          step m e h k = omega arith

      in_word : (s : ℕ) → s ≡ a → u32 s ≡ a
      in_word s e = omega arith

  IsQuotient-pn : is_negative a ≡ false → is_negative b ≡ true → IsQuotient a b (negate q) r
  IsQuotient-pn pa nb = record {
    exact = rw (magnitude-negate q quotient_in, magnitude-positive r rest_lt) exact;
    small = rw (magnitude-positive r rest_lt) small;
    sign_r = inr (lt→not_leb r (2 ^ 31) rest_lt ∙ sym pa);
    sign_q = rw (pa, nb) (negative_negate q quotient_in);
    wraps =
        sum_pn (negate q * b) (q * b) (q * magnitude b) r a times.0 q fits times.1
          (product-Opposite q b (magnitude b) (complement b fits_b nb))
          (exact ∙ magnitude-positive a (positive a pa));
  }

  IsQuotient-np :
      is_negative a ≡ true → is_negative b ≡ false → IsQuotient a b (negate q) (negate r)
  IsQuotient-np na pb = record {
    exact = rw (magnitude-negate q quotient_in, magnitude-negate r rest_in) exact;
    small = rw (magnitude-negate r rest_in) small;
    sign_r = rw na (negative_negate r rest_in);
    sign_q = rw (na, pb) (negative_negate q quotient_in);
    wraps =
        sum_np (negate q * b) (q * b) (negate r) r a times.0 (negative_pos a na) fits times.1
          (negate-Opposite r rest_in)
          (subst (λ m. q * m + r ≡ 2 ^ 32 - a) (magnitude-positive b (positive b pb))
            (exact ∙ magnitude-negative a na));
  }

  IsQuotient-nn :
      is_negative a ≡ true → is_negative b ≡ true → q < 2 ^ 31 → IsQuotient a b q (negate r)
  IsQuotient-nn na nb h = record {
    exact = rw (magnitude-positive q h, magnitude-negate r rest_in) exact;
    small = rw (magnitude-negate r rest_in) small;
    sign_r = rw na (negative_negate r rest_in);
    sign_q = inr (rw (na, nb) (lt→not_leb q (2 ^ 31) h));
    wraps =
        sum_nn (q * b) (q * magnitude b) (negate r) r a q (negative_pos a na) fits
          (product-Opposite q b (magnitude b) (complement b fits_b nb)) (negate-Opposite r rest_in)
          (exact ∙ magnitude-negative a na);
  }

-- A product by at least `f` leaves room for the product by `f`.
at_least : (f q r m n : ℕ) → f ≤ m → q * m + r ≡ n → (x : ℕ) × (q * f + x ≡ n)
at_least f q r m n h e = (
  q * (m - f) + r,
  regroup (q * f) (q * (m - f)) (q * m) (sym (mul-add q f (m - f)) ∙ ap (λ k. q * k) (omega arith))
      ∙ e,
)
  where
    regroup : (x y z : ℕ) → x + y ≡ z → x + (y + r) ≡ z + r
    regroup x y z p = omega arith

below_dividend : (q r m n : ℕ) → 0 < m → q * m + r ≡ n → n < 2 ^ 31 → q < 2 ^ 31
below_dividend q r m n h e k = bound (at_least 1 q r m n (omega arith) e)
  where
    bound : (x : ℕ) × (q * 1 + x ≡ n) → q < 2 ^ 31
    bound (x, p) = omega arith

half : (q r m n : ℕ) → 2 ≤ m → q * m + r ≡ n → n ≤ 2 ^ 31 → q < 2 ^ 31
half q r m n h e k = bound (at_least 2 q r m n h e)
  where
    bound : (x : ℕ) × (q * 2 + x ≡ n) → q < 2 ^ 31
    bound (x, p) = omega arith

module _ (a b : ℕ) (fits : a < 2 ^ 32) (fits_b : b < 2 ^ 32) (nonzero : b ≢ 0) where
  nonzero_test : (b == 0) ≡ false
  nonzero_test = ground arith

  quotient_le : magnitude a / magnitude b ≤ magnitude a
  quotient_le = div-le_self (magnitude a) (magnitude b)

  divisor_pos : 0 < magnitude b
  divisor_pos = ground arith

  abbrev q : ℕ
  q = magnitude a / magnitude b

  abbrev r : ℕ
  r = magnitude a % magnitude b

  exactly : q * magnitude b + r ≡ magnitude a
  exactly = ap (λ m. m + r) (mul_comm q (magnitude b)) ∙ div-add-mod (magnitude a) (magnitude b)

  rest_small : r < magnitude b
  rest_small = mod-lt (magnitude a) divisor_pos

  -- Two negative numbers, but for INT_MIN and -1, have a quotient that is an int32_t.
  quotient_small : is_negative a ≡ true → is_negative b ≡ true → overflows a b ≡ false → q < 2 ^ 31
  quotient_small na nb h = elim (Bool-cases (b == minus 1)) [
    | inl one ↦ by_one (==→eq b _ one)
    | inr more ↦ by_more (divisor_two more)
  ]
    where
      divisor_two : (b == minus 1) ≡ false → 2 ≤ magnitude b
      divisor_two more = ground arith

      dividend : b ≡ minus 1 → magnitude a < 2 ^ 31
      dividend e = ground arith

      by_one : b ≡ minus 1 → q < 2 ^ 31
      by_one e = below_dividend q r (magnitude b) (magnitude a) divisor_pos exactly (dividend e)

      by_more : 2 ≤ magnitude b → q < 2 ^ 31
      by_more two = half q r (magnitude b) (magnitude a) two exactly (magnitude-le a fits)

  by_signs :
      (x y : Bool)
      → is_negative a ≡ x
      → is_negative b ≡ y
      → overflows a b ≡ false
      → IsQuotient a b
          (if x then if y then q else negate q else if y then negate q else q)
          (if x then negate r else r)
  by_signs true true na nb h =
      IsQuotient-nn a b q r fits fits_b exactly rest_small quotient_le na nb
        (quotient_small na nb h)
  by_signs true false na pb h =
      IsQuotient-np a b q r fits fits_b exactly rest_small quotient_le na pb
  by_signs false true pa nb h =
      IsQuotient-pn a b q r fits fits_b exactly rest_small quotient_le pa nb
  by_signs false false pa pb h =
      IsQuotient-pp a b q r fits fits_b exactly rest_small quotient_le pa pb

  sdiv-IsQuotient : overflows a b ≡ false → IsQuotient a b (sdiv a b) (smod a b)
  unfolding sdiv smod
  sdiv-IsQuotient h = by_signs (is_negative a) (is_negative b) refl refl h

  -- DIV and MOD of any two numbers, but for a divisor of 0 and INT_MIN by -1, push the quotient and the remainder
  -- that C defines on int32_t, which rounds towards zero.
  pub binary-IsQuotient :
      overflows a b ≡ false
      → (quot : ℕ) × (rem : ℕ) × (binary Op.div a b ≡ value quot)
        × (binary Op.modulo a b ≡ value rem)
        × IsQuotient a b quot rem
  unfolding binary
  binary-IsQuotient h =
      (sdiv a b, smod a b, rw (nonzero_test, h) refl, rw (nonzero_test, h) refl, sdiv-IsQuotient h)
