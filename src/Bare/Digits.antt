-- ===== src/Bare/Digits.antt =====
-- The two loops of print_int of bare-metal/riscv32.
use v4_engine.Base.{
  ℕ, zero, suc, ◌+◌, ◌*◌, ◌/◌, ◌%◌, ◌-◌, ◌≤◌, ◌<◌, ◌≡◌, refl, sym, ap, ap₂, subst, Bool, ◌⊎◌, ◌∙◌,
  Option, some, true, false, List, [], ◌∷◌, ◌==◌, ◌||◌, if◌then◌else◌, update, is_negative, negate,
  length, arith, Bool-cases, inl, inr, ==→eq, ==_self,
}
use v4_engine.Bare.{fill, drain, drained, digits}

-- The number that decimal digits stand for, `acc` being read already.
unfoldable pub decimal : ℕ → List ℕ → ℕ
decimal acc [] = acc
decimal acc (c ∷ cs) = decimal (acc * 10 + (c - 48)) cs

-- The `int32_t` that a text with an optional sign stands for.
unfoldable pub read_int : List ℕ → ℕ
unfolding decimal
read_int [] = 0
read_int (c ∷ cs) = if c == 45 then negate (decimal 0 cs) else decimal 0 (c ∷ cs)

unfoldable pub AreDigits : List ℕ → Type 0
AreDigits [] = Unit {0}
AreDigits (c ∷ cs) = (48 ≤ c) × (c ≤ 57) × AreDigits cs

ten_power : ℕ → ℕ
ten_power zero = 1
ten_power (suc k) = 10 * ten_power k

update-at : (buf : ℕ → ℕ) (i v : ℕ) → update buf i v i ≡ v
update-at buf i v = rw (==_self i) refl

drain-update : (buf : ℕ → ℕ) (i j v : ℕ) → i ≤ j → drain (update buf j v) i ≡ drain buf i
unfolding drain
drain-update buf zero j v h = refl
drain-update buf (suc i) j v h =
    ap₂ (λ c cs. c ∷ cs) (other (j == i) (Bool-cases (j == i)))
      (drain-update buf i j v (omega arith))
  where
    other : (b : Bool) → ((j == i) ≡ true) ⊎ ((j == i) ≡ false) → update buf j v i ≡ buf i
    other b (inl same) = absurd (differ (==→eq j i same))
      where
        differ : j ≡ i → ⊥
        differ e = omega arith
    other b (inr o) = rw o refl

drain-stored : (buf : ℕ → ℕ) (i v : ℕ) → drain (update buf i v) (i + 1) ≡ v ∷ drain buf i
unfolding drain
drain-stored buf i v =
    ap (drain (update buf i v)) next
    ∙ ap₂ (λ c cs. c ∷ cs) (update-at buf i v) (drain-update buf i i v (omega arith))
  where
    next : i + 1 ≡ suc i
    next = omega arith

-- What the loop of print_int leaves: digits that are read as `n` before what was read already.
record Filled (r : Option (ℕ × (ℕ → ℕ))) (n k i : ℕ) (buf : ℕ → ℕ) : Type 0 where
  last : ℕ
  out : ℕ → ℕ
  filled : r ≡ some (last, out)
  bound : last ≤ k + i
  read : decimal 0 (drain out last) ≡ decimal n (drain buf i)
  are_digits : AreDigits (drain buf i) → AreDigits (drain out last)

-- The test of the loop at a number that is not negative.
stops : (n : ℕ) → n < 2147483648 → (n == 0 || is_negative n) ≡ (n == 0)
stops n h = ground arith

-- The loop is at its end.
done-Filled : (n k i : ℕ) (buf : ℕ → ℕ) → n ≡ 0 → Filled (some (i, buf)) n k i buf
done-Filled n k i buf e = record {
  last = i;
  out = buf;
  filled = refl;
  bound = omega arith;
  read = ap (λ m. decimal m (drain buf i)) (sym e);
  are_digits = λ d. d;
}

-- One digit is stored before the rest of the loop.
step-Filled :
    (r : Option (ℕ × (ℕ → ℕ))) (n k i : ℕ) (buf : ℕ → ℕ)
    → Filled r (n / 10) k (i + 1) (update buf i (48 + n % 10))
    → Filled r n (suc k) i buf
unfolding drain decimal AreDigits
step-Filled r n k i buf h = record {
  last = h.last;
  out = h.out;
  filled = h.filled;
  bound = omega arith;
  read =
      h.read
      ∙ ap (decimal (n / 10)) (drain-stored buf i (48 + n % 10))
      ∙ ap (λ m. decimal m (drain buf i)) joined;
  are_digits =
      λ d. h.are_digits (subst AreDigits (sym (drain-stored buf i (48 + n % 10))) (low, high, d));
}
  where
    joined : n / 10 * 10 + (48 + n % 10 - 48) ≡ n
    joined = omega arith

    low : 48 ≤ 48 + n % 10
    low = omega arith

    high : 48 + n % 10 ≤ 57
    high = omega arith

fill-stop : (room n i : ℕ) (buf : ℕ → ℕ) → n ≡ 0 → fill room n i buf ≡ some (i, buf)
unfolding fill
fill-stop zero n i buf e = rw e refl
fill-stop (suc room) n i buf e = rw e refl

fill-Filled :
    (room k n i : ℕ) (buf : ℕ → ℕ)
    → n < ten_power k
    → n < 2147483648
    → k ≤ room
    → Filled (fill room n i buf) n k i buf
unfolding fill ten_power
fill-Filled room zero n i buf small pos fits =
    subst (λ r. Filled r n 0 i buf) (sym (fill-stop room n i buf (omega arith)))
      (done-Filled n 0 i buf (omega arith))
fill-Filled zero (suc k) n i buf small pos fits = absurd (none_fit fits)
  where
    none_fit : suc k ≤ 0 → ⊥
    none_fit h = omega arith
fill-Filled (suc room) (suc k) n i buf small pos fits = elim (Bool-cases (n == 0)) [
  | inl stop ↦ rw (stops n pos, stop) (done-Filled n (suc k) i buf (==→eq n 0 stop))
  | inr go ↦
      rw (stops n pos, go)
        (step-Filled (fill room (n / 10) (i + 1) (update buf i (48 + n % 10))) n k i buf (
          fill-Filled room k (n / 10) (i + 1) (update buf i (48 + n % 10)) (omega arith)
            (omega arith) (omega arith)))
]

length-drain : (buf : ℕ → ℕ) (i : ℕ) → length (drain buf i) ≡ i
unfolding drain
length-drain buf zero = refl
length-drain buf (suc i) = ap suc (length-drain buf i)

-- A text that is read as `n`.
pub record ReadAs (r : Option (List ℕ)) (n most : ℕ) : Type 0 where
  pub text : List ℕ
  pub sent : r ≡ some text
  pub bound : length text ≤ most
  pub read : read_int text ≡ n

pub read_int-digits : (text : List ℕ) → AreDigits text → read_int text ≡ decimal 0 text
unfolding read_int decimal AreDigits
read_int-digits [] d = refl
read_int-digits (c ∷ cs) d = rw (unsigned d.0) refl
  where
    unsigned : 48 ≤ c → (c == 45) ≡ false
    unsigned h = ground arith

-- The digits of a positive `int32_t`, at most 10, with room to spare in the 12 bytes.
pub record IsPrinted (n : ℕ) : Type 0 where
  pub text : List ℕ
  pub sent : digits n ≡ some text
  pub bound : length text ≤ 10
  pub read : decimal 0 text ≡ n
  pub are_digits : AreDigits text

pub digits-IsPrinted : (n : ℕ) → n < 2147483648 → IsPrinted n
unfolding digits drained ten_power drain decimal AreDigits
digits-IsPrinted n small =
    let f = fill-Filled 12 10 n 0 (λ _. 0) (omega arith) small (omega arith) in
    record {
      text = drain f.out f.last;
      sent = ap drained f.filled;
      bound = rw (length-drain f.out f.last) f.bound;
      read = f.read;
      are_digits = f.are_digits tt;
    }
