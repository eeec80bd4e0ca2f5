-- ===== src/Bare/Print.antt =====
-- print_int of bare-metal/riscv32 against a reader of signed decimal numbers.
use v4_engine.Base.{
  ℕ, ◌≤◌, ◌<◌, ◌≡◌, refl, ap, ◌∙◌, Option, some, false, List, [], ◌∷◌, ◌==◌, if◌then◌else◌,
  is_negative, minus, negate, length, arith, Bool-cases, inl, inr, ==→eq, lt→not_leb, le→leb,
}
use v4_engine.Bare.{fill, drain, drained, digits, signed, print_int}
use v4_engine.Bare.Digits.{decimal, read_int, ReadAs, digits-IsPrinted, read_int-digits}

print_positive : (n : ℕ) → n < 2147483648 → (n == 0) ≡ false → ReadAs (print_int n) n 11
unfolding print_int
print_positive n small other =
    let d = digits-IsPrinted n small in
    record {
      text = d.text;
      sent = rw (other, lt→not_leb n 2147483648 small) (d.sent);
      bound = omega arith;
      read = read_int-digits d.text d.are_digits ∙ d.read;
    }

-- The `-` before the digits.
signed-ReadAs :
    (r : Option (List ℕ)) (n : ℕ) (text : List ℕ)
    → r ≡ some text
    → length text ≤ 10
    → negate (decimal 0 text) ≡ n
    → ReadAs (signed r) n 11
unfolding signed read_int
signed-ReadAs r n text sent bound read = record {
  text = 45 ∷ text;
  sent = ap signed sent;
  bound = omega arith;
  read = read;
}

print_negative : (n : ℕ) → 2147483648 < n → n < 4294967296 → ReadAs (print_int n) n 11
unfolding print_int
print_negative n low high =
    let d = digits-IsPrinted (minus n) (omega arith) in
    rw (nonzero, le→leb 2147483648 n (omega arith))
      (signed-ReadAs (digits (minus n)) n d.text d.sent d.bound (ap negate d.read ∙ twice))
  where
    nonzero : (n == 0) ≡ false
    nonzero = ground arith

    twice : negate (minus n) ≡ n
    twice = omega arith

print_zero : ReadAs (print_int 0) 0 11
unfolding print_int read_int decimal
print_zero = record { text = 48 ∷ []; sent = refl; bound = omega arith; read = refl }

print_least : ReadAs (print_int 2147483648) 0 11
unfolding print_int signed digits fill drained drain read_int decimal
print_least = record { text = 45 ∷ []; sent = refl; bound = omega arith; read = refl }

print_any : (n : ℕ) → n < 4294967296 → ReadAs (print_int n) (if n == 2147483648 then 0 else n) 11
print_any n small = elim (Bool-cases (n == 2147483648)) [
  | inl least ↦ rw (least, ==→eq n 2147483648 least) print_least
  | inr other ↦ rw other (elim (Bool-cases (n == 0)) [
    | inl none_left ↦ rw (==→eq n 0 none_left) print_zero
    | inr more ↦ elim (Bool-cases (is_negative n)) [
      | inl below ↦ print_negative n (ground arith) small
      | inr above ↦ print_positive n (ground arith) more
    ]
  ])
]

-- For every `int32_t`, print_int stores within its 12 bytes and sends at most 11 bytes, which are read back as the
-- number; but for INT_MIN only the sign is sent, which is read as 0.
pub print_int-read_int :
    (n : ℕ)
    → n < 4294967296
    → (text : List ℕ) × (print_int n ≡ some text)
      × (length text ≤ 11)
      × (read_int text ≡ (if n == 2147483648 then 0 else n))
print_int-read_int n small = let r = print_any n small in (r.text, r.sent, r.bound, r.read)
