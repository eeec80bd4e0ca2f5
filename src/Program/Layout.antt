-- ===== src/Program/Layout.antt =====
-- Bytes that stand at a place of the bytecode.
use v4_engine.Base.{
  ℕ, zero, suc, ◌+◌, ◌≤◌, ◌<◌, ◌≡◌, refl, ap, ◌∙◌, subst, List, [], ◌∷◌, ◌++◌, length, get_or,
  arith,
}
use v4_engine.Interp.{Code, byte_at}
use v4_engine.Program.{
  Program, op, literal, seq, branch, repeat, call, size, encode, word_code, word_bytes,
}

-- `bs` stands at `ip`, within the code.
pub record Placed (code : Code) (ip : ℕ) (bs : List ℕ) : Type 0 where
  pub bytes_at : (i : ℕ) → i < length bs → byte_at code (ip + i) ≡ get_or bs i 0
  pub room : ip + length bs ≤ code.len

pub length-++ : (xs ys : List ℕ) → length (xs ++ ys) ≡ length xs + length ys
length-++ [] ys = omega arith
length-++ (x ∷ xs) ys = ap suc (length-++ xs ys) ∙ omega arith

get_or-left : (xs ys : List ℕ) (i : ℕ) → i < length xs → get_or (xs ++ ys) i 0 ≡ get_or xs i 0
get_or-left [] ys i h = absurd (omega arith)
get_or-left (x ∷ xs) ys zero h = refl
get_or-left (x ∷ xs) ys (suc i) h = get_or-left xs ys i (omega arith)

get_or-right : (xs ys : List ℕ) (i : ℕ) → get_or (xs ++ ys) (length xs + i) 0 ≡ get_or ys i 0
get_or-right [] ys i = ap (λ k. get_or ys k 0) (omega arith)
get_or-right (x ∷ xs) ys i =
    ap (λ k. get_or (x ∷ xs ++ ys) k 0) (shift (length xs)) ∙ get_or-right xs ys i
  where
    shift : (n : ℕ) → suc n + i ≡ suc (n + i)
    shift n = omega arith

pub length-encode : (p : Program) → length (encode p) ≡ size p
length-encode (op o) = refl
length-encode (literal n) = refl
length-encode (seq p q) = rw (length-++, length-encode p, length-encode q) refl
length-encode (branch p q) = simp (length-++, length-encode p, length-encode q) (omega arith)
length-encode (repeat t b) = simp (length-++, length-encode t, length-encode b) (omega arith)
length-encode (call idx) = refl

module _ {code : Code} where
  pub left_part : {ip : ℕ} (xs ys : List ℕ) → Placed code ip (xs ++ ys) → Placed code ip xs
  left_part {ip} xs ys h = record {
    bytes_at = λ i lt. h.bytes_at i (rw length-++ (omega arith)) ∙ get_or-left xs ys i lt;
    room =
        shorter ip (length xs) (length ys)
          (subst (λ n. ip + n ≤ code.len) (length-++ xs ys) h.room);
  }
    where
      shorter : (ip m n : ℕ) → ip + (m + n) ≤ code.len → ip + m ≤ code.len
      shorter ip m n h = omega arith

  pub right_part :
      {ip : ℕ} (xs ys : List ℕ) (n : ℕ)
      → length xs ≡ n
      → Placed code ip (xs ++ ys)
      → Placed code (ip + n) ys
  right_part {ip} xs ys n e h = record {
    bytes_at = λ i lt.
        ap (byte_at code) (next i)
        ∙ h.bytes_at (length xs + i) (rw length-++ (omega arith))
        ∙ get_or-right xs ys i;
    room = further (length ys) (subst (λ k. ip + k ≤ code.len) (length-++ xs ys) h.room);
  }
    where
      next : (i : ℕ) → ip + n + i ≡ ip + (length xs + i)
      next i = omega arith

      further : (m : ℕ) → ip + (length xs + m) ≤ code.len → ip + n + m ≤ code.len
      further m h = omega arith

pub word_code-Placed : (p : Program) → Placed (word_code p) 0 (word_bytes p)
word_code-Placed p = record {
  bytes_at = λ i lt. ap (λ k. get_or (word_bytes p) k 0) (omega arith);
  room = rw (length-++, length-encode p) (omega arith);
}
