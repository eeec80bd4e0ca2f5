-- ===== src/Arena/Blocks.antt =====
-- The blocks that v4_arena_alloc of src/arena.cpp hands out.
use v4_engine.Base.{
  ℕ, sym, ap₂, ◌+◌, ◌*◌, ◌-◌, ◌≤◌, ◌<◌, ◌≡◌, ◌⊎◌, refl, ap, ◌∙◌, false, none, some, ltb, ◌==◌,
  if◌then◌else◌, arith, Bool-cases, ltb→lt, not_ltb→le, inl, inr,
}
use native.Mathlib.Nat.{add-mul}
use v4_engine.Arena.{
  Arena, arena_alloc, alloc_in, align_up, bad_align, size_of, sub_size, complement,
}
use v4_engine.Arena.Mask.{two_power, two_power-positive, bit_and-below, Floor, bit_and-Floor}

-- The address that an allocation rounds up to.
align_up-Floor :
    (used k : ℕ)
    → k ≤ 63
    → used + two_power k < 18446744073709551616
    → Floor k (used + two_power k - 1) (align_up used (two_power k))
unfolding align_up two_power
align_up-Floor used k small room =
    let h = two_power-positive k in
    rw (minus_one (used + two_power k) (omega arith) room, rest (omega arith))
      (bit_and-Floor 64 k (used + two_power k - 1) (omega arith) (omega arith))
  where
    minus_one : (n : ℕ) → 0 < n → n < 18446744073709551616 → sub_size (size_of n) 1 ≡ n - 1
    minus_one n h k = omega arith

    rest :
        two_power k < 18446744073709551616
        → complement (sub_size (two_power k) 1) ≡ two_power 64 - two_power k
    rest h = let p = two_power-positive k in omega arith

-- A power of two is accepted.
bad_align-two_power : (k : ℕ) → two_power k < 18446744073709551616 → bad_align (two_power k) ≡ false
unfolding bad_align
bad_align-two_power k small = rw (positive, less, bit_and-below k) refl
  where
    positive : (two_power k == 0) ≡ false
    positive = let h = two_power-positive k in ground arith

    less : sub_size (two_power k) 1 ≡ two_power k - 1
    less = let h = two_power-positive k in omega arith

-- The room test, where no sum wraps.
alloc_at :
    (a : Arena) (base bytes align p : ℕ)
    → a.buffer ≡ some base
    → 0 < bytes
    → bad_align align ≡ false
    → align_up a.used align ≡ p
    → p + bytes < 18446744073709551616
    → arena_alloc a bytes align ≡ (
        if ltb a.size (p + bytes)
        then (none, a)
        else (some (base + p), record a { used = p + bytes }))
unfolding arena_alloc alloc_in
alloc_at a base bytes align p buffer some_bytes good at room =
    ap (λ b. alloc_in b a bytes align) buffer ∙ rw (asked, good, ends, at) refl
  where
    asked : (bytes == 0) ≡ false
    asked = ground arith

    ends : size_of (align_up a.used align + bytes) ≡ p + bytes
    ends = ap (λ q. size_of (q + bytes)) at ∙ fits
      where
        fits : size_of (p + bytes) ≡ p + bytes
        fits = omega arith

-- The sum of two multiples.
sum_multiple : (f x y c d : ℕ) → x ≡ c * f → y ≡ d * f → (count : ℕ) × (x + y ≡ count * f)
sum_multiple f x y c d e e' = (c + d, ap₂ ◌+◌ e e' ∙ sym (add-mul c d f))

-- From an arena whose buffer is at the address `base`, for a request of at least a byte at an alignment of 2 ^ k, where
-- no sum wraps in 64 bits: either a block is given, behind all that was used, which skips fewer bytes than the
-- alignment, ends within the buffer and is all that becomes used; its offset in the buffer is a multiple of the
-- alignment, and so is its address if the buffer's is. Or no pointer is given, nothing changes, and the bytes left,
-- at most the alignment less one of them skipped, are too few.
pub arena_alloc_block :
    (a : Arena) (base bytes k : ℕ)
    → a.buffer ≡ some base
    → 0 < bytes
    → k ≤ 63
    → a.used + two_power k + bytes < 18446744073709551616
    → ((p : ℕ) × (arena_alloc a bytes (two_power k)
          ≡ (some (base + p), record a { used = p + bytes }))
        × ((count : ℕ) × (p ≡ count * two_power k))
        × ((start : ℕ)
            → base ≡ start * two_power k
            → (count : ℕ) × (base + p ≡ count * two_power k))
        × (a.used ≤ p)
        × (p < a.used + two_power k)
        × (p + bytes ≤ a.size))
      ⊎ ((arena_alloc a bytes (two_power k) ≡ (none, a))
          × (a.size + 1 < a.used + two_power k + bytes))
arena_alloc_block a base bytes k buffer some_bytes small room =
    let f = align_up-Floor a.used k small (omega arith) in
    let l = f.low in
    let n = f.near in
    let h = two_power-positive k in
    let e =
      alloc_at a base bytes (two_power k) (align_up a.used (two_power k)) buffer some_bytes
        (bad_align-two_power k (omega arith)) refl (omega arith) in
    elim (Bool-cases (ltb a.size (align_up a.used (two_power k) + bytes))) [
      | inl full ↦
          let o = ltb→lt a.size (align_up a.used (two_power k) + bytes) full in
          inr (e ∙ rw full refl, omega arith)
      | inr fits ↦
          let o = not_ltb→le a.size (align_up a.used (two_power k) + bytes) fits in
          inl (
            align_up a.used (two_power k),
            e ∙ rw fits refl,
            (f.count, f.is_multiple),
            λ start at. sum_multiple (two_power k) base _ start f.count at f.is_multiple,
            omega arith,
            omega arith,
            o,
          )
    ]
