-- ===== src/Base/Array.antt =====
-- C arrays as functions of the index, and lists indexed by native numbers.
use Prim.Native.Nat.{ℕ, zero, suc}
use mathlib.Core.List.{List, [], ◌∷◌}
use v4_engine.Base.Tests.{ltb, ◌==◌, if◌then◌else◌}

module _ {ℓ} {A : Type ℓ} where
  -- a[i] = v
  abbrev pub update : (ℕ → A) → ℕ → A → ℕ → A
  update a i v j = if i == j then v else a j

  -- memcpy(dst, src, n * sizeof(A)) between distinct arrays
  abbrev pub copy_cells : (ℕ → A) → (ℕ → A) → ℕ → ℕ → A
  copy_cells dst src n j = if ltb j n then src j else dst j

  abbrev pub length : List A → ℕ
  length [] = 0
  length (x ∷ xs) = suc (length xs)

  abbrev pub get_or : List A → ℕ → A → A
  get_or [] i d = d
  get_or (x ∷ xs) zero d = x
  get_or (x ∷ xs) (suc i) d = get_or xs i d

  -- The first n cells of an array, the last one first: a stack whose next free cell is n.
  abbrev pub cells_down : (ℕ → A) → ℕ → List A
  cells_down a zero = []
  cells_down a (suc n) = a n ∷ cells_down a n
