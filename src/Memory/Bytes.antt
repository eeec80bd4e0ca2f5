-- ===== src/Memory/Bytes.antt =====
-- The little-endian loads and stores of src/memory.cpp.
use v4_engine.Base.{ℕ, ◌+◌, ◌*◌, ◌/◌, ◌%◌, ◌^◌, ◌≤◌, ◌<◌, ◌≡◌, arith}
use v4_engine.Memory.{ld_le32, st_le32, ld_le16, st_le16}

pub st_le32-at0 : (mem : ℕ → ℕ) (p v : ℕ) → st_le32 mem p v p ≡ v % 2 ^ 8
unfolding st_le32
st_le32-at0 mem p v = ground arith

pub st_le32-at1 : (mem : ℕ → ℕ) (p v : ℕ) → st_le32 mem p v (p + 1) ≡ v / 2 ^ 8 % 2 ^ 8
unfolding st_le32
st_le32-at1 mem p v = ground arith

pub st_le32-at2 : (mem : ℕ → ℕ) (p v : ℕ) → st_le32 mem p v (p + 2) ≡ v / 2 ^ 16 % 2 ^ 8
unfolding st_le32
st_le32-at2 mem p v = ground arith

pub st_le32-at3 : (mem : ℕ → ℕ) (p v : ℕ) → st_le32 mem p v (p + 3) ≡ v / 2 ^ 24 % 2 ^ 8
unfolding st_le32
st_le32-at3 mem p v = ground arith

pub st_le32-before : (mem : ℕ → ℕ) (p v i : ℕ) → i < p → st_le32 mem p v i ≡ mem i
unfolding st_le32
st_le32-before mem p v i h = ground arith

pub st_le32-after : (mem : ℕ → ℕ) (p v i : ℕ) → p + 4 ≤ i → st_le32 mem p v i ≡ mem i
unfolding st_le32
st_le32-after mem p v i h = ground arith

bytes32 :
    (v : ℕ)
    → v < 2 ^ 32
    → v % 2 ^ 8
        + v / 2 ^ 8 % 2 ^ 8 * 2 ^ 8
        + v / 2 ^ 16 % 2 ^ 8 * 2 ^ 16
        + v / 2 ^ 24 % 2 ^ 8 * 2 ^ 24
      ≡ v
bytes32 v h = omega arith

pub ld_le32-st_le32 : (mem : ℕ → ℕ) (p v : ℕ) → v < 2 ^ 32 → ld_le32 (st_le32 mem p v) p ≡ v
unfolding ld_le32
ld_le32-st_le32 mem p v h =
    rw (st_le32-at0 mem p v, st_le32-at1 mem p v, st_le32-at2 mem p v, st_le32-at3 mem p v)
      (bytes32 v h)

pub ld_le16-st_le16 : (mem : ℕ → ℕ) (p v : ℕ) → v < 2 ^ 16 → ld_le16 (st_le16 mem p v) p ≡ v
unfolding ld_le16 st_le16
ld_le16-st_le16 mem p v h = ground arith
