-- ===== src/Memory/RoundTrip.antt =====
-- The accesses to RAM of src/memory.cpp, one after the other.
use v4_engine.Base.{
  ℕ, ◌+◌, ◌/◌, ◌%◌, ◌^◌, ◌≤◌, ◌<◌, ◌≡◌, refl, ap, true, Bool, none, some, arith, leb, ◌==◌,
  if◌then◌else◌,
}
use v4_engine.Memory.{
  find_mmio, is_aligned4, is_in_ram, ram_check, ram, set_ram, ld_le32, st_le32, mem_read32,
  mem_write32, mem_read8,
}
use v4_engine.Memory.Bytes.{ld_le32-st_le32}
use v4_engine.Memory.{mem_read16, mem_write16, st_le16}
use v4_engine.Memory.Bytes.{ld_le16-st_le16}
use v4_engine.Vm.{Vm, ok, ◌>>=◌, then_run}

module _ {W : Type 0} (vm : Vm W) where
  abbrev pub with_ram : (ℕ → ℕ) → Vm W
  with_ram cells = record vm { mem = some cells }

  ram_check-ok :
      (cells : ℕ → ℕ) (addr bytes : ℕ) (aligned : Bool)
      → addr + bytes ≤ vm.mem_size
      → aligned ≡ true
      → ram_check addr bytes aligned (with_ram cells) ≡ ok tt (with_ram cells)
  unfolding ram_check is_in_ram
  ram_check-ok cells addr bytes aligned h e = rw (fits, e) refl
    where
      fits : leb (addr + bytes) vm.mem_size ≡ true
      fits = ground arith

  is_aligned4-eq : (addr : ℕ) → addr % 4 ≡ 0 → is_aligned4 addr ≡ true
  unfolding is_aligned4
  is_aligned4-eq addr h = rw h refl

  find_mmio-with_ram :
      (cells : ℕ → ℕ) (addr : ℕ) → find_mmio vm addr ≡ none → find_mmio (with_ram cells) addr ≡ none
  unfolding find_mmio
  find_mmio-with_ram cells addr free = free

  mem_write32-ok :
      (cells : ℕ → ℕ) (addr v : ℕ)
      → find_mmio vm addr ≡ none
      → addr + 4 ≤ vm.mem_size
      → addr % 4 ≡ 0
      → mem_write32 addr v (with_ram cells) ≡ ok tt (with_ram (st_le32 cells addr v))
  unfolding mem_write32 ram set_ram
  mem_write32-ok cells addr v free fits aligned =
      rw
        (
          find_mmio-with_ram cells addr free,
          mem_write32,
          ram_check-ok cells addr 4 (is_aligned4 addr) fits (is_aligned4-eq addr aligned),
        )
        refl

  mem_read32-ok :
      (cells : ℕ → ℕ) (addr : ℕ)
      → find_mmio vm addr ≡ none
      → addr + 4 ≤ vm.mem_size
      → addr % 4 ≡ 0
      → mem_read32 addr (with_ram cells) ≡ ok (ld_le32 cells addr) (with_ram cells)
  unfolding mem_read32 ram ld_le32
  mem_read32-ok cells addr free fits aligned =
      rw
        (
          find_mmio-with_ram cells addr free,
          mem_read32,
          ram_check-ok cells addr 4 (is_aligned4 addr) fits (is_aligned4-eq addr aligned),
        )
        refl

  mem_read8-ok :
      (cells : ℕ → ℕ) (addr : ℕ)
      → addr + 1 ≤ vm.mem_size
      → mem_read8 addr (with_ram cells) ≡ ok (cells addr) (with_ram cells)
  unfolding mem_read8 ram
  mem_read8-ok cells addr fits = rw (ram_check-ok cells addr 1 true fits refl) refl

  -- A 32-bit value that is stored at an aligned address within RAM, outside every window, is the value that a load
  -- from there gives back.
  pub mem_read32-mem_write32 :
      (cells : ℕ → ℕ) (addr v : ℕ)
      → find_mmio vm addr ≡ none
      → addr + 4 ≤ vm.mem_size
      → addr % 4 ≡ 0
      → v < 2 ^ 32
      → (mem_write32 addr v >>= λ _. mem_read32 addr) (with_ram cells)
        ≡ ok v (with_ram (st_le32 cells addr v))
  mem_read32-mem_write32 cells addr v free fits aligned h =
      rw
        (
          mem_write32-ok cells addr v free fits aligned,
          mem_read32-ok (st_le32 cells addr v) addr free fits aligned,
          ld_le32-st_le32 cells addr v h,
        )
        refl

  -- After such a store, whatever the value, a byte load gives the bytes of the value at its four addresses, the
  -- lowest first, and at any other address the byte that was there.
  pub mem_read8-mem_write32 :
      (cells : ℕ → ℕ) (addr v p : ℕ)
      → find_mmio vm addr ≡ none
      → addr + 4 ≤ vm.mem_size
      → addr % 4 ≡ 0
      → p < vm.mem_size
      → (mem_write32 addr v >>= λ _. mem_read8 p) (with_ram cells)
        ≡ ok
            (if p == addr
              then v % 2 ^ 8
              else if p == addr + 1
              then v / 2 ^ 8 % 2 ^ 8
              else if p == addr + 2
              then v / 2 ^ 16 % 2 ^ 8
              else if p == addr + 3
              then v / 2 ^ 24 % 2 ^ 8
              else cells p)
            (with_ram (st_le32 cells addr v))
  unfolding st_le32
  mem_read8-mem_write32 cells addr v p free fits aligned h =
      rw
        (
          mem_write32-ok cells addr v free fits aligned,
          mem_read8-ok (st_le32 cells addr v) p (omega arith),
        )
        (ap (λ b. ok b (with_ram (st_le32 cells addr v))) (byte_at_p cells addr v p))
    where
      byte_at_p :
          (cells : ℕ → ℕ) (addr v p : ℕ)
          → st_le32 cells addr v p ≡ (
              if p == addr
              then v % 2 ^ 8
              else if p == addr + 1
              then v / 2 ^ 8 % 2 ^ 8
              else if p == addr + 2
              then v / 2 ^ 16 % 2 ^ 8
              else if p == addr + 3
              then v / 2 ^ 24 % 2 ^ 8
              else cells p)
      byte_at_p cells addr v p = ground arith

  -- A 16-bit value that is stored within RAM, at any address, is the value that a load from there gives back; no
  -- window is looked at.
  mem_read16-mem_write16 :
      (cells : ℕ → ℕ) (addr v : ℕ)
      → addr + 2 ≤ vm.mem_size
      → v < 2 ^ 16
      → (mem_write16 addr v >>= λ _. mem_read16 addr) (with_ram cells)
        ≡ ok v (with_ram (st_le16 cells addr v))
  unfolding mem_write16 mem_read16 ram set_ram
  mem_read16-mem_write16 cells addr v fits h =
      rw
        (
          ram_check-ok cells addr 2 true fits refl,
          small,
          then_run,
          ram_check-ok (st_le16 cells addr v) addr 2 true fits refl,
          ld_le16-st_le16 cells addr v h,
        )
        refl
    where
      small : v % 2 ^ 16 ≡ v
      small = omega arith
