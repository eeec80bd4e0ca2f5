-- ===== src/Memory.antt =====
-- src/memory.cpp and include/v4/internal/memory.hpp: RAM and memory-mapped windows.
pub mod Bytes
pub mod RoundTrip
use v4_engine.Base.{
  ℕ, zero, suc, ◌+◌, ◌-◌, ◌*◌, ◌/◌, ◌%◌, ◌^◌, Bool, true, false, Option, none, some, ltb, leb, ◌==◌,
  ◌&&◌, if◌then◌else◌, update,
}
use v4_engine.Err.{Err, v4_err}
use v4_engine.Vm.{Vm, Mmio, Outcome, ok, stop, fault, starved, M, ◌>>=◌}

-- ld_le32, st_le32, ld_le16 and st_le16 at `&mem[p]`
unfoldable pub ld_le32 : (ℕ → ℕ) → ℕ → ℕ
ld_le32 mem p = mem p + mem (p + 1) * 2 ^ 8 + mem (p + 2) * 2 ^ 16 + mem (p + 3) * 2 ^ 24

unfoldable pub st_le32 : (ℕ → ℕ) → ℕ → ℕ → ℕ → ℕ
st_le32 mem p v =
    update
      (update (update (update mem p (v % 2 ^ 8)) (p + 1) (v / 2 ^ 8 % 2 ^ 8)) (p + 2)
        (v / 2 ^ 16 % 2 ^ 8))
      (p + 3) (v / 2 ^ 24 % 2 ^ 8)

unfoldable pub ld_le16 : (ℕ → ℕ) → ℕ → ℕ
ld_le16 mem p = mem p + mem (p + 1) * 2 ^ 8

unfoldable pub st_le16 : (ℕ → ℕ) → ℕ → ℕ → ℕ → ℕ
st_le16 mem p v = update (update mem p (v % 2 ^ 8)) (p + 1) (v / 2 ^ 8 % 2 ^ 8)

-- (addr & 3u) == 0u
unfoldable pub is_aligned4 : ℕ → Bool
is_aligned4 addr = addr % 4 == 0

-- v4_is_in_ram returns 0. The sum is made in 64 bits, so it does not wrap.
unfoldable pub is_in_ram : Option (ℕ → ℕ) → ℕ → ℕ → ℕ → Bool
is_in_ram none mem_size addr bytes = false
is_in_ram (some mem) mem_size addr bytes = leb (addr + bytes) mem_size

module _ {W : Type 0} where
  -- addr >= base && (addr - base) < size
  unfoldable pub covers : Mmio W → ℕ → Bool
  covers m addr = leb m.base addr && ltb (addr - m.base) m.size

  -- The loop of find_mmio at window `i`, with `n` windows left.
  unfoldable pub find_from : (ℕ → Mmio W) → ℕ → ℕ → ℕ → Option (Mmio W)
  find_from mmio zero i addr = none
  find_from mmio (suc n) i addr =
      let rest = find_from mmio n (i + 1) addr in
      if covers (mmio i) addr then some (mmio i) else rest

  -- The first window that covers an address; `none` is the index -1.
  unfoldable pub find_mmio : Vm W → ℕ → Option (Mmio W)
  unfolding find_from covers
  find_mmio vm addr = find_from vm.mmio vm.mmio_count 0 addr

  -- A call through a window's callback, which a null pointer forbids. The callback's own code comes back.
  unfoldable pub mmio_read32 : Option (W → ℕ → record { err : ℕ; out : ℕ; world : W }) → ℕ → M W ℕ
  mmio_read32 none addr vm = stop (v4_err Err.oob_memory) vm
  mmio_read32 (some read32) addr vm =
      let r = read32 vm.world addr in
      let vm' = record vm { world = r.world } in if r.err == 0 then ok r.out vm' else stop r.err vm'

  unfoldable pub mmio_write32 :
      Option (W → ℕ → ℕ → record { err : ℕ; world : W }) → ℕ → ℕ → M W (Unit {0})
  mmio_write32 none addr val vm = stop (v4_err Err.oob_memory) vm
  mmio_write32 (some write32) addr val vm =
      let r = write32 vm.world addr val in
      let vm' = record vm { world = r.world } in if r.err == 0 then ok tt vm' else stop r.err vm'

  -- The access to RAM: range before alignment. These errors are returned with no panic report.
  unfoldable pub ram_check : ℕ → ℕ → Bool → M W (Unit {0})
  unfolding is_in_ram
  ram_check addr bytes aligned vm =
      if is_in_ram vm.mem vm.mem_size addr bytes
      then if aligned then ok tt vm else stop (v4_err Err.unaligned) vm
      else stop (v4_err Err.oob_memory) vm

  -- vm->mem, which the range check has found not to be null
  unfoldable pub ram : Vm W → ℕ → ℕ
  ram vm addr = elim vm.mem [ none ↦ 0 | some cells ↦ cells addr ]

  unfoldable pub set_ram : (ℕ → ℕ) → M W (Unit {0})
  set_ram cells vm = ok tt (record vm { mem = some cells })

  unfoldable pub mem_read32 : ℕ → M W ℕ
  unfolding find_mmio is_aligned4 mmio_read32 ram_check ram ld_le32
  mem_read32 addr vm = elim (find_mmio vm addr) [
    | some m ↦
        if is_aligned4 addr then mmio_read32 m.read32 addr vm else stop (v4_err Err.unaligned) vm
    | none ↦ (ram_check addr 4 (is_aligned4 addr) >>= λ _ vm'. ok (ld_le32 (ram vm') addr) vm') vm
  ]

  unfoldable pub mem_write32 : ℕ → ℕ → M W (Unit {0})
  unfolding find_mmio is_aligned4 mmio_write32 ram_check ram set_ram st_le32
  mem_write32 addr val vm = elim (find_mmio vm addr) [
    | some m ↦
        if is_aligned4 addr
        then mmio_write32 m.write32 addr val vm
        else stop (v4_err Err.unaligned) vm
    | none ↦
        (ram_check addr 4 (is_aligned4 addr) >>= λ _ vm'. set_ram (st_le32 (ram vm') addr val) vm')
          vm
  ]

  unfoldable pub mem_read8 : ℕ → M W ℕ
  unfolding ram_check ram
  mem_read8 addr = ram_check addr 1 true >>= λ _ vm. ok (ram vm addr) vm

  unfoldable pub mem_read16 : ℕ → M W ℕ
  unfolding ram_check ram ld_le16
  mem_read16 addr = ram_check addr 2 true >>= λ _ vm. ok (ld_le16 (ram vm) addr) vm

  unfoldable pub mem_write8 : ℕ → ℕ → M W (Unit {0})
  unfolding ram_check ram set_ram
  mem_write8 addr val =
      ram_check addr 1 true >>= λ _ vm. set_ram (update (ram vm) addr (val % 2 ^ 8)) vm

  unfoldable pub mem_write16 : ℕ → ℕ → M W (Unit {0})
  unfolding ram_check ram set_ram st_le16
  mem_write16 addr val =
      ram_check addr 2 true >>= λ _ vm. set_ram (st_le16 (ram vm) addr (val % 2 ^ 16)) vm

  -- The public wrappers record the code in `last_err`. A read's code, with the machine and, on success, `*out`.
  unfoldable pub record_err : {A : Type 0} → Outcome W A → Outcome W A
  record_err (ok a vm) = ok a (record vm { last_err = 0 })
  record_err (stop e vm) = stop e (record vm { last_err = e })
  record_err fault = fault
  record_err starved = starved

  unfoldable pub vm_mem_read32 : ℕ → M W ℕ
  unfolding mem_read32 record_err
  vm_mem_read32 addr vm = record_err (mem_read32 addr vm)

  unfoldable pub vm_mem_write32 : ℕ → ℕ → M W (Unit {0})
  unfolding mem_write32 record_err
  vm_mem_write32 addr val vm = record_err (mem_write32 addr val vm)
