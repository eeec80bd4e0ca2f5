-- ===== src/Tests/Memory.antt =====
-- The accesses to RAM at a machine with 64 bytes.
use v4_engine.Base.{◌≡◌, refl, arith}
use v4_engine.Memory.{mem_read32, mem_read8, mem_write32, st_le32, find_mmio}
use v4_engine.Lifecycle.{fresh_vm, config_count}
use v4_engine.Memory.RoundTrip.{with_ram, mem_read32-mem_write32, mem_read8-mem_write32}
use v4_engine.Tests.{vm}
use v4_engine.Vm.{ok, ◌>>=◌}

mem_read32-mem_write32_example :
    (mem_write32 8 0x12345678 >>= λ _. mem_read32 8) (with_ram vm (λ _. 0))
    ≡ ok 0x12345678 (with_ram vm (st_le32 (λ _. 0) 8 0x12345678))
unfolding find_mmio fresh_vm config_count
mem_read32-mem_write32_example =
    mem_read32-mem_write32 vm (λ _. 0) 8 0x12345678 refl (omega arith) refl (omega arith)

mem_read8-mem_write32_example :
    (mem_write32 8 0x12345678 >>= λ _. mem_read8 9) (with_ram vm (λ _. 0))
    ≡ ok 0x56 (with_ram vm (st_le32 (λ _. 0) 8 0x12345678))
unfolding find_mmio fresh_vm config_count
mem_read8-mem_write32_example =
    mem_read8-mem_write32 vm (λ _. 0) 8 0x12345678 9 refl (omega arith) refl (omega arith)
