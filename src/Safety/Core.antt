-- ===== src/Safety/Core.antt =====
-- The invariant and the stack and memory functions of src/core.cpp and src/memory.cpp.
use v4_engine.Base.{
  ℕ, ◌+◌, ◌-◌, ◌≤◌, Bool, true, Option, none, some, inl, inr, arith, ltb, leb, ◌==◌, ◌≡◌,
  Bool-cases, refl,
}
use v4_engine.Err.{Err}
use v4_engine.Panic.{report_panic, vm_panic}
use v4_engine.Stack.{ds_push, ds_pop, ds_peek, rs_push, rs_pop, rs_peek}
use v4_engine.Memory.{
  find_mmio, is_aligned4, is_in_ram, mmio_read32, mmio_write32, ram_check, set_ram, mem_read32,
  mem_write32, mem_read8, mem_read16, mem_write8, mem_write16,
}
use v4_engine.Safety.{IsValid, Safe, goes_on, returned, Keeps, Keeps-bind, Safe-if, then_run-Safe}
use v4_engine.Vm.{Vm, Mmio, PanicInfo, ds_cap, rs_cap}

module _ {W : Type 0} where
  -- New stack contents, with both pointers in range.
  pub stacks-IsValid :
      {vm : Vm W} (ds rs : ℕ → ℕ) (sp rp : ℕ)
      → sp ≤ ds_cap
      → rp ≤ rs_cap
      → IsValid vm
      → IsValid (record vm { ds = ds; rs = rs; sp = sp; rp = rp })
  stacks-IsValid ds rs sp rp hs hr v = record {
    sp_in = hs;
    rp_in = hr;
    fp_in = v.fp_in;
    words_in = v.words_in;
    mmio_in = v.mmio_in;
    sched_in = v.sched_in;
    queue_in = v.queue_in;
  }

  pub world-IsValid : {vm : Vm W} (w : W) → IsValid vm → IsValid (record vm { world = w })
  world-IsValid w v = assumption

  pub mem-IsValid : {vm : Vm W} (m : Option (ℕ → ℕ)) → IsValid vm → IsValid (record vm { mem = m })
  mem-IsValid m v = assumption

  pub report_panic-IsValid :
      (h : Option (W → PanicInfo → W)) (vm : Vm W) (code : ℕ)
      → IsValid vm
      → IsValid (report_panic h vm code)
  unfolding report_panic
  report_panic-IsValid none vm code v = v
  report_panic-IsValid (some handler) vm code v = world-IsValid _ v

  pub vm_panic-Keeps : {A : Type 0} (e : Err) → Keeps (vm_panic {W = W} {A = A} e)
  unfolding vm_panic
  vm_panic-Keeps e vm v = returned (report_panic-IsValid vm.panic_handler vm _ v)

  pub ds_push-Keeps : (a : ℕ) → Keeps (ds_push {W = W} a)
  unfolding ds_push
  ds_push-Keeps a vm v = elim (Bool-cases (leb ds_cap vm.sp)) [
    | inl full ↦ rw full (vm_panic-Keeps _ vm v)
    | inr room ↦
        rw room (goes_on (stacks-IsValid _ vm.rs (vm.sp + 1) vm.rp (ground arith) v.rp_in v))
  ]

  pub ds_pop-Keeps : Keeps (ds_pop {W = W})
  unfolding ds_pop
  ds_pop-Keeps vm v =
      Safe-if (leb vm.sp 0) (vm_panic-Keeps _ vm v)
        (goes_on (stacks-IsValid vm.ds vm.rs (vm.sp - 1) vm.rp (omega arith) v.rp_in v))

  pub ds_peek-Keeps : (i : ℕ) → Keeps (ds_peek {W = W} i)
  unfolding ds_peek
  ds_peek-Keeps i vm v = Safe-if (ltb vm.sp (i + 1)) (vm_panic-Keeps _ vm v) (goes_on v)

  pub rs_push-Keeps : (a : ℕ) → Keeps (rs_push {W = W} a)
  unfolding rs_push
  rs_push-Keeps a vm v = elim (Bool-cases (leb rs_cap vm.rp)) [
    | inl full ↦ rw full (vm_panic-Keeps _ vm v)
    | inr room ↦
        rw room (goes_on (stacks-IsValid vm.ds _ vm.sp (vm.rp + 1) v.sp_in (ground arith) v))
  ]

  pub rs_pop-Keeps : Keeps (rs_pop {W = W})
  unfolding rs_pop
  rs_pop-Keeps vm v =
      Safe-if (leb vm.rp 0) (vm_panic-Keeps _ vm v)
        (goes_on (stacks-IsValid vm.ds vm.rs vm.sp (vm.rp - 1) v.sp_in (omega arith) v))

  pub rs_peek-Keeps : (i : ℕ) → Keeps (rs_peek {W = W} i)
  unfolding rs_peek
  rs_peek-Keeps i vm v = Safe-if (ltb vm.rp (i + 1)) (vm_panic-Keeps _ vm v) (goes_on v)

  ram_check-Keeps : (addr bytes : ℕ) (aligned : Bool) → Keeps (ram_check {W = W} addr bytes aligned)
  unfolding ram_check
  ram_check-Keeps addr bytes aligned vm v =
      Safe-if (is_in_ram vm.mem vm.mem_size addr bytes) (Safe-if aligned (goes_on v) (returned v))
        (returned v)

  set_ram-Keeps : (cells : ℕ → ℕ) → Keeps (set_ram {W = W} cells)
  unfolding set_ram
  set_ram-Keeps cells vm v = goes_on (mem-IsValid _ v)

  mmio_read32-Keeps :
      (f : Option (W → ℕ → record { err : ℕ; out : ℕ; world : W })) (addr : ℕ)
      → Keeps (mmio_read32 f addr)
  unfolding mmio_read32
  mmio_read32-Keeps none addr vm v = returned v
  mmio_read32-Keeps (some f) addr vm v =
      Safe-if ((f vm.world addr).err == 0) (goes_on (world-IsValid _ v))
        (returned (world-IsValid _ v))

  mmio_write32-Keeps :
      (f : Option (W → ℕ → ℕ → record { err : ℕ; world : W })) (addr val : ℕ)
      → Keeps (mmio_write32 f addr val)
  unfolding mmio_write32
  mmio_write32-Keeps none addr val vm v = returned v
  mmio_write32-Keeps (some f) addr val vm v =
      Safe-if ((f vm.world addr val).err == 0) (goes_on (world-IsValid _ v))
        (returned (world-IsValid _ v))

  pub mem_read32-Keeps : (addr : ℕ) → Keeps (mem_read32 {W = W} addr)
  unfolding mem_read32
  mem_read32-Keeps addr vm v = go (find_mmio vm addr) refl
    where
      go : (o : Option (Mmio W)) → find_mmio vm addr ≡ o → Safe (mem_read32 addr vm)
      go (some m) e =
          rw (e, mem_read32)
            (Safe-if (is_aligned4 addr) (mmio_read32-Keeps m.read32 addr vm v) (returned v))
      go none e =
          rw (e, mem_read32)
            (then_run-Safe (ram_check-Keeps addr 4 (is_aligned4 addr) vm v)
              (λ _ vm' v'. goes_on v'))

  pub mem_write32-Keeps : (addr val : ℕ) → Keeps (mem_write32 {W = W} addr val)
  unfolding mem_write32
  mem_write32-Keeps addr val vm v = go (find_mmio vm addr) refl
    where
      go : (o : Option (Mmio W)) → find_mmio vm addr ≡ o → Safe (mem_write32 addr val vm)
      go (some m) e =
          rw (e, mem_write32)
            (Safe-if (is_aligned4 addr) (mmio_write32-Keeps m.write32 addr val vm v) (returned v))
      go none e =
          rw (e, mem_write32)
            (then_run-Safe (ram_check-Keeps addr 4 (is_aligned4 addr) vm v)
              (λ _ vm' v'. set_ram-Keeps _ vm' v'))

  pub mem_read8-Keeps : (addr : ℕ) → Keeps (mem_read8 {W = W} addr)
  unfolding mem_read8
  mem_read8-Keeps addr = Keeps-bind (ram_check-Keeps addr 1 true) (λ _ vm v. goes_on v)

  pub mem_read16-Keeps : (addr : ℕ) → Keeps (mem_read16 {W = W} addr)
  unfolding mem_read16
  mem_read16-Keeps addr = Keeps-bind (ram_check-Keeps addr 2 true) (λ _ vm v. goes_on v)

  pub mem_write8-Keeps : (addr val : ℕ) → Keeps (mem_write8 {W = W} addr val)
  unfolding mem_write8
  mem_write8-Keeps addr val =
      Keeps-bind (ram_check-Keeps addr 1 true) (λ _ vm v. set_ram-Keeps _ vm v)

  pub mem_write16-Keeps : (addr val : ℕ) → Keeps (mem_write16 {W = W} addr val)
  unfolding mem_write16
  mem_write16-Keeps addr val =
      Keeps-bind (ram_check-Keeps addr 2 true) (λ _ vm v. set_ram-Keeps _ vm v)
