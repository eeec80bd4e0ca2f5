-- ===== src/Panic.antt =====
-- src/panic.cpp: the panic report. The printed diagnostics are left out; they change no state.
pub mod Print
pub mod Report
use v4_engine.Base.{ℕ, ◌-◌, Option, none, some, ltb, leb, if◌then◌else◌, u8, ◌||◌, is_negative}
use v4_engine.Err.{Err, v4_err}
use v4_engine.Vm.{Vm, PanicInfo, stop, M}

module _ {W : Type 0} where
  -- vm_ds_depth_public and vm_rs_depth_public of src/core.cpp at a vm that is not null
  unfoldable pub vm_ds_depth : Vm W → ℕ
  vm_ds_depth vm = vm.sp

  unfoldable pub vm_rs_depth : Vm W → ℕ
  vm_rs_depth vm = vm.rp

  -- vm_ds_peek_public: an index that is negative as an `int`, or not below the depth, reads 0.
  unfoldable pub vm_ds_peek : Vm W → ℕ → ℕ
  vm_ds_peek vm i = if is_negative i || leb vm.sp i then 0 else vm.ds (vm.sp - 1 - i)

  -- for (int i = 0; i < 4 && i < info.ds_depth; ++i), on an array of zeros; `ds_depth` is a uint8_t
  unfoldable pub panic_stack : Vm W → ℕ → ℕ
  panic_stack vm i =
      if ltb i 4 then if ltb i (u8 (vm_ds_depth vm)) then vm_ds_peek vm i else 0 else 0

  unfoldable pub panic_info : Vm W → ℕ → PanicInfo
  unfolding vm_ds_depth vm_rs_depth vm_ds_peek panic_stack
  panic_info vm code = record {
    error_code = code;
    pc = 0;
    tos = panic_stack vm 0;
    nos = panic_stack vm 1;
    ds_depth = u8 (vm_ds_depth vm);
    rs_depth = u8 (vm_rs_depth vm);
    has_stack_data = ltb 0 (u8 (vm_ds_depth vm));
    stack = panic_stack vm;
  }

  unfoldable pub vm_set_panic_handler : Vm W → Option (W → PanicInfo → W) → Vm W
  vm_set_panic_handler vm handler = record vm { panic_handler = handler }

  -- The call of the handler, if one is registered.
  unfoldable pub report_panic : Option (W → PanicInfo → W) → Vm W → ℕ → Vm W
  report_panic none vm code = vm
  report_panic (some handler) vm code = record vm { world = handler vm.world (panic_info vm code) }

  -- return vm_panic(vm, V4_ERR(e))
  unfoldable pub vm_panic : {A : Type 0} → Err → M W A
  unfolding report_panic
  vm_panic e vm = stop (v4_err e) (report_panic vm.panic_handler vm (v4_err e))
