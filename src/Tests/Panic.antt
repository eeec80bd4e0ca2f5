-- ===== src/Tests/Panic.antt =====
-- A panic at a full stack.
use v4_engine.Base.{ℕ, ◌+◌, ◌≡◌, refl, some, u8}
use v4_engine.Err.{Err, v4_err}
use v4_engine.Panic.Report.{empty_report, ds_push-empty_report}
use v4_engine.Stack.{ds_push}
use v4_engine.Tests.{vm}
use v4_engine.Vm.{Vm, PanicInfo, stop}

-- The handler adds the depth that it is told.
abbrev count_depth : ℕ → PanicInfo → ℕ
count_depth w info = w + info.ds_depth

abbrev full_vm : Vm ℕ
full_vm = record vm { sp = 256; panic_handler = some count_depth }

ds_push-empty_report_example :
    ds_push 7 full_vm
    ≡ stop (v4_err Err.stack_overflow) (record full_vm {
      world = count_depth full_vm.world (empty_report (v4_err Err.stack_overflow) (u8 full_vm.rp));
    })
ds_push-empty_report_example = ds_push-empty_report full_vm 7 count_depth refl refl
