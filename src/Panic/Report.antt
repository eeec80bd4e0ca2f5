-- ===== src/Panic/Report.antt =====
-- What src/panic.cpp tells of the stacks.
use v4_engine.Base.{
  ℕ, ◌≡◌, refl, ap, ap₂, le→leb, ◌∙◌, false, some, ltb, u8, arith, Bool-cases, le→not_ltb, fun_ext,
  inl, inr,
}
use v4_engine.Err.{Err, v4_err}
use v4_engine.Panic.{panic_info, panic_stack, vm_ds_depth, vm_rs_depth, vm_panic, report_panic}
use v4_engine.Stack.{ds_push}
use v4_engine.Vm.{Vm, PanicInfo, stop}

-- The report of a data stack that is empty.
abbrev pub empty_report : ℕ → ℕ → PanicInfo
empty_report code rs_depth = record {
  error_code = code;
  pc = 0;
  tos = 0;
  nos = 0;
  ds_depth = 0;
  rs_depth = rs_depth;
  has_stack_data = false;
  stack = λ _. 0;
}

-- A report by the depth of the data stack and its top cells.
abbrev told : ℕ → ℕ → ℕ → (ℕ → ℕ) → PanicInfo
told code rs_depth depth stack = record {
  error_code = code;
  pc = 0;
  tos = stack 0;
  nos = stack 1;
  ds_depth = depth;
  rs_depth = rs_depth;
  has_stack_data = ltb 0 depth;
  stack = stack;
}

module _ {W : Type 0} where
  depth_of_full : (vm : Vm W) → vm.sp ≡ 256 → u8 (vm_ds_depth vm) ≡ 0
  unfolding vm_ds_depth
  depth_of_full vm full = rw full refl

  stack_of_full : (vm : Vm W) → vm.sp ≡ 256 → (i : ℕ) → panic_stack vm i ≡ 0
  unfolding panic_stack
  stack_of_full vm full i = elim (Bool-cases (ltb i 4)) [
    | inl low ↦ rw (low, depth_of_full vm full, le→not_ltb i 0 (omega arith)) refl
    | inr high ↦ rw high refl
  ]

  report_of_full :
      (vm : Vm W) (code : ℕ) → vm.sp ≡ 256 → panic_info vm code ≡ empty_report code (u8 vm.rp)
  unfolding panic_info vm_rs_depth vm_ds_depth
  report_of_full vm code full =
      ap₂ (told code (u8 vm.rp)) (depth_of_full vm full) (fun_ext (stack_of_full vm full))

  -- A push on a full data stack of 256 cells reports the overflow to the handler as that of an empty stack.
  pub ds_push-empty_report :
      (vm : Vm W) (v : ℕ) (handler : W → PanicInfo → W)
      → vm.sp ≡ 256
      → vm.panic_handler ≡ some handler
      → ds_push v vm
        ≡ stop (v4_err Err.stack_overflow) (record vm {
          world = handler vm.world (empty_report (v4_err Err.stack_overflow) (u8 vm.rp));
        })
  unfolding ds_push vm_panic report_panic
  ds_push-empty_report vm v handler full set = rw (le→leb 256 vm.sp (omega arith)) (
      ap (λ o. stop (v4_err Err.stack_overflow) (report_panic o vm (v4_err Err.stack_overflow))) set
      ∙ ap (λ info. stop (v4_err Err.stack_overflow) (record vm { world = handler vm.world info }))
          (report_of_full vm (v4_err Err.stack_overflow) full))
