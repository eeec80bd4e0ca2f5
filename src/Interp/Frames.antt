-- ===== src/Interp/Frames.antt =====
-- The control flow of vm_exec_raw in src/core.cpp: CALL and the frame pointer.
use v4_engine.Base.{
  ℕ, ◌+◌, ◌≡◌, refl, Bool, true, false, Option, none, some, List, ltb, leb, ◌==◌, if◌then◌else◌,
  inl, inr, Bool-cases, u16,
}
use v4_engine.Interp.{Code, operand, read_i16_le}
use v4_engine.Interp.Call.{Runner, return_from, call_code, call_word, call_op}
use v4_engine.Panic.{report_panic, vm_panic}
use v4_engine.Vm.{Vm, PanicInfo, Outcome, ok, stop, fault, starved, then_run}

-- The frame pointer is `fp` in the machine that is left, and execution goes on, if it does, at `next`.
abbrev pub FrameKept : {W : Type 0} → Option ℕ → ℕ → Outcome W ℕ → Type 0
FrameKept fp next (ok ip vm) = (ip ≡ next) × (vm.fp ≡ fp)
FrameKept fp next (stop e vm) = vm.fp ≡ fp
FrameKept fp next fault = Unit
FrameKept fp next starved = Unit

module _ {W : Type 0} (fp : Option ℕ) (next : ℕ) where
  FrameKept-if :
      (b : Bool) (x y : Outcome W ℕ)
      → FrameKept fp next x
      → FrameKept fp next y
      → FrameKept fp next (if b then x else y)
  FrameKept-if true x y hx hy = hx
  FrameKept-if false x y hx hy = hy

  report_panic-fp :
      (h : Option (W → PanicInfo → W)) (vm : Vm W) (code : ℕ)
      → vm.fp ≡ fp
      → (report_panic h vm code).fp ≡ fp
  unfolding report_panic
  report_panic-fp none vm code e = e
  report_panic-fp (some handler) vm code e = e

  return_from-FrameKept : (r : Outcome W ⊥) → FrameKept fp next (return_from fp next r)
  unfolding return_from
  return_from-FrameKept (ok a vm) = absurd a
  return_from-FrameKept (stop e vm) = FrameKept-if (e == 0) _ _ (refl, refl) refl
  return_from-FrameKept fault = tt
  return_from-FrameKept starved = tt

module _ {W : Type 0} (run : Runner W) where
  call_code-FrameKept :
      (code : Option (List ℕ)) (len next : ℕ) (vm : Vm W)
      → FrameKept vm.fp next (call_code run code len next vm)
  unfolding call_code vm_panic
  call_code-FrameKept none len next vm = report_panic-fp vm.fp next vm.panic_handler vm _ refl
  call_code-FrameKept (some bytes) len next vm =
      FrameKept-if vm.fp next (len == 0) _ _ (report_panic-fp vm.fp next vm.panic_handler vm _ refl)
        (return_from-FrameKept vm.fp next
          (run (record { bytes = bytes; len = len }) (record vm { fp = some vm.rp })))

  -- Whatever the called word does to the machine, and however it returns, the caller has its own frame pointer
  -- again after CALL, and goes on, if it does, behind the operand.
  pub call_op-FrameKept :
      (code : Code) (ip : ℕ) (vm : Vm W) → FrameKept vm.fp (ip + 2) (call_op run code ip vm)
  unfolding call_op operand call_word vm_panic
  call_op-FrameKept code ip vm = elim (Bool-cases (ltb code.len (ip + 2))) [
    | inl short ↦ rw (short, then_run) (report_panic-fp vm.fp (ip + 2) vm.panic_handler vm _ refl)
    | inr there ↦
        rw (there, then_run)
          (FrameKept-if vm.fp (ip + 2) (leb (u16 vm.word_count) (read_i16_le code ip)) _ _
            (report_panic-fp vm.fp (ip + 2) vm.panic_handler vm _ refl)
            (call_code-FrameKept (vm.words (read_i16_le code ip)).code
              (vm.words (read_i16_le code ip)).code_len (ip + 2) vm))
  ]
