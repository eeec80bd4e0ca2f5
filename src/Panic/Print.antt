-- ===== src/Panic/Print.antt =====
-- src/panic.cpp: what print_panic prints, as its lines with the values in them.
use v4_engine.Base.{
  ℕ, zero, suc, ◌+◌, ◌-◌, Option, none, some, List, [], ◌∷◌, ◌++◌, ltb, leb, if◌then◌else◌,
}
use v4_engine.Stack.{vm_rs_copy_to_array}
use v4_engine.Vm.{Vm, PanicInfo}

pub data Line : Type 0 where
  -- the empty line
  blank : Line
  -- the two rules, "V4 PANIC" and the last one
  title : Line
  rule : Line
  -- "Error:", with the code
  error : ℕ → Line
  -- "PC:"
  pc : ℕ → Line
  -- "Data Stack:", with the depth and, if there are some, the values of TOS and NOS
  data_stack : ℕ → Option ℕ → Option ℕ → Line
  -- "Return Stack:", with the depth
  return_stack : ℕ → Line
  -- "Call trace:"
  call_trace : Line
  -- one entry, with its index
  entry : ℕ → ℕ → Line
  -- "... (%d more entries)"
  more : ℕ → Line

-- for (int i = 0; i < count; i++), with `n` entries left
unfoldable pub trace_from : (ℕ → ℕ) → ℕ → ℕ → List Line
trace_from rs_data zero i = []
trace_from rs_data (suc n) i = Line.entry i (rs_data i) ∷ trace_from rs_data n (i + 1)

unfoldable pub data_line : PanicInfo → Line
data_line info =
    if info.has_stack_data
    then Line.data_stack info.ds_depth (some info.tos)
        (if leb 2 info.ds_depth then some info.nos else none)
    else Line.data_stack info.ds_depth none none

module _ {W : Type 0} where
  -- The call trace: the array of 16 is filled by vm_rs_copy_to_array.
  unfoldable pub trace : Vm W → PanicInfo → List Line
  unfolding trace_from vm_rs_copy_to_array
  trace vm info =
      let copied = vm_rs_copy_to_array vm (λ _. 0) 16 in
      if ltb 0 info.rs_depth
      then Line.call_trace
        ∷ (trace_from copied.1 copied.0 0
            ++ (if ltb 16 info.rs_depth then Line.more (info.rs_depth - 16) ∷ [] else []))
      else []

  unfoldable pub print_panic : Vm W → PanicInfo → List Line
  unfolding trace data_line
  print_panic vm info =
      Line.blank
      ∷ Line.title
      ∷ Line.error info.error_code
      ∷ Line.pc info.pc
      ∷ data_line info
      ∷ Line.return_stack info.rs_depth
      ∷ (trace vm info ++ (Line.rule ∷ Line.blank ∷ []))
