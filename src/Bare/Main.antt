-- ===== src/Bare/Main.antt =====
-- main of bare-metal/riscv32/main.c: a machine is made, runs two short programs and is destroyed.
use v4_engine.Base.{
  ℕ, ◌/◌, ◌%◌, ◌^◌, Option, none, some, List, [], ◌∷◌, ◌++◌, ◌==◌, if◌then◌else◌, is_negative,
}
use Prim.Native.String.{String}
use v4_engine.Arena.{Arena}
use v4_engine.Bare.{put, print_int}
use v4_engine.Dictionary.{vm_register_word, vm_get_word, vm_reset}
use v4_engine.Err.{Err, v4_err}
use v4_engine.Interp.Loop.{vm_exec}
use v4_engine.Lifecycle.{VmConfig, vm_create, vm_destroy}
use v4_engine.Panic.{vm_ds_depth, vm_ds_peek}
use v4_engine.Vm.{Vm, Env, Word, Outcome, ok, stop, fault, starved}

-- emit32; emit8 is one byte.
abbrev pub emit32 : ℕ → List ℕ
emit32 v = v % 2 ^ 8 ∷ v / 2 ^ 8 % 2 ^ 8 ∷ v / 2 ^ 16 % 2 ^ 8 ∷ v / 2 ^ 24 % 2 ^ 8 ∷ []

-- LIT a, LIT b, an opcode, RET
abbrev pub program : ℕ → ℕ → ℕ → List ℕ
program a b op = (0x00 ∷ emit32 a) ++ (0x00 ∷ emit32 b) ++ (op ∷ 0x51 ∷ [])

-- What main returns, what it sends, and what it leaves; `none` is a run that C leaves undefined or that has not ended.
abbrev pub Run : Type 0 → Type 0
Run W = Option (ℕ × List ℕ × W)

module _ {W : Type 0} where
  abbrev pub ends : ℕ → W → Run W
  ends code w = some (code, [], w)

  -- A text is sent first.
  abbrev pub say : Option (List ℕ) → Run W → Run W
  say none run = none
  say (some text) none = none
  say (some text) (some (code, texts, w)) = some (code, text ++ texts, w)

  -- The `int` that a call returns, with the machine afterwards.
  abbrev pub int_of : {A : Type 0} → (A → ℕ) → Outcome W A → Option (ℕ × Vm W)
  int_of value (ok a vm) = some (value a, vm)
  int_of value (stop e vm) = some (e, vm)
  int_of value fault = none
  int_of value starved = none

module _ {W : Type 0} (env : Env W) (free : W → W) where
  -- vm_destroy(vm); return 1;
  abbrev gives_up : Vm W → Run W
  gives_up vm = ends 1 (vm_destroy free vm)

  abbrev with_code : String → ℕ → Vm W → Run W
  with_code text n vm = say (put text) (say (print_int n) (say (put "\r\n") (gives_up vm)))

  -- vm_exec(vm, vm_get_word(vm, word_idx))
  unfoldable pub exec_word : ℕ → Option Word → Vm W → Option (ℕ × Vm W)
  unfolding vm_exec
  exec_word fuel none vm = some (v4_err Err.invalid_arg, vm)
  exec_word fuel (some word) vm = int_of (λ e. absurd e) (vm_exec env fuel word vm)

  -- The result is shown and compared; `next` is what follows a success.
  unfoldable pub show_result : (Vm W → Run W) → Vm W → Run W
  unfolding vm_ds_peek print_int vm_destroy
  show_result next vm =
      let result = vm_ds_peek vm 0 in
      say (put "Result: ") (
        say (print_int result) (
          say (put " (expected 42)\r\n") (
            if result == 42
            then say (put "SUCCESS\r\n\r\n") (next vm)
            else say (put "FAILED\r\n\r\n") (gives_up vm))))

  -- The last part of main.
  unfoldable pub clean_up : Vm W → Run W
  unfolding vm_destroy
  clean_up vm = say (put "[Cleanup] Destroying VM\r\n") (
      say (put "\r\n") (
        say (put "==================================\r\n") (
          say (put " All tests passed!\r\n") (
            say (put "==================================\r\n\r\n") (ends 0 (vm_destroy free vm))))))

  -- What follows vm_exec in phase 3.
  unfoldable pub multiplied : Option (ℕ × Vm W) → Run W
  unfolding show_result clean_up
  multiplied none = none
  multiplied (some (err, vm)) =
      if err == 0
      then show_result clean_up vm
      else say (put "ERROR: VM execution failed\r\n") (gives_up vm)

  -- What follows vm_register_word in phase 3.
  unfoldable pub run_product : ℕ → Option (ℕ × Vm W) → Run W
  unfolding exec_word multiplied vm_get_word
  run_product fuel none = none
  run_product fuel (some (word_idx, vm)) =
      if is_negative word_idx
      then say (put "ERROR: Failed to register word\r\n") (gives_up vm)
      else multiplied (exec_word fuel (vm_get_word word_idx vm) vm)

  -- Phase 3: 7 * 6
  unfoldable pub phase3 : ℕ → Vm W → Run W
  unfolding run_product vm_reset vm_register_word
  phase3 fuel vm = say (put "[Phase 3] Running bytecode: 7 * 6\r\n") (
      run_product fuel (
        int_of (λ idx. idx) (vm_register_word env none (some (program 7 6 0x12)) 12 (vm_reset vm))))

  -- What follows vm_exec in phase 2.
  unfoldable pub added : ℕ → Option (ℕ × Vm W) → Run W
  unfolding show_result phase3 vm_ds_depth
  added fuel none = none
  added fuel (some (err, vm)) =
      if err == 0
      then if vm_ds_depth vm == 1
        then show_result (phase3 fuel) vm
        else with_code "ERROR: Expected stack depth 1, got " (vm_ds_depth vm) vm
      else with_code "ERROR: VM execution failed with error code " err vm

  -- What follows vm_register_word in phase 2.
  unfoldable pub run_sum : ℕ → Option (ℕ × Vm W) → Run W
  unfolding exec_word added vm_get_word
  run_sum fuel none = none
  run_sum fuel (some (word_idx, vm)) =
      if is_negative word_idx
      then with_code "ERROR: Failed to register word, error code " word_idx vm
      else added fuel (exec_word fuel (vm_get_word word_idx vm) vm)

  -- Phase 2: 10 + 32
  unfoldable pub phase2 : ℕ → Vm W → Run W
  unfolding run_sum vm_register_word
  phase2 fuel vm = say (put "[Phase 2] Running bytecode: 10 + 32\r\n") (
      run_sum fuel
        (int_of (λ idx. idx) (vm_register_word env none (some (program 10 32 0x10)) 12 vm)))

  -- What follows vm_create, which left the outside at `w` if it failed.
  unfoldable pub made : ℕ → W → Option (Vm W) → Run W
  unfolding phase2
  made fuel w none = say (put "ERROR: Failed to create VM\r\n") (ends 1 w)
  made fuel w (some vm) = say (put "SUCCESS: VM created\r\n\r\n") (phase2 fuel vm)

  -- The configuration: `arena` is not set, and is whatever the stack held.
  abbrev pub main_config : Option Arena → VmConfig W
  main_config arena = record {
    mem = some (λ _. 0);
    mem_size = 4096;
    mmio = none;
    mmio_count = 0;
    arena = arena;
  }

  -- The first texts of main.
  abbrev pub banner : Run W → Run W
  banner run = say (put "\r\n") (
      say (put "==================================\r\n") (
        say (put " V4 Engine Bare-Metal Test - RISC-V\r\n") (
          say (put "==================================\r\n\r\n")
            (say (put "[Phase 1] Creating VM instance\r\n") run))))

  -- main, `bytes` being sizeof(Vm)
  unfoldable pub bare_main : ℕ → ℕ → Option Arena → W → Run W
  unfolding made vm_create
  bare_main fuel bytes arena w =
      banner (made fuel (env.malloc w bytes).world (vm_create env bytes (main_config arena) w))
