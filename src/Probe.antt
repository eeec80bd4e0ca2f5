-- ===== src/Probe.antt =====
-- tools/size/probe.cpp: the program whose size is measured. It runs its first argument, or RET, as bytecode.
pub mod Outcomes
use v4_engine.Base.{ℕ, Option, none, some, List, [], ◌∷◌, ◌==◌, if◌then◌else◌, is_negative, length}
use v4_engine.Bare.Main.{int_of, exec_word}
use v4_engine.Dictionary.{vm_register_word, vm_get_word}
use v4_engine.Lifecycle.{VmConfig, vm_create, vm_destroy}
use v4_engine.Vm.{Vm, Env}

-- The bytes that strlen counts: those before the first NUL.
abbrev pub before_nul : List ℕ → List ℕ
before_nul [] = []
before_nul (c ∷ cs) = if c == 0 then [] else c ∷ before_nul cs

-- The bytes to run: those of argv[1] if it is there, else RET.
abbrev pub probe_code : Option (List ℕ) → List ℕ
probe_code none = 0x51 ∷ []
probe_code (some text) = before_nul text

module _ {W : Type 0} where
  abbrev pub probe_config : VmConfig W
  probe_config = record {
    mem = some (λ _. 0);
    mem_size = 1024;
    mmio = none;
    mmio_count = 0;
    arena = none;
  }

module _ {W : Type 0} (env : Env W) (free : W → W) where
  -- vm_destroy(vm); return result != 0; `none` is a run that C++ leaves undefined or that has not ended.
  unfoldable pub end_main : Option (ℕ × Vm W) → Option (ℕ × W)
  unfolding vm_destroy
  end_main none = none
  end_main (some (result, vm)) = some (if result == 0 then 0 else 1, vm_destroy free vm)

  -- The result is the code of a failed registration, or that of the run.
  unfoldable pub run_registered : ℕ → Option (ℕ × Vm W) → Option (ℕ × W)
  unfolding end_main exec_word vm_get_word
  run_registered fuel none = none
  run_registered fuel (some (id, vm)) =
      if is_negative id
      then end_main (some (id, vm))
      else end_main (exec_word env free fuel (vm_get_word id vm) vm)

  -- What follows vm_create, which left the outside at `w` if it failed.
  unfoldable pub probe_made : ℕ → List ℕ → W → Option (Vm W) → Option (ℕ × W)
  unfolding run_registered vm_register_word
  probe_made fuel code w none = some (1, w)
  probe_made fuel code w (some vm) =
      run_registered fuel
        (int_of (λ id. id) (vm_register_word env none (some code) (length code) vm))

  -- main, `bytes` being sizeof(Vm): the exit code and what is left
  unfoldable pub probe_main : ℕ → ℕ → Option (List ℕ) → W → Option (ℕ × W)
  unfolding probe_made vm_create
  probe_main fuel bytes argument w =
      probe_made fuel (probe_code argument) (env.malloc w bytes).world
        (vm_create env bytes probe_config w)
