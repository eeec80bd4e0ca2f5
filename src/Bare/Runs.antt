-- ===== src/Bare/Runs.antt =====
-- The run of main of bare-metal/riscv32/main.c.
use v4_engine.Base.{ℕ, suc, Option, none, some, ◌≡◌, refl, ◌∙◌, if◌then◌else◌, Bool-cases, inl, inr}
use v4_engine.Arena.{Arena}
use v4_engine.Bare.Main.{Run, banner, made, main_config, bare_main}
use v4_engine.Bare.{digits}
use v4_engine.Lifecycle.{vm_create, fresh_vm}
use v4_engine.Alu.{binary}
use v4_engine.Interp.{literal_op, plain, binary_op, read_i32_le}
use v4_engine.Interp.Loop.{exec_byte}
use v4_engine.Opcode.{decode}
use v4_engine.Stack.{ds_push, ds_pop}
use v4_engine.Vm.{Env}

-- The code that main returns and what it leaves.
abbrev pub outcome : {W : Type 0} → Run W → Option (ℕ × W)
outcome none = none
outcome (some (code, text, w)) = some (code, w)

module _ {W : Type 0} (env : Env W) (free : W → W) where
  outcome-banner : (run : Run W) → outcome (banner env free run) ≡ outcome run
  outcome-banner none = refl
  outcome-banner (some (code, texts, w)) = refl

  not_made :
      (fuel : ℕ) (w : W) → outcome (made env free (suc (suc (suc (suc fuel)))) w none) ≡ some (1, w)
  unfolding made
  not_made fuel w = refl

  made_passes :
      (fuel : ℕ) (arena : Option Arena) (w v : W)
      → outcome (
          made env free
            (suc (suc (suc (suc fuel))))
            v
            (some (fresh_vm (main_config env free arena) w)))
        ≡ some (0, free w)
  unfolding made fresh_vm exec_byte decode literal_op ds_push plain binary_op ds_pop binary
      read_i32_le digits
  made_passes fuel none w v = refl
  made_passes fuel (some a) w v = refl

  started :
      (fuel bytes : ℕ) (arena : Option Arena) (w : W)
      → outcome (
          made env free
            (suc (suc (suc (suc fuel))))
            (env.malloc w bytes).world
            (vm_create env bytes (main_config env free arena) w))
        ≡ (if (env.malloc w bytes).met
            then some (0, free (env.malloc w bytes).world)
            else some (1, (env.malloc w bytes).world))
  unfolding vm_create
  started fuel bytes arena w = elim (Bool-cases (env.malloc w bytes).met) [
    | inl met ↦
        rw met (made_passes fuel arena (env.malloc w bytes).world (env.malloc w bytes).world)
    | inr refused ↦ rw refused (not_made fuel (env.malloc w bytes).world)
  ]

  -- main, whatever the bits of the arena pointer that it leaves unset: when malloc grants the machine, four
  -- instructions' fuel is enough for each of its two programs, main returns 0 and frees what it was granted; when malloc
  -- does not, it returns 1 and frees nothing.
  pub bare_main-outcome :
      (fuel bytes : ℕ) (arena : Option Arena) (w : W)
      → outcome (bare_main env free (suc (suc (suc (suc fuel)))) bytes arena w) ≡ (
          if (env.malloc w bytes).met
          then some (0, free (env.malloc w bytes).world)
          else some (1, (env.malloc w bytes).world))
  unfolding bare_main
  bare_main-outcome fuel bytes arena w =
      outcome-banner (
        made env free (suc (suc (suc (suc fuel)))) (env.malloc w bytes).world
          (vm_create env bytes (main_config env free arena) w))
      ∙ started fuel bytes arena w
