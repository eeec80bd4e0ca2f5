-- ===== src/Tests/Bare.antt =====
-- The programs of bare-metal/riscv32 at concrete numbers and in the environment of the tests.
use v4_engine.Base.{
  ℕ, ◌≤◌, ◌≡◌, refl, none, some, List, ◌==◌, if◌then◌else◌, length, arith, ◌+◌, [], ◌∷◌,
}
use v4_engine.Bare.{print_int, signed, digits, fill, drained, drain}
use v4_engine.Bare.Digits.{read_int}
use v4_engine.Bare.Print.{print_int-read_int}
use v4_engine.Bare.Main.{bare_main}
use v4_engine.Bare.Runs.{outcome, bare_main-outcome}
use v4_engine.Tests.{clock_env}

-- -305
print_int-read_int_example :
    (text : List ℕ) × (print_int 4294966991 ≡ some text)
    × (length text ≤ 11)
    × (read_int text ≡ (if 4294966991 == 2147483648 then 0 else 4294966991))
print_int-read_int_example = print_int-read_int 4294966991 (omega arith)

bare_main-outcome_example : outcome (bare_main clock_env (λ t. t + 1) 4 4000 none 0) ≡ (
    if (clock_env.malloc 0 4000).met
    then some (0, (clock_env.malloc 0 4000).world + 1)
    else some (1, (clock_env.malloc 0 4000).world))
bare_main-outcome_example = bare_main-outcome clock_env (λ t. t + 1) 0 4000 none 0

print_int_least : print_int 2147483648 ≡ some (45 ∷ [])
unfolding print_int signed digits fill drained drain
print_int_least = refl
