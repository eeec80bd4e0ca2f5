-- ===== src/Tests/Words.antt =====
-- A word that is registered, and a division.
use v4_engine.Alu.{binary, value}
use v4_engine.Alu.Division.{IsQuotient, binary-IsQuotient}
use v4_engine.Base.{ℕ, ◌≡◌, refl, arith, some, [], ◌∷◌}
use v4_engine.Dictionary.{vm_register_word}
use v4_engine.Dictionary.Lookup.{FindsAfter, register-FindsAfter}
use v4_engine.Opcode.{Op}
use v4_engine.Tests.{clock_env, vm}

register-FindsAfter_example :
    FindsAfter
      (65 ∷ [])
      (66 ∷ [])
      vm
      (vm_register_word clock_env (some (65 ∷ [])) (some (0x51 ∷ [])) 1 vm)
register-FindsAfter_example = register-FindsAfter clock_env (65 ∷ []) (66 ∷ []) (0x51 ∷ []) 1 vm

-- -7 by 2
binary-IsQuotient_example :
    (quot : ℕ) × (rem : ℕ) × (binary Op.div 4294967289 2 ≡ value quot)
    × (binary Op.modulo 4294967289 2 ≡ value rem)
    × IsQuotient 4294967289 2 quot rem
binary-IsQuotient_example =
    binary-IsQuotient 4294967289 2 (omega arith) (omega arith) (λ e. absurd (omega arith)) refl
