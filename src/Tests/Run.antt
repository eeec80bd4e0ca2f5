-- ===== src/Tests/Run.antt =====
-- Runs of the interpreter.
use v4_engine.Base.{[], ◌∷◌, ◌≢◌}
use v4_engine.Base.{ℕ, zero, suc}
use v4_engine.Interp.Straight.{StraightByte, vm_exec_raw-ends}
use v4_engine.Interp.{Code, byte_at}
use v4_engine.Interp.Loop.{vm_exec_raw}
use v4_engine.Opcode.{decode, find_op, opcode}
use v4_engine.Tests.{clock_env, vm}
use v4_engine.Vm.{starved}

-- LIT0, RET
abbrev returning_code : Code
returning_code = record { bytes = 0x73 ∷ 0x51 ∷ []; len = 2 }

returning-straight : (p : ℕ) → StraightByte (decode (byte_at returning_code p))
unfolding decode find_op opcode
returning-straight zero = tt
returning-straight (suc zero) = tt
returning-straight (suc (suc p)) = tt

vm_exec_raw-ends_example : vm_exec_raw clock_env 3 returning_code vm ≢ starved
vm_exec_raw-ends_example = vm_exec_raw-ends clock_env returning_code vm returning-straight
