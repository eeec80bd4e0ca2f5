-- ===== src/Program/Effects.antt =====
-- The opcodes without an operand, in vm_exec_raw of src/core.cpp, at any place of the code.
use v4_engine.Base.{ℕ, ◌≡◌, refl}
use v4_engine.Interp.{Code, plain}
use v4_engine.Interp.Call.{Runner}
use v4_engine.Interp.Loop.{exec_op}
use v4_engine.Opcode.{Op}
use v4_engine.Program.{IsPlain, effect}
use v4_engine.Vm.{Vm, Env, Outcome, ok, stop, fault, starved, then_run, M, pure}

module _ {W : Type 0} where
  -- A step whose value is dropped.
  dropped :
      (r : Outcome W (Unit {0})) (ip : ℕ)
      → then_run r (λ _. pure ip)
        ≡ then_run (then_run (then_run r (λ _. pure {A = ℕ} 0)) (λ _. pure tt)) (λ _. pure ip)
  dropped (ok _ vm) ip = refl
  dropped (stop e vm) ip = refl
  dropped fault ip = refl
  dropped starved ip = refl

  plain-effect :
      (m : M W (Unit {0})) (ip : ℕ) (vm : Vm W)
      → plain m ip vm ≡ then_run (then_run (plain m 0 vm) (λ _. pure tt)) (λ _. pure ip)
  unfolding plain
  plain-effect m ip vm = dropped (m vm) ip

module _ {W : Type 0} (env : Env W) where
  -- Neither the place of such an opcode nor the code around it matters.
  pub exec_op-effect :
      (o : Op) (run : Runner W) (fuel : ℕ) (code : Code) (ip : ℕ) (vm : Vm W)
      → IsPlain o
      → exec_op env o run fuel code ip vm ≡ then_run (effect env o vm) (λ _. pure ip)
  unfolding exec_op effect
  exec_op-effect Op.dup run fuel code ip vm h = plain-effect _ ip vm
  exec_op-effect Op.drop run fuel code ip vm h = plain-effect _ ip vm
  exec_op-effect Op.swap run fuel code ip vm h = plain-effect _ ip vm
  exec_op-effect Op.over run fuel code ip vm h = plain-effect _ ip vm
  exec_op-effect Op.add run fuel code ip vm h = plain-effect _ ip vm
  exec_op-effect Op.sub run fuel code ip vm h = plain-effect _ ip vm
  exec_op-effect Op.mul run fuel code ip vm h = plain-effect _ ip vm
  exec_op-effect Op.div run fuel code ip vm h = plain-effect _ ip vm
  exec_op-effect Op.modulo run fuel code ip vm h = plain-effect _ ip vm
  exec_op-effect Op.divu run fuel code ip vm h = plain-effect _ ip vm
  exec_op-effect Op.modu run fuel code ip vm h = plain-effect _ ip vm
  exec_op-effect Op.inc run fuel code ip vm h = plain-effect _ ip vm
  exec_op-effect Op.dec run fuel code ip vm h = plain-effect _ ip vm
  exec_op-effect Op.eq run fuel code ip vm h = plain-effect _ ip vm
  exec_op-effect Op.ne run fuel code ip vm h = plain-effect _ ip vm
  exec_op-effect Op.lt run fuel code ip vm h = plain-effect _ ip vm
  exec_op-effect Op.le run fuel code ip vm h = plain-effect _ ip vm
  exec_op-effect Op.gt run fuel code ip vm h = plain-effect _ ip vm
  exec_op-effect Op.ge run fuel code ip vm h = plain-effect _ ip vm
  exec_op-effect Op.ltu run fuel code ip vm h = plain-effect _ ip vm
  exec_op-effect Op.leu run fuel code ip vm h = plain-effect _ ip vm
  exec_op-effect Op.and run fuel code ip vm h = plain-effect _ ip vm
  exec_op-effect Op.or run fuel code ip vm h = plain-effect _ ip vm
  exec_op-effect Op.xor run fuel code ip vm h = plain-effect _ ip vm
  exec_op-effect Op.invert run fuel code ip vm h = plain-effect _ ip vm
  exec_op-effect Op.shl run fuel code ip vm h = plain-effect _ ip vm
  exec_op-effect Op.shr run fuel code ip vm h = plain-effect _ ip vm
  exec_op-effect Op.sar run fuel code ip vm h = plain-effect _ ip vm
  exec_op-effect Op.load run fuel code ip vm h = plain-effect _ ip vm
  exec_op-effect Op.store run fuel code ip vm h = plain-effect _ ip vm
  exec_op-effect Op.load8u run fuel code ip vm h = plain-effect _ ip vm
  exec_op-effect Op.load16u run fuel code ip vm h = plain-effect _ ip vm
  exec_op-effect Op.store8 run fuel code ip vm h = plain-effect _ ip vm
  exec_op-effect Op.store16 run fuel code ip vm h = plain-effect _ ip vm
  exec_op-effect Op.load8s run fuel code ip vm h = plain-effect _ ip vm
  exec_op-effect Op.load16s run fuel code ip vm h = plain-effect _ ip vm
  exec_op-effect Op.select run fuel code ip vm h = plain-effect _ ip vm
  exec_op-effect Op.sys run fuel code ip vm h = plain-effect _ ip vm
  exec_op-effect Op.tor run fuel code ip vm h = plain-effect _ ip vm
  exec_op-effect Op.fromr run fuel code ip vm h = plain-effect _ ip vm
  exec_op-effect Op.rfetch run fuel code ip vm h = plain-effect _ ip vm
  exec_op-effect Op.lit0 run fuel code ip vm h = plain-effect _ ip vm
  exec_op-effect Op.lit1 run fuel code ip vm h = plain-effect _ ip vm
  exec_op-effect Op.litn1 run fuel code ip vm h = plain-effect _ ip vm
  exec_op-effect Op.lget0 run fuel code ip vm h = plain-effect _ ip vm
  exec_op-effect Op.lget1 run fuel code ip vm h = plain-effect _ ip vm
  exec_op-effect Op.lset0 run fuel code ip vm h = plain-effect _ ip vm
  exec_op-effect Op.lset1 run fuel code ip vm h = plain-effect _ ip vm
  exec_op-effect _ run fuel code ip vm h = absurd h
