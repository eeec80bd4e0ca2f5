-- ===== src/Interp/Straight.antt =====
-- The loop of vm_exec_raw in src/core.cpp on code without jumps, calls, memory accesses or tasks.
use v4_engine.Base.{
  ℕ, zero, suc, ◌+◌, ◌≤◌, ◌<◌, ◌≢◌, subst, Option, none, some, arith, ltb, inl, inr, Bool-cases,
}
use v4_engine.Interp.{Code, byte_at}
use v4_engine.Interp.Call.{Runner}
use v4_engine.Interp.Loop.{exec_op, exec_byte, exec_from, vm_exec_raw, returns}
use v4_engine.Opcode.{Op, decode}
use v4_engine.Panic.{vm_panic}
use v4_engine.Vm.{Vm, Env, Outcome, ok, stop, fault, starved, M, then_run}
use v4_engine.Interp.Halts.{
  Fed, Goes, ds_push-Halts, unary_op-Halts, pop_two-Halts, binary_op-Halts, dup_op-Halts,
  drop_op-Halts, swap_op-Halts, over_op-Halts, select_op-Halts, tor_op-Halts, fromr_op-Halts,
  rfetch_op-Halts, plain-Goes, literal_op-Goes,
}

-- The opcodes that go on at the next instruction or return.
abbrev pub IsStraight : Op → Type 0
IsStraight Op.dup = Unit
IsStraight Op.drop = Unit
IsStraight Op.swap = Unit
IsStraight Op.over = Unit
IsStraight Op.select = Unit
IsStraight Op.tor = Unit
IsStraight Op.fromr = Unit
IsStraight Op.rfetch = Unit
IsStraight Op.inc = Unit
IsStraight Op.dec = Unit
IsStraight Op.invert = Unit
IsStraight Op.and = Unit
IsStraight Op.or = Unit
IsStraight Op.xor = Unit
IsStraight Op.shl = Unit
IsStraight Op.shr = Unit
IsStraight Op.sar = Unit
IsStraight Op.add = Unit
IsStraight Op.sub = Unit
IsStraight Op.mul = Unit
IsStraight Op.div = Unit
IsStraight Op.modulo = Unit
IsStraight Op.divu = Unit
IsStraight Op.modu = Unit
IsStraight Op.eq = Unit
IsStraight Op.ne = Unit
IsStraight Op.lt = Unit
IsStraight Op.le = Unit
IsStraight Op.gt = Unit
IsStraight Op.ge = Unit
IsStraight Op.ltu = Unit
IsStraight Op.leu = Unit
IsStraight Op.lit0 = Unit
IsStraight Op.lit1 = Unit
IsStraight Op.litn1 = Unit
IsStraight Op.lit = Unit
IsStraight Op.lit_u8 = Unit
IsStraight Op.lit_i8 = Unit
IsStraight Op.lit_i16 = Unit
IsStraight Op.ret = Unit
IsStraight _ = ⊥

-- No byte of the code decodes to another opcode; a byte that decodes to none is a panic.
abbrev pub StraightByte : Option Op → Type 0
StraightByte none = Unit
StraightByte (some op) = IsStraight op

module _ {W : Type 0} (env : Env W) where
  exec_op-Goes :
      (op : Op) (run : Runner W) (fuel : ℕ) (code : Code) (ip : ℕ) (vm : Vm W)
      → IsStraight op
      → Goes ip (exec_op env op run fuel code ip vm)
  unfolding exec_op returns
  exec_op-Goes Op.dup run fuel code ip vm h = plain-Goes _ ip vm dup_op-Halts
  exec_op-Goes Op.drop run fuel code ip vm h = plain-Goes _ ip vm drop_op-Halts
  exec_op-Goes Op.swap run fuel code ip vm h = plain-Goes _ ip vm swap_op-Halts
  exec_op-Goes Op.over run fuel code ip vm h = plain-Goes _ ip vm over_op-Halts
  exec_op-Goes Op.select run fuel code ip vm h = plain-Goes _ ip vm select_op-Halts
  exec_op-Goes Op.tor run fuel code ip vm h = plain-Goes _ ip vm tor_op-Halts
  exec_op-Goes Op.fromr run fuel code ip vm h = plain-Goes _ ip vm fromr_op-Halts
  exec_op-Goes Op.rfetch run fuel code ip vm h = plain-Goes _ ip vm rfetch_op-Halts
  exec_op-Goes Op.inc run fuel code ip vm h = plain-Goes _ ip vm (unary_op-Halts _)
  exec_op-Goes Op.dec run fuel code ip vm h = plain-Goes _ ip vm (unary_op-Halts _)
  exec_op-Goes Op.invert run fuel code ip vm h = plain-Goes _ ip vm (unary_op-Halts _)
  exec_op-Goes Op.and run fuel code ip vm h = plain-Goes _ ip vm (pop_two-Halts _)
  exec_op-Goes Op.or run fuel code ip vm h = plain-Goes _ ip vm (pop_two-Halts _)
  exec_op-Goes Op.xor run fuel code ip vm h = plain-Goes _ ip vm (pop_two-Halts _)
  exec_op-Goes Op.shl run fuel code ip vm h = plain-Goes _ ip vm (pop_two-Halts _)
  exec_op-Goes Op.shr run fuel code ip vm h = plain-Goes _ ip vm (pop_two-Halts _)
  exec_op-Goes Op.sar run fuel code ip vm h = plain-Goes _ ip vm (pop_two-Halts _)
  exec_op-Goes Op.add run fuel code ip vm h = plain-Goes _ ip vm (binary_op-Halts Op.add)
  exec_op-Goes Op.sub run fuel code ip vm h = plain-Goes _ ip vm (binary_op-Halts Op.sub)
  exec_op-Goes Op.mul run fuel code ip vm h = plain-Goes _ ip vm (binary_op-Halts Op.mul)
  exec_op-Goes Op.div run fuel code ip vm h = plain-Goes _ ip vm (binary_op-Halts Op.div)
  exec_op-Goes Op.modulo run fuel code ip vm h = plain-Goes _ ip vm (binary_op-Halts Op.modulo)
  exec_op-Goes Op.divu run fuel code ip vm h = plain-Goes _ ip vm (binary_op-Halts Op.divu)
  exec_op-Goes Op.modu run fuel code ip vm h = plain-Goes _ ip vm (binary_op-Halts Op.modu)
  exec_op-Goes Op.eq run fuel code ip vm h = plain-Goes _ ip vm (binary_op-Halts Op.eq)
  exec_op-Goes Op.ne run fuel code ip vm h = plain-Goes _ ip vm (binary_op-Halts Op.ne)
  exec_op-Goes Op.lt run fuel code ip vm h = plain-Goes _ ip vm (binary_op-Halts Op.lt)
  exec_op-Goes Op.le run fuel code ip vm h = plain-Goes _ ip vm (binary_op-Halts Op.le)
  exec_op-Goes Op.gt run fuel code ip vm h = plain-Goes _ ip vm (binary_op-Halts Op.gt)
  exec_op-Goes Op.ge run fuel code ip vm h = plain-Goes _ ip vm (binary_op-Halts Op.ge)
  exec_op-Goes Op.ltu run fuel code ip vm h = plain-Goes _ ip vm (binary_op-Halts Op.ltu)
  exec_op-Goes Op.leu run fuel code ip vm h = plain-Goes _ ip vm (binary_op-Halts Op.leu)
  exec_op-Goes Op.lit0 run fuel code ip vm h = plain-Goes _ ip vm (ds_push-Halts _)
  exec_op-Goes Op.lit1 run fuel code ip vm h = plain-Goes _ ip vm (ds_push-Halts _)
  exec_op-Goes Op.litn1 run fuel code ip vm h = plain-Goes _ ip vm (ds_push-Halts _)
  exec_op-Goes Op.lit run fuel code ip vm h = literal_op-Goes 4 _ code ip vm
  exec_op-Goes Op.lit_u8 run fuel code ip vm h = literal_op-Goes 1 _ code ip vm
  exec_op-Goes Op.lit_i8 run fuel code ip vm h = literal_op-Goes 1 _ code ip vm
  exec_op-Goes Op.lit_i16 run fuel code ip vm h = literal_op-Goes 2 _ code ip vm
  exec_op-Goes Op.ret run fuel code ip vm h = tt
  exec_op-Goes _ run fuel code ip vm h = absurd h

  exec_byte-Goes :
      (o : Option Op) (run : Runner W) (fuel : ℕ) (code : Code) (ip : ℕ) (vm : Vm W)
      → StraightByte o
      → Goes ip (exec_byte env o run fuel code ip vm)
  unfolding exec_byte vm_panic
  exec_byte-Goes none run fuel code ip vm h = tt
  exec_byte-Goes (some op) run fuel code ip vm h = exec_op-Goes op run fuel code ip vm h

  then_run-Goes :
      (r : Outcome W ℕ) (f : ℕ → M W ⊥) (low : ℕ)
      → Goes low r
      → ((ip : ℕ) (vm : Vm W) → low ≤ ip → Fed (f ip vm))
      → Fed (then_run r f)
  then_run-Goes (ok ip vm) f low h hf = hf ip vm h
  then_run-Goes (stop e vm) f low h hf = tt
  then_run-Goes fault f low h hf = tt
  then_run-Goes starved f low h hf = h

  exec_from-Fed :
      (fuel : ℕ) (code : Code) (ip : ℕ) (vm : Vm W)
      → ((p : ℕ) → StraightByte (decode (byte_at code p)))
      → code.len < fuel + ip
      → 0 < fuel
      → Fed (exec_from env fuel code ip vm)
  unfolding exec_from vm_panic
  exec_from-Fed zero code ip vm straight enough some_fuel = absurd (omega arith)
  exec_from-Fed (suc fuel) code ip vm straight enough some_fuel =
      elim (Bool-cases (ltb ip code.len)) [
        | inl more ↦
            rw (more, exec_from)
              (then_run-Goes (exec_byte env (decode (byte_at code ip)) _ fuel code (ip + 1) vm)
                (exec_from env fuel code) (ip + 1)
                (exec_byte-Goes (decode (byte_at code ip)) _ fuel code (ip + 1) vm (straight ip))
                (λ ip' vm' on.
                  exec_from-Fed fuel code ip' vm' straight (omega arith) (ground arith)))
        | inr over ↦ rw (over, exec_from) tt
      ]

  not_starved : {A : Type 0} (r : Outcome W A) → Fed r → r ≢ starved
  not_starved r h e = subst Fed e h

  -- Code all of whose bytes are opcodes on the two stacks, literals, RET or no opcodes at all runs to its end: with
  -- one unit of fuel more than the code has bytes, the loop does not run out of fuel.
  pub vm_exec_raw-ends :
      (code : Code) (vm : Vm W)
      → ((p : ℕ) → StraightByte (decode (byte_at code p)))
      → vm_exec_raw env (code.len + 1) code vm ≢ starved
  unfolding vm_exec_raw
  vm_exec_raw-ends code vm straight =
      not_starved _ (exec_from-Fed (code.len + 1) code 0 vm straight (omega arith) (omega arith))
