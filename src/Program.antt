-- ===== src/Program.antt =====
-- Structured programs for the machine: sequences, branches, loops and calls of words over the opcodes that
-- take no operand, their bytecode for vm_exec_raw in src/core.cpp, and what they are meant to do.
pub mod Layout
pub mod Effects
pub mod Steps
pub mod Leads
pub mod Parts
pub mod Simulation
pub mod Straight
pub mod Lists
use v4_engine.Base.{
  ℕ, ◌+◌, ◌-◌, ◌/◌, ◌%◌, ◌^◌, ◌≤◌, ◌<◌, ◌≡◌, ◌≢◌, ◌==◌, if◌then◌else◌, Option, some, List, [], ◌∷◌,
  ◌++◌, u16,
}
use v4_engine.Interp.{Code}
use v4_engine.Interp.Loop.{exec_op}
use v4_engine.Opcode.{Op, opcode}
use v4_engine.Stack.{ds_push, ds_pop}
use v4_engine.Vm.{Vm, Env, Outcome, ok, stop, fault, starved, then_run, M, pure}

pub data Program : Type 0 where
  op : Op → Program
  literal : ℕ → Program
  seq : Program → Program → Program
  branch : Program → Program → Program
  repeat : Program → Program → Program
  call : ℕ → Program

-- The number of its bytes.
abbrev pub size : Program → ℕ
size (op o) = 1
size (literal n) = 5
size (seq p q) = size p + size q
size (branch p q) = 3 + size p + 3 + size q
size (repeat t b) = size t + 3 + size b + 3
size (call idx) = 3

abbrev pub le16 : ℕ → List ℕ
le16 n = n % 2 ^ 8 ∷ n / 2 ^ 8 % 2 ^ 8 ∷ []

abbrev pub le32 : ℕ → List ℕ
le32 n = n % 2 ^ 8 ∷ n / 2 ^ 8 % 2 ^ 8 ∷ n / 2 ^ 16 % 2 ^ 8 ∷ n / 2 ^ 24 % 2 ^ 8 ∷ []

abbrev pub jz_by : ℕ → List ℕ
jz_by off = opcode Op.jz ∷ le16 off

abbrev pub jmp_by : ℕ → List ℕ
jmp_by off = opcode Op.jmp ∷ le16 off

-- branch: JZ to `q`, p, JMP past `q`, q. repeat: t, JZ to the end, b, JMP back to `t`.
abbrev pub encode : Program → List ℕ
encode (op o) = opcode o ∷ []
encode (literal n) = opcode Op.lit ∷ le32 n
encode (seq p q) = encode p ++ encode q
encode (branch p q) = jz_by (size p + 3) ++ (encode p ++ (jmp_by (size q) ++ encode q))
encode (repeat t b) =
    encode t ++ (jz_by (size b + 3) ++ (encode b ++ jmp_by (2 ^ 16 - size (repeat t b))))
encode (call idx) = opcode Op.call ∷ le16 idx

-- The bytes of a word: the program, and RET.
abbrev pub word_bytes : Program → List ℕ
word_bytes p = encode p ++ (opcode Op.ret ∷ [])

abbrev pub word_code : Program → Code
word_code p = record { bytes = word_bytes p; len = size p + 1 }

-- The opcodes without an operand that go on at the next byte and are there in every build.
abbrev pub IsPlain : Op → Type 0
IsPlain Op.dup = Unit
IsPlain Op.drop = Unit
IsPlain Op.swap = Unit
IsPlain Op.over = Unit
IsPlain Op.add = Unit
IsPlain Op.sub = Unit
IsPlain Op.mul = Unit
IsPlain Op.div = Unit
IsPlain Op.modulo = Unit
IsPlain Op.divu = Unit
IsPlain Op.modu = Unit
IsPlain Op.inc = Unit
IsPlain Op.dec = Unit
IsPlain Op.eq = Unit
IsPlain Op.ne = Unit
IsPlain Op.lt = Unit
IsPlain Op.le = Unit
IsPlain Op.gt = Unit
IsPlain Op.ge = Unit
IsPlain Op.ltu = Unit
IsPlain Op.leu = Unit
IsPlain Op.and = Unit
IsPlain Op.or = Unit
IsPlain Op.xor = Unit
IsPlain Op.invert = Unit
IsPlain Op.shl = Unit
IsPlain Op.shr = Unit
IsPlain Op.sar = Unit
IsPlain Op.load = Unit
IsPlain Op.store = Unit
IsPlain Op.load8u = Unit
IsPlain Op.load16u = Unit
IsPlain Op.store8 = Unit
IsPlain Op.store16 = Unit
IsPlain Op.load8s = Unit
IsPlain Op.load16s = Unit
IsPlain Op.select = Unit
IsPlain Op.sys = Unit
IsPlain Op.tor = Unit
IsPlain Op.fromr = Unit
IsPlain Op.rfetch = Unit
IsPlain Op.lit0 = Unit
IsPlain Op.lit1 = Unit
IsPlain Op.litn1 = Unit
IsPlain Op.lget0 = Unit
IsPlain Op.lget1 = Unit
IsPlain Op.lset0 = Unit
IsPlain Op.lset1 = Unit
IsPlain _ = ⊥

-- The literals, jumps and indices fit their operands.
abbrev pub Fits : Program → Type 0
Fits (op o) = IsPlain o
Fits (literal n) = n < 2 ^ 32
Fits (seq p q) = Fits p × Fits q
Fits (branch p q) = Fits p × Fits q × (size p + 3 < 2 ^ 15) × (size q < 2 ^ 15)
Fits (repeat t b) = Fits t × Fits b × (size (repeat t b) ≤ 2 ^ 15)
Fits (call idx) = idx < 2 ^ 16

-- The run does not go on.
abbrev pub IsEnded : {W A : Type 0} → Outcome W A → Type 0
IsEnded (ok a vm) = ⊥
IsEnded _ = Unit

-- A call's result: the caller's frame pointer is back, and a code other than 0 is passed on.
abbrev pub back_in : {W : Type 0} → Option ℕ → Outcome W (Unit {0}) → Outcome W (Unit {0})
back_in fp (ok _ vm) = ok tt (record vm { fp = fp })
back_in fp (stop e vm) =
    if e == 0 then ok tt (record vm { fp = fp }) else stop e (record vm { fp = fp })
back_in fp fault = fault
back_in fp starved = starved

-- Word `idx` is in the dictionary, with the program's bytes.
pub record IsWord {W : Type 0} (vm : Vm W) (idx : ℕ) (p : Program) : Type 0 where
  pub index_in : idx < u16 vm.word_count
  pub code_is : (vm.words idx).code ≡ some (word_bytes p)
  pub length_is : (vm.words idx).code_len ≡ size p + 1
  pub callee_fits : Fits p

module _ {W : Type 0} (env : Env W) where
  -- What an opcode without an operand does to the machine, wherever it stands.
  unfoldable pub effect : Op → M W (Unit {0})
  effect o vm =
      then_run (exec_op env o (λ _ _. starved) 0 (record { bytes = []; len = 0 }) 0 vm)
        (λ _. pure tt)

  -- The run of a program on a machine, with its outcome.
  pub data Runs : Program → Vm W → Outcome W (Unit {0}) → Type 0 where
    of_op : {o : Op} {vm : Vm W} → Runs (op o) vm (effect o vm)
    of_literal : {n : ℕ} {vm : Vm W} → Runs (literal n) vm (ds_push n vm)
    in_turn :
        {p q : Program} {vm vm₁ : Vm W} {r : Outcome W (Unit {0})}
        → Runs p vm (ok tt vm₁)
        → Runs q vm₁ r
        → Runs (seq p q) vm r
    ended_first :
        {p q : Program} {vm : Vm W} {r : Outcome W (Unit {0})}
        → Runs p vm r
        → IsEnded r
        → Runs (seq p q) vm r
    no_flag :
        {p q : Program} {e : ℕ} {vm vm₁ : Vm W}
        → ds_pop vm ≡ stop e vm₁
        → Runs (branch p q) vm (stop e vm₁)
    taken :
        {p q : Program} {flag : ℕ} {vm vm₁ : Vm W} {r : Outcome W (Unit {0})}
        → ds_pop vm ≡ ok flag vm₁
        → flag ≢ 0
        → Runs p vm₁ r
        → Runs (branch p q) vm r
    not_taken :
        {p q : Program} {vm vm₁ : Vm W} {r : Outcome W (Unit {0})}
        → ds_pop vm ≡ ok 0 vm₁
        → Runs q vm₁ r
        → Runs (branch p q) vm r
    test_ended :
        {t b : Program} {vm : Vm W} {r : Outcome W (Unit {0})}
        → Runs t vm r
        → IsEnded r
        → Runs (repeat t b) vm r
    test_no_flag :
        {t b : Program} {e : ℕ} {vm vm₁ vm₂ : Vm W}
        → Runs t vm (ok tt vm₁)
        → ds_pop vm₁ ≡ stop e vm₂
        → Runs (repeat t b) vm (stop e vm₂)
    finished :
        {t b : Program} {vm vm₁ vm₂ : Vm W}
        → Runs t vm (ok tt vm₁)
        → ds_pop vm₁ ≡ ok 0 vm₂
        → Runs (repeat t b) vm (ok tt vm₂)
    body_ended :
        {t b : Program} {flag : ℕ} {vm vm₁ vm₂ : Vm W} {r : Outcome W (Unit {0})}
        → Runs t vm (ok tt vm₁)
        → ds_pop vm₁ ≡ ok flag vm₂
        → flag ≢ 0
        → Runs b vm₂ r
        → IsEnded r
        → Runs (repeat t b) vm r
    once_more :
        {t b : Program} {flag : ℕ} {vm vm₁ vm₂ vm₃ : Vm W} {r : Outcome W (Unit {0})}
        → Runs t vm (ok tt vm₁)
        → ds_pop vm₁ ≡ ok flag vm₂
        → flag ≢ 0
        → Runs b vm₂ (ok tt vm₃)
        → Runs (repeat t b) vm₃ r
        → Runs (repeat t b) vm r
    of_call :
        {idx : ℕ} {p : Program} {vm : Vm W} {r : Outcome W (Unit {0})}
        → IsWord vm idx p
        → Runs p (record vm { fp = some vm.rp }) r
        → Runs (call idx) vm (back_in vm.fp r)
