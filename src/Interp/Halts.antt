-- ===== src/Interp/Halts.antt =====
-- The functions of src/core.cpp behind the opcodes on the two stacks, and the need of fuel.
use v4_engine.Alu.{Computed, value, panics, traps, binary}
use v4_engine.Base.{
  ℕ, ◌+◌, ◌≤◌, Bool, true, false, arith, ltb, leb, ◌==◌, if◌then◌else◌, inl, inr, Bool-cases,
}
use v4_engine.Interp.{
  Code, operand, unary_op, pop_two, finish_binary, binary_op, dup_op, drop_op, swap_op, over_op,
  select_op, tor_op, fromr_op, rfetch_op, literal_op, plain,
}
use v4_engine.Opcode.{Op, decode}
use v4_engine.Panic.{vm_panic}
use v4_engine.Stack.{ds_push, ds_pop, ds_peek, rs_push, rs_pop, rs_peek}
use v4_engine.Vm.{Vm, Outcome, ok, stop, fault, starved, M, ◌>>=◌, then_run, pure, ds_cap, rs_cap}

-- The outcome is not for want of fuel.
abbrev pub Fed : {W A : Type 0} → Outcome W A → Type 0
Fed starved = ⊥
Fed _ = Unit

abbrev pub Halts : {W A : Type 0} → M W A → Type 0
Halts {W} m = (vm : Vm W) → Fed (m vm)

-- Besides, execution goes on, if it does, at `next` or behind.
abbrev pub Goes : {W : Type 0} → ℕ → Outcome W ℕ → Type 0
Goes next (ok ip vm) = next ≤ ip
Goes next (stop e vm) = Unit
Goes next fault = Unit
Goes next starved = ⊥

module _ {W : Type 0} where
  Fed-if : {A : Type 0} (b : Bool) (x y : Outcome W A) → Fed x → Fed y → Fed (if b then x else y)
  Fed-if true x y hx hy = hx
  Fed-if false x y hx hy = hy

  then_run-Fed :
      {A B : Type 0} (r : Outcome W A) (f : A → M W B)
      → Fed r
      → ((a : A) → Halts (f a))
      → Fed (then_run r f)
  then_run-Fed (ok a vm) f h hf = hf a vm
  then_run-Fed (stop e vm) f h hf = tt
  then_run-Fed fault f h hf = tt
  then_run-Fed starved f h hf = h

  Halts-bind :
      {A B : Type 0} (m : M W A) (f : A → M W B)
      → Halts m
      → ((a : A) → Halts (f a))
      → Halts (m >>= f)
  Halts-bind m f h hf vm = then_run-Fed (m vm) f (h vm) hf

  pub ds_push-Halts : (a : ℕ) → Halts (ds_push {W = W} a)
  unfolding ds_push vm_panic
  ds_push-Halts a vm = Fed-if (leb ds_cap vm.sp) _ _ tt tt

  ds_pop-Halts : Halts (ds_pop {W = W})
  unfolding ds_pop vm_panic
  ds_pop-Halts vm = Fed-if (leb vm.sp 0) _ _ tt tt

  ds_peek-Halts : (i : ℕ) → Halts (ds_peek {W = W} i)
  unfolding ds_peek vm_panic
  ds_peek-Halts i vm = Fed-if (ltb vm.sp (i + 1)) _ _ tt tt

  rs_push-Halts : (a : ℕ) → Halts (rs_push {W = W} a)
  unfolding rs_push vm_panic
  rs_push-Halts a vm = Fed-if (leb rs_cap vm.rp) _ _ tt tt

  rs_pop-Halts : Halts (rs_pop {W = W})
  unfolding rs_pop vm_panic
  rs_pop-Halts vm = Fed-if (leb vm.rp 0) _ _ tt tt

  rs_peek-Halts : (i : ℕ) → Halts (rs_peek {W = W} i)
  unfolding rs_peek vm_panic
  rs_peek-Halts i vm = Fed-if (ltb vm.rp (i + 1)) _ _ tt tt

  -- A pop, and what is done with the value.
  popped : {B : Type 0} (f : ℕ → M W B) → ((a : ℕ) → Halts (f a)) → Halts (ds_pop >>= f)
  popped f h = Halts-bind ds_pop f ds_pop-Halts h

  pub unary_op-Halts : (f : ℕ → ℕ) → Halts (unary_op {W = W} f)
  unfolding unary_op
  unary_op-Halts f = popped _ (λ a. ds_push-Halts (f a))

  pub pop_two-Halts : (f : ℕ → ℕ → ℕ) → Halts (pop_two {W = W} f)
  unfolding pop_two
  pop_two-Halts f = popped _ (λ b. popped _ (λ a. ds_push-Halts (f a b)))

  finish_binary-Halts : (c : Computed) → Halts (finish_binary {W = W} c)
  unfolding finish_binary vm_panic
  finish_binary-Halts (value r) vm = ds_push-Halts r vm
  finish_binary-Halts (panics e) vm = tt
  finish_binary-Halts traps vm = tt

  pub binary_op-Halts : (op : Op) → Halts (binary_op {W = W} op)
  unfolding binary_op
  binary_op-Halts op = popped _ (λ b. popped _ (λ a. finish_binary-Halts (binary op a b)))

  pub dup_op-Halts : Halts (dup_op {W = W})
  unfolding dup_op
  dup_op-Halts = Halts-bind (ds_peek 0) ds_push (ds_peek-Halts 0) ds_push-Halts

  pub drop_op-Halts : Halts (drop_op {W = W})
  unfolding drop_op
  drop_op-Halts = popped _ (λ a vm. tt)

  pub swap_op-Halts : Halts (swap_op {W = W})
  unfolding swap_op
  swap_op-Halts = popped _ (λ a.
      popped _
        (λ b. Halts-bind (ds_push a) (λ _. ds_push b) (ds_push-Halts a) (λ _. ds_push-Halts b)))

  pub over_op-Halts : Halts (over_op {W = W})
  unfolding over_op
  over_op-Halts = Halts-bind (ds_peek 1) ds_push (ds_peek-Halts 1) ds_push-Halts

  pub select_op-Halts : Halts (select_op {W = W})
  unfolding select_op
  select_op-Halts =
      popped _ (λ a. popped _ (λ b. popped _ (λ flag. ds_push-Halts (if flag == 0 then b else a))))

  pub tor_op-Halts : Halts (tor_op {W = W})
  unfolding tor_op
  tor_op-Halts = popped rs_push rs_push-Halts

  pub fromr_op-Halts : Halts (fromr_op {W = W})
  unfolding fromr_op
  fromr_op-Halts = Halts-bind rs_pop ds_push rs_pop-Halts ds_push-Halts

  pub rfetch_op-Halts : Halts (rfetch_op {W = W})
  unfolding rfetch_op
  rfetch_op-Halts = Halts-bind (rs_peek 0) ds_push (rs_peek-Halts 0) ds_push-Halts

  run-Goes :
      (r : Outcome W (Unit {0})) (low ip : ℕ)
      → low ≤ ip
      → Fed r
      → Goes low (then_run r (λ _. pure ip))
  run-Goes (ok a vm) low ip h fed = h
  run-Goes (stop e vm) low ip h fed = tt
  run-Goes fault low ip h fed = tt
  run-Goes starved low ip h fed = fed

  pub plain-Goes : (m : M W (Unit {0})) (ip : ℕ) (vm : Vm W) → Halts m → Goes ip (plain m ip vm)
  unfolding plain
  plain-Goes m ip vm h = run-Goes (m vm) ip ip (omega arith) (h vm)

  pub literal_op-Goes :
      (n : ℕ) (decode : Code → ℕ → ℕ) (code : Code) (ip : ℕ) (vm : Vm W)
      → Goes ip (literal_op n decode code ip vm)
  unfolding literal_op operand vm_panic
  literal_op-Goes n decode code ip vm = elim (Bool-cases (ltb code.len (ip + n))) [
    | inl short ↦ rw (short, then_run) tt
    | inr there ↦
        rw (there, then_run)
          (run-Goes (ds_push (decode code ip) vm) ip (ip + n) (omega arith)
            (ds_push-Halts (decode code ip) vm))
  ]
