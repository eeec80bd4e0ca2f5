-- ===== src/Stack/Ops.antt =====
-- The opcodes that work on the data stack alone, as functions on the list that it stands for.
use v4_engine.Alu.{binary, bitwise, invert, shift_left, shift_right, shift_arith}
use v4_engine.Base.{ℕ, ◌+◌, ◌-◌, ◌^◌, ◌≤◌, ◌≡◌, refl, ap, ◌∙◌, List, ◌∷◌, u32, minus}
use v4_engine.Interp.{Code, plain}
use v4_engine.Interp.Call.{Runner}
use v4_engine.Interp.Loop.{exec_op}
use v4_engine.Opcode.{Op}
use v4_engine.Stack.Abstract.{
  View, gives, fails, undefined, view, stack_of, push_spec, Implements, ds_push-Refines,
}
use v4_engine.Stack.{ds_push}
use v4_engine.Vm.{Vm, Env, M, ds_cap, Outcome, ok, stop, fault, starved, then_run, pure}
use v4_engine.Stack.Steps.{
  two_spec, one_spec, computed_spec, over_spec, select_spec, unary_op-Implements,
  pop_two-Implements, binary_op-Implements, dup_op-Implements, drop_op-Implements,
  swap_op-Implements, over_op-Implements, select_op-Implements,
}

-- What each opcode does to the list; the other opcodes are left `undefined`.
unfoldable pub op_spec : Op → List ℕ → View (Unit {0})
op_spec Op.dup = one_spec (λ a s. push_spec a (a ∷ s))
op_spec Op.drop = one_spec (λ _. gives tt)
op_spec Op.swap = two_spec (λ a b s. gives tt (b ∷ a ∷ s))
op_spec Op.over = over_spec
op_spec Op.select = select_spec
op_spec Op.inc = one_spec (λ a s. gives tt (u32 (a + 1) ∷ s))
op_spec Op.dec = one_spec (λ a s. gives tt (u32 (a + (2 ^ 32 - 1)) ∷ s))
op_spec Op.invert = one_spec (λ a s. gives tt (invert a ∷ s))
op_spec Op.and = two_spec (λ b a s. gives tt (bitwise Op.and a b ∷ s))
op_spec Op.or = two_spec (λ b a s. gives tt (bitwise Op.or a b ∷ s))
op_spec Op.xor = two_spec (λ b a s. gives tt (bitwise Op.xor a b ∷ s))
op_spec Op.shl = two_spec (λ b a s. gives tt (shift_left a b ∷ s))
op_spec Op.shr = two_spec (λ b a s. gives tt (shift_right a b ∷ s))
op_spec Op.sar = two_spec (λ b a s. gives tt (shift_arith a b ∷ s))
op_spec Op.lit0 = push_spec 0
op_spec Op.lit1 = push_spec 1
op_spec Op.litn1 = push_spec (minus 1)
op_spec Op.add = two_spec (λ b a. computed_spec (binary Op.add a b))
op_spec Op.sub = two_spec (λ b a. computed_spec (binary Op.sub a b))
op_spec Op.mul = two_spec (λ b a. computed_spec (binary Op.mul a b))
op_spec Op.div = two_spec (λ b a. computed_spec (binary Op.div a b))
op_spec Op.modulo = two_spec (λ b a. computed_spec (binary Op.modulo a b))
op_spec Op.divu = two_spec (λ b a. computed_spec (binary Op.divu a b))
op_spec Op.modu = two_spec (λ b a. computed_spec (binary Op.modu a b))
op_spec Op.eq = two_spec (λ b a. computed_spec (binary Op.eq a b))
op_spec Op.ne = two_spec (λ b a. computed_spec (binary Op.ne a b))
op_spec Op.lt = two_spec (λ b a. computed_spec (binary Op.lt a b))
op_spec Op.le = two_spec (λ b a. computed_spec (binary Op.le a b))
op_spec Op.gt = two_spec (λ b a. computed_spec (binary Op.gt a b))
op_spec Op.ge = two_spec (λ b a. computed_spec (binary Op.ge a b))
op_spec Op.ltu = two_spec (λ b a. computed_spec (binary Op.ltu a b))
op_spec Op.leu = two_spec (λ b a. computed_spec (binary Op.leu a b))
op_spec _ = λ _. undefined

-- The opcodes that need nothing but the data stack.
abbrev pub IsStackOp : Op → Type 0
IsStackOp Op.dup = Unit
IsStackOp Op.drop = Unit
IsStackOp Op.swap = Unit
IsStackOp Op.over = Unit
IsStackOp Op.select = Unit
IsStackOp Op.inc = Unit
IsStackOp Op.dec = Unit
IsStackOp Op.invert = Unit
IsStackOp Op.and = Unit
IsStackOp Op.or = Unit
IsStackOp Op.xor = Unit
IsStackOp Op.shl = Unit
IsStackOp Op.shr = Unit
IsStackOp Op.sar = Unit
IsStackOp Op.lit0 = Unit
IsStackOp Op.lit1 = Unit
IsStackOp Op.litn1 = Unit
IsStackOp Op.add = Unit
IsStackOp Op.sub = Unit
IsStackOp Op.mul = Unit
IsStackOp Op.div = Unit
IsStackOp Op.modulo = Unit
IsStackOp Op.divu = Unit
IsStackOp Op.modu = Unit
IsStackOp Op.eq = Unit
IsStackOp Op.ne = Unit
IsStackOp Op.lt = Unit
IsStackOp Op.le = Unit
IsStackOp Op.gt = Unit
IsStackOp Op.ge = Unit
IsStackOp Op.ltu = Unit
IsStackOp Op.leu = Unit
IsStackOp _ = ⊥

-- The instruction pointer goes on, if the opcode did not fail.
abbrev pub go_on : ℕ → View (Unit {0}) → View ℕ
go_on ip (gives _ s) = gives ip s
go_on ip (fails e s) = fails e s
go_on ip undefined = undefined

module _ {W : Type 0} where
  push-Implements : (a : ℕ) → Implements (ds_push {W = W} a) (push_spec a)
  push-Implements a vm fits = (ds_push-Refines a).shows vm

  plain-view :
      (m : M W (Unit {0})) (spec : List ℕ → View (Unit {0})) (ip : ℕ)
      → Implements m spec
      → Implements (plain m ip) (λ l. go_on ip (spec l))
  unfolding plain
  plain-view m spec ip h vm fits = seen (m vm) ∙ ap (go_on ip) (h vm fits)
    where
      seen : (r : Outcome W (Unit {0})) → view (then_run r (λ _. pure ip)) ≡ go_on ip (view r)
      seen (ok _ vm') = refl
      seen (stop e vm') = refl
      seen fault = refl
      seen starved = refl

module _ {W : Type 0} (env : Env W) where
  -- Every opcode of the stack, arithmetic, comparison, bitwise and compact-literal groups, with a data stack
  -- of at most 256 numbers, does to that stack what `op_spec` says of a list: on success it gives
  -- exactly the new list and goes on at the next byte, on an underflow, overflow or division by zero it returns
  -- that code with the list as the failing pop or push left it.
  pub exec_op-Implements :
      (op : Op) (run : Runner W) (fuel : ℕ) (code : Code) (ip : ℕ) (vm : Vm W)
      → IsStackOp op
      → vm.sp ≤ ds_cap
      → view (exec_op env op run fuel code ip vm) ≡ go_on ip (op_spec op (stack_of vm))
  unfolding exec_op op_spec
  exec_op-Implements Op.dup run fuel code ip vm h fits =
      plain-view _ (op_spec Op.dup) ip dup_op-Implements vm fits
  exec_op-Implements Op.drop run fuel code ip vm h fits =
      plain-view _ (op_spec Op.drop) ip drop_op-Implements vm fits
  exec_op-Implements Op.swap run fuel code ip vm h fits =
      plain-view _ (op_spec Op.swap) ip swap_op-Implements vm fits
  exec_op-Implements Op.over run fuel code ip vm h fits =
      plain-view _ (op_spec Op.over) ip over_op-Implements vm fits
  exec_op-Implements Op.select run fuel code ip vm h fits =
      plain-view _ (op_spec Op.select) ip select_op-Implements vm fits
  exec_op-Implements Op.inc run fuel code ip vm h fits =
      plain-view _ (op_spec Op.inc) ip (unary_op-Implements _) vm fits
  exec_op-Implements Op.dec run fuel code ip vm h fits =
      plain-view _ (op_spec Op.dec) ip (unary_op-Implements _) vm fits
  exec_op-Implements Op.invert run fuel code ip vm h fits =
      plain-view _ (op_spec Op.invert) ip (unary_op-Implements _) vm fits
  exec_op-Implements Op.and run fuel code ip vm h fits =
      plain-view _ (op_spec Op.and) ip (pop_two-Implements _) vm fits
  exec_op-Implements Op.or run fuel code ip vm h fits =
      plain-view _ (op_spec Op.or) ip (pop_two-Implements _) vm fits
  exec_op-Implements Op.xor run fuel code ip vm h fits =
      plain-view _ (op_spec Op.xor) ip (pop_two-Implements _) vm fits
  exec_op-Implements Op.shl run fuel code ip vm h fits =
      plain-view _ (op_spec Op.shl) ip (pop_two-Implements _) vm fits
  exec_op-Implements Op.shr run fuel code ip vm h fits =
      plain-view _ (op_spec Op.shr) ip (pop_two-Implements _) vm fits
  exec_op-Implements Op.sar run fuel code ip vm h fits =
      plain-view _ (op_spec Op.sar) ip (pop_two-Implements _) vm fits
  exec_op-Implements Op.lit0 run fuel code ip vm h fits =
      plain-view _ (op_spec Op.lit0) ip (push-Implements 0) vm fits
  exec_op-Implements Op.lit1 run fuel code ip vm h fits =
      plain-view _ (op_spec Op.lit1) ip (push-Implements 1) vm fits
  exec_op-Implements Op.litn1 run fuel code ip vm h fits =
      plain-view _ (op_spec Op.litn1) ip (push-Implements (minus 1)) vm fits
  exec_op-Implements Op.add run fuel code ip vm h fits =
      plain-view _ (op_spec Op.add) ip (binary_op-Implements Op.add) vm fits
  exec_op-Implements Op.sub run fuel code ip vm h fits =
      plain-view _ (op_spec Op.sub) ip (binary_op-Implements Op.sub) vm fits
  exec_op-Implements Op.mul run fuel code ip vm h fits =
      plain-view _ (op_spec Op.mul) ip (binary_op-Implements Op.mul) vm fits
  exec_op-Implements Op.div run fuel code ip vm h fits =
      plain-view _ (op_spec Op.div) ip (binary_op-Implements Op.div) vm fits
  exec_op-Implements Op.modulo run fuel code ip vm h fits =
      plain-view _ (op_spec Op.modulo) ip (binary_op-Implements Op.modulo) vm fits
  exec_op-Implements Op.divu run fuel code ip vm h fits =
      plain-view _ (op_spec Op.divu) ip (binary_op-Implements Op.divu) vm fits
  exec_op-Implements Op.modu run fuel code ip vm h fits =
      plain-view _ (op_spec Op.modu) ip (binary_op-Implements Op.modu) vm fits
  exec_op-Implements Op.eq run fuel code ip vm h fits =
      plain-view _ (op_spec Op.eq) ip (binary_op-Implements Op.eq) vm fits
  exec_op-Implements Op.ne run fuel code ip vm h fits =
      plain-view _ (op_spec Op.ne) ip (binary_op-Implements Op.ne) vm fits
  exec_op-Implements Op.lt run fuel code ip vm h fits =
      plain-view _ (op_spec Op.lt) ip (binary_op-Implements Op.lt) vm fits
  exec_op-Implements Op.le run fuel code ip vm h fits =
      plain-view _ (op_spec Op.le) ip (binary_op-Implements Op.le) vm fits
  exec_op-Implements Op.gt run fuel code ip vm h fits =
      plain-view _ (op_spec Op.gt) ip (binary_op-Implements Op.gt) vm fits
  exec_op-Implements Op.ge run fuel code ip vm h fits =
      plain-view _ (op_spec Op.ge) ip (binary_op-Implements Op.ge) vm fits
  exec_op-Implements Op.ltu run fuel code ip vm h fits =
      plain-view _ (op_spec Op.ltu) ip (binary_op-Implements Op.ltu) vm fits
  exec_op-Implements Op.leu run fuel code ip vm h fits =
      plain-view _ (op_spec Op.leu) ip (binary_op-Implements Op.leu) vm fits
  exec_op-Implements _ run fuel code ip vm h fits = absurd h
