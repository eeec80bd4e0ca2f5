-- ===== src/Stack/Exact.antt =====
-- The opcodes that work on the data stack alone, on a stack of 32-bit words: what each one gives.
use v4_engine.Alu.Exact.{exact, IsBinary, binary-exact, shift-exact}
use v4_engine.Alu.{binary, bitwise, invert}
use v4_engine.Base.{
  ℕ, zero, suc, ◌+◌, ◌-◌, ◌%◌, ◌^◌, ◌≤◌, ◌<◌, ◌≡◌, refl, ap, ◌∙◌, List, [], ◌∷◌, cells_down, arith,
}
use v4_engine.Interp.{Code}
use v4_engine.Interp.Call.{Runner}
use v4_engine.Interp.Loop.{exec_op}
use v4_engine.Opcode.{Op}
use v4_engine.Stack.Abstract.{View, gives, view, stack_of, push_spec}
use v4_engine.Stack.Ops.{op_spec, IsStackOp, go_on, exec_op-Implements}
use v4_engine.Stack.Steps.{two_spec, one_spec, computed_spec, over_spec, select_spec}
use v4_engine.Vm.{Vm, Env, ds_cap}

-- What each opcode does to the list; the opcodes that are not listed take two operands and leave `exact` of them.
unfoldable pub exact_spec : Op → List ℕ → View (Unit {0})
exact_spec Op.dup = one_spec (λ a s. push_spec a (a ∷ s))
exact_spec Op.drop = one_spec (λ _. gives tt)
exact_spec Op.swap = two_spec (λ a b s. gives tt (b ∷ a ∷ s))
exact_spec Op.over = over_spec
exact_spec Op.select = select_spec
exact_spec Op.inc = one_spec (λ a s. gives tt ((a + 1) % 2 ^ 32 ∷ s))
exact_spec Op.dec = one_spec (λ a s. gives tt ((a + 4294967295) % 2 ^ 32 ∷ s))
exact_spec Op.invert = one_spec (λ a s. gives tt ((4294967295 - a) ∷ s))
exact_spec Op.lit0 = push_spec 0
exact_spec Op.lit1 = push_spec 1
exact_spec Op.litn1 = push_spec 4294967295
exact_spec op = two_spec (λ b a. computed_spec (exact op a b))

-- Every number on the stack is a 32-bit word.
abbrev pub AllWords : List ℕ → Type 0
AllWords [] = Unit
AllWords (a ∷ s) = (a < 2 ^ 32) × AllWords s

cells_down-AllWords :
    (cells : ℕ → ℕ) (n : ℕ) → ((i : ℕ) → i < n → cells i < 2 ^ 32) → AllWords (cells_down cells n)
cells_down-AllWords cells zero h = tt
cells_down-AllWords cells (suc n) h =
    (h n (omega arith), cells_down-AllWords cells n (λ i k. h i (omega arith)))

two_same :
    (f g : ℕ → ℕ → List ℕ → View (Unit {0}))
    → ((b a : ℕ) → b < 2 ^ 32 → a < 2 ^ 32 → (s : List ℕ) → f b a s ≡ g b a s)
    → (s : List ℕ) → AllWords s
    → two_spec f s ≡ two_spec g s
two_same f g h [] w = refl
two_same f g h (b ∷ []) w = refl
two_same f g h (b ∷ a ∷ s) (wb, (wa, _)) = h b a wb wa s

binary_same :
    (op : Op)
    → IsBinary op
    → (s : List ℕ) → AllWords s
    → two_spec (λ b a. computed_spec (binary op a b)) s
      ≡ two_spec (λ b a. computed_spec (exact op a b)) s
binary_same op i =
    two_same _ _ (λ b a wb wa s. ap (λ c. computed_spec c s) (binary-exact op i a b wa wb))

op_spec-exact_spec :
    (op : Op) → IsStackOp op → (s : List ℕ) → AllWords s → op_spec op s ≡ exact_spec op s
unfolding op_spec exact_spec bitwise invert
op_spec-exact_spec Op.dup i s w = refl
op_spec-exact_spec Op.drop i s w = refl
op_spec-exact_spec Op.swap i s w = refl
op_spec-exact_spec Op.over i s w = refl
op_spec-exact_spec Op.select i s w = refl
op_spec-exact_spec Op.inc i s w = refl
op_spec-exact_spec Op.dec i s w = refl
op_spec-exact_spec Op.invert i s w = refl
op_spec-exact_spec Op.and i s w = refl
op_spec-exact_spec Op.or i s w = refl
op_spec-exact_spec Op.xor i s w = refl
op_spec-exact_spec Op.shl i s w =
    two_same _ _ (λ b a wb wa s. ap (λ c. computed_spec c s) (shift-exact a b wb).0) s w
op_spec-exact_spec Op.shr i s w =
    two_same _ _ (λ b a wb wa s. ap (λ c. computed_spec c s) (shift-exact a b wb).1) s w
op_spec-exact_spec Op.sar i s w =
    two_same _ _ (λ b a wb wa s. ap (λ c. computed_spec c s) (shift-exact a b wb).2) s w
op_spec-exact_spec Op.lit0 i s w = refl
op_spec-exact_spec Op.lit1 i s w = refl
op_spec-exact_spec Op.litn1 i s w = refl
op_spec-exact_spec Op.add i s w = binary_same Op.add i s w
op_spec-exact_spec Op.sub i s w = binary_same Op.sub i s w
op_spec-exact_spec Op.mul i s w = binary_same Op.mul i s w
op_spec-exact_spec Op.div i s w = binary_same Op.div i s w
op_spec-exact_spec Op.modulo i s w = binary_same Op.modulo i s w
op_spec-exact_spec Op.divu i s w = binary_same Op.divu i s w
op_spec-exact_spec Op.modu i s w = binary_same Op.modu i s w
op_spec-exact_spec Op.eq i s w = binary_same Op.eq i s w
op_spec-exact_spec Op.ne i s w = binary_same Op.ne i s w
op_spec-exact_spec Op.lt i s w = binary_same Op.lt i s w
op_spec-exact_spec Op.le i s w = binary_same Op.le i s w
op_spec-exact_spec Op.gt i s w = binary_same Op.gt i s w
op_spec-exact_spec Op.ge i s w = binary_same Op.ge i s w
op_spec-exact_spec Op.ltu i s w = binary_same Op.ltu i s w
op_spec-exact_spec Op.leu i s w = binary_same Op.leu i s w
op_spec-exact_spec _ i s w = absurd i

module _ {W : Type 0} (env : Env W) where
  -- Every opcode of the stack, arithmetic, comparison, bitwise and compact-literal groups, with a data stack of at
  -- most 256 numbers, each a 32-bit word, does to that stack what `exact_spec` says of a list: on success it gives
  -- exactly the new list and goes on at the next byte; on an underflow, an overflow or a division by zero it returns
  -- that code with the list as the failing pop or push left it; INT_MIN by -1 is left undefined. `exact_spec` says
  -- what the result is without the functions of the interpreter: sums, differences and products wrap, DIV and MOD
  -- round towards zero, comparisons are those of int32_t or uint32_t, and a shift is taken modulo 32.
  pub exec_op-Exact :
      (op : Op) (run : Runner W) (fuel : ℕ) (code : Code) (ip : ℕ) (vm : Vm W)
      → IsStackOp op
      → vm.sp ≤ ds_cap
      → ((i : ℕ) → i < vm.sp → vm.ds i < 2 ^ 32)
      → view (exec_op env op run fuel code ip vm) ≡ go_on ip (exact_spec op (stack_of vm))
  exec_op-Exact op run fuel code ip vm is_op fits words =
      exec_op-Implements env op run fuel code ip vm is_op fits
      ∙ ap (go_on ip)
          (op_spec-exact_spec op is_op (stack_of vm) (cells_down-AllWords vm.ds vm.sp words))
