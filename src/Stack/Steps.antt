-- ===== src/Stack/Steps.antt =====
-- The steps of the stack opcodes as functions on the list that the data stack stands for.
use v4_engine.Alu.{Computed, value, panics, traps, binary}
use v4_engine.Base.{
  ℕ, suc, ◌≤◌, ◌≡◌, refl, List, [], ◌∷◌, arith, leb, ◌==◌, if◌then◌else◌, length, inl, inr,
  Bool-cases,
}
use v4_engine.Err.{Err, v4_err}
use v4_engine.Interp.{
  unary_op, pop_two, finish_binary, binary_op, dup_op, drop_op, swap_op, over_op, select_op,
}
use v4_engine.Opcode.{Op}
use v4_engine.Stack.Abstract.{
  View, gives, fails, undefined, push_spec, pop_spec, top_spec, next_spec, chain, Refines,
  Implements, vm_panic-Refines, ds_push-Refines, ds_pop-Refines, ds_peek_top-Refines,
  ds_peek_next-Refines, Refines-chain, Refines-Implements,
}
use v4_engine.Vm.{ds_cap}

abbrev underflow : List ℕ → View (Unit {0})
underflow s = fails (v4_err Err.stack_underflow) s

-- Of two operands, the first pop has consumed the only one when the second finds none.
abbrev pub two_spec : (ℕ → ℕ → List ℕ → View (Unit {0})) → List ℕ → View (Unit {0})
two_spec f [] = underflow []
two_spec f (b ∷ []) = underflow []
two_spec f (b ∷ a ∷ s) = f b a s

abbrev pub one_spec : (ℕ → List ℕ → View (Unit {0})) → List ℕ → View (Unit {0})
one_spec f [] = underflow []
one_spec f (a ∷ s) = f a s

abbrev pub computed_spec : Computed → List ℕ → View (Unit {0})
computed_spec (value r) s = gives tt (r ∷ s)
computed_spec (panics e) s = fails (v4_err e) s
computed_spec traps s = undefined

abbrev pub over_spec : List ℕ → View (Unit {0})
over_spec (b ∷ a ∷ s) = push_spec a (b ∷ a ∷ s)
over_spec s = underflow s

abbrev pub select_spec : List ℕ → View (Unit {0})
select_spec (a ∷ b ∷ flag ∷ s) = gives tt ((if flag == 0 then b else a) ∷ s)
select_spec s = underflow []

-- A push after a pop finds room.
push_room : (a : ℕ) (s : List ℕ) → suc (length s) ≤ ds_cap → push_spec a s ≡ gives tt (a ∷ s)
push_room a s h = elim (Bool-cases (leb ds_cap (length s))) [
  | inl full ↦ absurd (ground arith)
  | inr room ↦ rw room
]

finish_spec : Computed → List ℕ → View (Unit {0})
finish_spec (value r) = push_spec r
finish_spec (panics e) = fails (v4_err e)
finish_spec traps = λ _. undefined

finish_spec-room :
    (c : Computed) (s : List ℕ) → suc (length s) ≤ ds_cap → finish_spec c s ≡ computed_spec c s
unfolding finish_spec
finish_spec-room (value r) s h = push_room r s h
finish_spec-room (panics e) s h = refl
finish_spec-room traps s h = refl

module _ {W : Type 0} where
  pub unary_op-Implements :
      (f : ℕ → ℕ) → Implements (unary_op {W = W} f) (one_spec (λ a s. gives tt (f a ∷ s)))
  unfolding unary_op
  unary_op-Implements f =
      Refines-Implements _ (Refines-chain ds_pop-Refines (λ a. ds_push-Refines (f a))) λ l. agree l
    where
      agree :
          (l : List ℕ)
          → length l ≤ ds_cap
          → chain (pop_spec l) (λ a. push_spec (f a)) ≡ one_spec (λ a s. gives tt (f a ∷ s)) l
      agree [] h = refl
      agree (a ∷ s) h = push_room (f a) s h

  pub pop_two-Implements :
      (f : ℕ → ℕ → ℕ) → Implements (pop_two {W = W} f) (two_spec (λ b a s. gives tt (f a b ∷ s)))
  unfolding pop_two
  pop_two-Implements f =
      Refines-Implements _
        (Refines-chain ds_pop-Refines
          (λ b. Refines-chain ds_pop-Refines (λ a. ds_push-Refines (f a b))))
        λ l. agree l
    where
      agree :
          (l : List ℕ)
          → length l ≤ ds_cap
          → chain (pop_spec l) (λ b s. chain (pop_spec s) (λ a. push_spec (f a b)))
            ≡ two_spec (λ b a s. gives tt (f a b ∷ s)) l
      agree [] h = refl
      agree (b ∷ []) h = refl
      agree (b ∷ a ∷ s) h = push_room (f a b) s (omega arith)

  finish_binary-Refines : (c : Computed) → Refines (finish_binary {W = W} c) (finish_spec c)
  unfolding finish_binary finish_spec
  finish_binary-Refines (value r) = ds_push-Refines r
  finish_binary-Refines (panics e) = vm_panic-Refines e
  finish_binary-Refines traps = record { shows = λ vm. refl }

  pub binary_op-Implements :
      (op : Op)
      → Implements (binary_op {W = W} op) (two_spec (λ b a. computed_spec (binary op a b)))
  unfolding binary_op
  binary_op-Implements op =
      Refines-Implements _
        (Refines-chain ds_pop-Refines
          (λ b. Refines-chain ds_pop-Refines (λ a. finish_binary-Refines (binary op a b))))
        λ l. agree l
    where
      agree :
          (l : List ℕ)
          → length l ≤ ds_cap
          → chain (pop_spec l) (λ b s. chain (pop_spec s) (λ a. finish_spec (binary op a b)))
            ≡ two_spec (λ b a. computed_spec (binary op a b)) l
      agree [] h = refl
      agree (b ∷ []) h = refl
      agree (b ∷ a ∷ s) h = finish_spec-room (binary op a b) s (omega arith)

  pub dup_op-Implements : Implements (dup_op {W = W}) (one_spec (λ a s. push_spec a (a ∷ s)))
  unfolding dup_op
  dup_op-Implements =
      Refines-Implements _ (Refines-chain ds_peek_top-Refines ds_push-Refines) λ l. agree l
    where
      agree :
          (l : List ℕ)
          → length l ≤ ds_cap
          → chain (top_spec l) push_spec ≡ one_spec (λ a s. push_spec a (a ∷ s)) l
      agree [] h = refl
      agree (a ∷ s) h = refl

  pub drop_op-Implements : Implements (drop_op {W = W}) (one_spec (λ _. gives tt))
  unfolding drop_op
  drop_op-Implements =
      Refines-Implements _ (Refines-chain ds_pop-Refines (λ _. record { shows = λ vm. refl }))
        λ l. agree l
    where
      agree :
          (l : List ℕ)
          → length l ≤ ds_cap
          → chain (pop_spec l) (λ _. gives tt) ≡ one_spec (λ _. gives tt) l
      agree [] h = refl
      agree (a ∷ s) h = refl

  pub swap_op-Implements : Implements (swap_op {W = W}) (two_spec (λ a b s. gives tt (b ∷ a ∷ s)))
  unfolding swap_op
  swap_op-Implements =
      Refines-Implements _
        (Refines-chain ds_pop-Refines (λ a.
          Refines-chain ds_pop-Refines
            (λ b. Refines-chain (ds_push-Refines a) (λ _. ds_push-Refines b))))
        λ l. agree l
    where
      agree :
          (l : List ℕ)
          → length l ≤ ds_cap
          → chain
              (pop_spec l)
              (λ a s. chain (pop_spec s) (λ b s'. chain (push_spec a s') (λ _. push_spec b)))
            ≡ two_spec (λ a b s. gives tt (b ∷ a ∷ s)) l
      agree [] h = refl
      agree (a ∷ []) h = refl
      agree (a ∷ b ∷ s) h = rw (push_room a s (omega arith)) (push_room b (a ∷ s) h)

  pub over_op-Implements : Implements (over_op {W = W}) over_spec
  unfolding over_op
  over_op-Implements =
      Refines-Implements _ (Refines-chain ds_peek_next-Refines ds_push-Refines) λ l. agree l
    where
      agree : (l : List ℕ) → length l ≤ ds_cap → chain (next_spec l) push_spec ≡ over_spec l
      agree [] h = refl
      agree (b ∷ []) h = refl
      agree (b ∷ a ∷ s) h = refl

  pub select_op-Implements : Implements (select_op {W = W}) select_spec
  unfolding select_op
  select_op-Implements =
      Refines-Implements _
        (Refines-chain ds_pop-Refines (λ a. Refines-chain ds_pop-Refines (λ b.
          Refines-chain ds_pop-Refines (λ flag. ds_push-Refines (if flag == 0 then b else a)))))
        λ l. agree l
    where
      agree :
          (l : List ℕ)
          → length l ≤ ds_cap
          → chain (pop_spec l) (λ a s.
            chain
              (pop_spec s)
              (λ b s'. chain (pop_spec s') (λ flag. push_spec (if flag == 0 then b else a))))
            ≡ select_spec l
      agree [] h = refl
      agree (a ∷ []) h = refl
      agree (a ∷ b ∷ []) h = refl
      agree (a ∷ b ∷ flag ∷ s) h = push_room _ s (omega arith)
