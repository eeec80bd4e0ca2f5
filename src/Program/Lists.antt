-- ===== src/Program/Lists.antt =====
-- Structured programs over the data stack alone, as functions on the list that the stack stands for.
use v4_engine.Alu.{Computed, value, panics, traps, binary}
use v4_engine.Base.{
  ℕ, suc, ◌≤◌, ◌≡◌, refl, sym, subst, ap, ◌∙◌, some, List, [], ◌∷◌, arith, leb, ◌==◌, if◌then◌else◌,
  length, inl, inr, Bool, true, false, Bool-cases, ◌+◌,
}
use v4_engine.Interp.Loop.{vm_exec}
use v4_engine.Opcode.{Op}
use v4_engine.Program.{
  Program, op, literal, seq, branch, repeat, call, size, word_bytes, Fits, effect,
}
use v4_engine.Program.Simulation.{returned}
use v4_engine.Program.Straight.{IsStraightLine, eval, vm_exec-eval}
use v4_engine.Stack.{ds_pop}
use v4_engine.Stack.Abstract.{
  View, gives, fails, undefined, view, stack_of, push_spec, pop_spec, chain, length-cells_down,
  ds_push-Refines, ds_pop-Refines,
}
use v4_engine.Stack.Ops.{op_spec, IsStackOp, go_on, exec_op-Implements}
use v4_engine.Stack.Steps.{two_spec, one_spec, computed_spec, over_spec, select_spec}
use v4_engine.Vm.{Vm, Env, Word, Outcome, ok, stop, fault, starved, then_run, M, pure, ds_cap}

-- What a program does to the list.
abbrev pub list_run : Program → List ℕ → View (Unit {0})
list_run (op o) s = op_spec o s
list_run (literal n) s = push_spec n s
list_run (seq p q) s = chain (list_run p s) (λ _. list_run q)
list_run (branch p q) s =
    chain (pop_spec s) (λ flag t. if flag == 0 then list_run q t else list_run p t)
list_run (repeat t b) s = undefined
list_run (call idx) s = undefined

abbrev chosen : Program → Program → ℕ → List ℕ → View (Unit {0})
chosen p q flag t = if flag == 0 then list_run q t else list_run p t

abbrev drop_value : View ℕ → View (Unit {0})
drop_value (gives _ s) = gives tt s
drop_value (fails e s) = fails e s
drop_value undefined = undefined

-- Code that leaves through RET gives OK.
abbrev pub ended : View (Unit {0}) → View ⊥
ended (gives _ s) = fails 0 s
ended (fails e s) = fails e s
ended undefined = undefined

abbrev pub IsListProgram : Program → Type 0
IsListProgram (op o) = IsStackOp o
IsListProgram (literal n) = Unit
IsListProgram (seq p q) = IsListProgram p × IsListProgram q
IsListProgram (branch p q) = IsListProgram p × IsListProgram q
IsListProgram (repeat t b) = ⊥
IsListProgram (call idx) = ⊥

-- A list that a specification gives is a stack again.
abbrev InRoom : {A : Type 0} → View A → Type 0
InRoom (gives _ s) = length s ≤ ds_cap
InRoom (fails e s) = Unit
InRoom undefined = Unit

push_spec-InRoom : (a : ℕ) (s : List ℕ) → InRoom (push_spec a s)
push_spec-InRoom a s = elim (Bool-cases (leb ds_cap (length s))) [
  | inl full ↦ rw full tt
  | inr room ↦ rw room (ground arith)
]

one_spec-InRoom :
    (f : ℕ → List ℕ → View (Unit {0})) (s : List ℕ)
    → ((a : ℕ) (t : List ℕ) → suc (length t) ≤ ds_cap → InRoom (f a t))
    → length s ≤ ds_cap
    → InRoom (one_spec f s)
one_spec-InRoom f [] h fits = tt
one_spec-InRoom f (a ∷ s) h fits = h a s fits

two_spec-InRoom :
    (f : ℕ → ℕ → List ℕ → View (Unit {0})) (s : List ℕ)
    → ((b a : ℕ) (t : List ℕ) → suc (suc (length t)) ≤ ds_cap → InRoom (f b a t))
    → length s ≤ ds_cap
    → InRoom (two_spec f s)
two_spec-InRoom f [] h fits = tt
two_spec-InRoom f (b ∷ []) h fits = tt
two_spec-InRoom f (b ∷ a ∷ s) h fits = h b a s fits

computed_spec-InRoom :
    (c : Computed) (s : List ℕ) → suc (suc (length s)) ≤ ds_cap → InRoom (computed_spec c s)
computed_spec-InRoom (value r) s h = omega arith
computed_spec-InRoom (panics e) s h = tt
computed_spec-InRoom traps s h = tt

over_spec-InRoom : (s : List ℕ) → InRoom (over_spec s)
over_spec-InRoom [] = tt
over_spec-InRoom (b ∷ []) = tt
over_spec-InRoom (b ∷ a ∷ s) = push_spec-InRoom a (b ∷ a ∷ s)

select_spec-InRoom : (s : List ℕ) → length s ≤ ds_cap → InRoom (select_spec s)
select_spec-InRoom [] h = tt
select_spec-InRoom (a ∷ []) h = tt
select_spec-InRoom (a ∷ b ∷ []) h = tt
select_spec-InRoom (a ∷ b ∷ flag ∷ s) h = omega arith

op_spec-InRoom : (o : Op) (s : List ℕ) → length s ≤ ds_cap → InRoom (op_spec o s)
unfolding op_spec
op_spec-InRoom Op.dup s h = one_spec-InRoom _ s (λ a t k. push_spec-InRoom a (a ∷ t)) h
op_spec-InRoom Op.drop s h = one_spec-InRoom _ s (λ a t k. omega arith) h
op_spec-InRoom Op.swap s h = two_spec-InRoom _ s (λ b a t k. k) h
op_spec-InRoom Op.over s h = over_spec-InRoom s
op_spec-InRoom Op.select s h = select_spec-InRoom s h
op_spec-InRoom Op.inc s h = one_spec-InRoom _ s (λ a t k. k) h
op_spec-InRoom Op.dec s h = one_spec-InRoom _ s (λ a t k. k) h
op_spec-InRoom Op.invert s h = one_spec-InRoom _ s (λ a t k. k) h
op_spec-InRoom Op.lit0 s h = push_spec-InRoom _ s
op_spec-InRoom Op.lit1 s h = push_spec-InRoom _ s
op_spec-InRoom Op.litn1 s h = push_spec-InRoom _ s
op_spec-InRoom Op.and s h = two_spec-InRoom _ s (λ b a t k. omega arith) h
op_spec-InRoom Op.or s h = two_spec-InRoom _ s (λ b a t k. omega arith) h
op_spec-InRoom Op.xor s h = two_spec-InRoom _ s (λ b a t k. omega arith) h
op_spec-InRoom Op.shl s h = two_spec-InRoom _ s (λ b a t k. omega arith) h
op_spec-InRoom Op.shr s h = two_spec-InRoom _ s (λ b a t k. omega arith) h
op_spec-InRoom Op.sar s h = two_spec-InRoom _ s (λ b a t k. omega arith) h
op_spec-InRoom Op.add s h =
    two_spec-InRoom _ s (λ b a t k. computed_spec-InRoom (binary Op.add a b) t k) h
op_spec-InRoom Op.sub s h =
    two_spec-InRoom _ s (λ b a t k. computed_spec-InRoom (binary Op.sub a b) t k) h
op_spec-InRoom Op.mul s h =
    two_spec-InRoom _ s (λ b a t k. computed_spec-InRoom (binary Op.mul a b) t k) h
op_spec-InRoom Op.div s h =
    two_spec-InRoom _ s (λ b a t k. computed_spec-InRoom (binary Op.div a b) t k) h
op_spec-InRoom Op.modulo s h =
    two_spec-InRoom _ s (λ b a t k. computed_spec-InRoom (binary Op.modulo a b) t k) h
op_spec-InRoom Op.divu s h =
    two_spec-InRoom _ s (λ b a t k. computed_spec-InRoom (binary Op.divu a b) t k) h
op_spec-InRoom Op.modu s h =
    two_spec-InRoom _ s (λ b a t k. computed_spec-InRoom (binary Op.modu a b) t k) h
op_spec-InRoom Op.eq s h =
    two_spec-InRoom _ s (λ b a t k. computed_spec-InRoom (binary Op.eq a b) t k) h
op_spec-InRoom Op.ne s h =
    two_spec-InRoom _ s (λ b a t k. computed_spec-InRoom (binary Op.ne a b) t k) h
op_spec-InRoom Op.lt s h =
    two_spec-InRoom _ s (λ b a t k. computed_spec-InRoom (binary Op.lt a b) t k) h
op_spec-InRoom Op.le s h =
    two_spec-InRoom _ s (λ b a t k. computed_spec-InRoom (binary Op.le a b) t k) h
op_spec-InRoom Op.gt s h =
    two_spec-InRoom _ s (λ b a t k. computed_spec-InRoom (binary Op.gt a b) t k) h
op_spec-InRoom Op.ge s h =
    two_spec-InRoom _ s (λ b a t k. computed_spec-InRoom (binary Op.ge a b) t k) h
op_spec-InRoom Op.ltu s h =
    two_spec-InRoom _ s (λ b a t k. computed_spec-InRoom (binary Op.ltu a b) t k) h
op_spec-InRoom Op.leu s h =
    two_spec-InRoom _ s (λ b a t k. computed_spec-InRoom (binary Op.leu a b) t k) h
op_spec-InRoom _ s h = tt

chain-InRoom :
    {A B : Type 0} (v : View A) (f : A → List ℕ → View B)
    → InRoom v
    → ((a : A) (s : List ℕ) → length s ≤ ds_cap → InRoom (f a s))
    → InRoom (chain v f)
chain-InRoom (gives a s) f h k = k a s h
chain-InRoom (fails e s) f h k = tt
chain-InRoom undefined f h k = tt

pop_spec-InRoom : (s : List ℕ) → length s ≤ ds_cap → InRoom (pop_spec s)
pop_spec-InRoom [] h = tt
pop_spec-InRoom (a ∷ s) h = omega arith

InRoom-if : (b : Bool) (v w : View (Unit {0})) → InRoom v → InRoom w → InRoom (if b then v else w)
InRoom-if true v w hv hw = hv
InRoom-if false v w hv hw = hw

list_run-InRoom : (p : Program) (s : List ℕ) → length s ≤ ds_cap → InRoom (list_run p s)
list_run-InRoom (op o) s h = op_spec-InRoom o s h
list_run-InRoom (literal n) s h = push_spec-InRoom n s
list_run-InRoom (seq p q) s h =
    chain-InRoom (list_run p s) _ (list_run-InRoom p s h) (λ _ t k. list_run-InRoom q t k)
list_run-InRoom (branch p q) s h =
    chain-InRoom (pop_spec s) _ (pop_spec-InRoom s h)
      (λ flag t k. InRoom-if (flag == 0) _ _ (list_run-InRoom q t k) (list_run-InRoom p t k))
list_run-InRoom (repeat t b) s h = tt
list_run-InRoom (call idx) s h = tt

module _ {W : Type 0} where
  -- The view of a step whose value is dropped.
  view-effect :
      (r : Outcome W ℕ) (v : View (Unit {0}))
      → view r ≡ go_on 0 v
      → view (then_run r (λ _. pure tt)) ≡ v
  view-effect r v h = seen r ∙ ap drop_value h ∙ dropped v
    where
      seen : (r : Outcome W ℕ) → view (then_run r (λ _. pure tt)) ≡ drop_value (view r)
      seen (ok a vm) = refl
      seen (stop e vm) = refl
      seen fault = refl
      seen starved = refl

      dropped : (v : View (Unit {0})) → drop_value (go_on 0 v) ≡ v
      dropped (gives _ s) = refl
      dropped (fails e s) = refl
      dropped undefined = refl

  stack_fits : (vm : Vm W) → vm.sp ≤ ds_cap → length (stack_of vm) ≤ ds_cap
  stack_fits vm fits = rw length-cells_down fits

  then_run-view :
      {A : Type 0} (r : Outcome W A) (f : A → M W (Unit {0})) (g : A → List ℕ → View (Unit {0}))
      → InRoom (view r)
      → ((a : A) (vm : Vm W) → vm.sp ≤ ds_cap → view (f a vm) ≡ g a (stack_of vm))
      → view (then_run r f) ≡ chain (view r) g
  then_run-view (ok a vm) f g fits h =
      h a vm (subst (λ n. n ≤ ds_cap) (length-cells_down vm.ds vm.sp) fits)
  then_run-view (stop e vm) f g fits h = refl
  then_run-view fault f g fits h = refl
  then_run-view starved f g fits h = refl

  view-returned : (r : Outcome W (Unit {0})) → view (returned r) ≡ ended (view r)
  view-returned (ok _ vm) = refl
  view-returned (stop e vm) = refl
  view-returned fault = refl
  view-returned starved = refl

  if-view :
      (b : Bool) (x y : M W (Unit {0})) (v w : List ℕ → View (Unit {0})) (vm : Vm W)
      → view (x vm) ≡ v (stack_of vm)
      → view (y vm) ≡ w (stack_of vm)
      → view (if b then x vm else y vm) ≡ (if b then v (stack_of vm) else w (stack_of vm))
  if-view true x y v w vm hx hy = hx
  if-view false x y v w vm hx hy = hy

module _ {W : Type 0} (env : Env W) where
  eval-view :
      (p : Program) (vm : Vm W)
      → IsListProgram p
      → vm.sp ≤ ds_cap
      → view (eval env p vm) ≡ list_run p (stack_of vm)
  unfolding effect
  eval-view (op o) vm h fits = view-effect _ _ (exec_op-Implements env o _ 0 _ 0 vm h fits)
  eval-view (literal n) vm h fits = (ds_push-Refines n).shows vm
  eval-view (seq p q) vm h fits =
      then_run-view (eval env p vm) (λ _. eval env q) (λ _. list_run q)
        (subst InRoom (sym (eval-view p vm h.0 fits))
          (list_run-InRoom p (stack_of vm) (stack_fits vm fits)))
        (λ _ vm' fits'. eval-view q vm' h.1 fits')
      ∙ ap (λ v. chain v (λ _. list_run q)) (eval-view p vm h.0 fits)
  eval-view (branch p q) vm h fits =
      then_run-view (ds_pop vm) _ (chosen p q)
        (subst InRoom (sym ((ds_pop-Refines).shows vm))
          (pop_spec-InRoom (stack_of vm) (stack_fits vm fits)))
        (λ flag vm' fits'.
          if-view (flag == 0) (eval env q) (eval env p) (list_run q) (list_run p) vm'
            (eval-view q vm' h.1 fits') (eval-view p vm' h.0 fits'))
      ∙ ap (λ v. chain v (chosen p q)) ((ds_pop-Refines).shows vm)
  eval-view (repeat t b) vm h fits = absurd h
  eval-view (call idx) vm h fits = absurd h

  straight_line : (p : Program) → IsListProgram p → IsStraightLine p
  straight_line (op o) h = tt
  straight_line (literal n) h = tt
  straight_line (seq p q) h = (straight_line p h.0, straight_line q h.1)
  straight_line (branch p q) h = (straight_line p h.0, straight_line q h.1)
  straight_line (repeat t b) h = h
  straight_line (call idx) h = h

  -- A word whose bytes are those of a structured program over the data stack (its opcodes, literals, sequences
  -- and branches) computes the function on lists that the program stands for: on a machine with at
  -- most 256 numbers on the stack, vm_exec with enough fuel leaves exactly the list that `list_run`
  -- gives and returns OK, or returns the code of the first failing opcode with the list as it was then,
  -- or meets the division that is undefined in C++ where `list_run` does.
  pub vm_exec-list_run :
      (p : Program) (entry : Word) (vm : Vm W)
      → IsListProgram p
      → Fits p
      → vm.sp ≤ ds_cap
      → entry.code ≡ some (word_bytes p)
      → entry.code_len ≡ size p + 1
      → (enough : ℕ) × ((fuel : ℕ)
          → enough ≤ fuel
          → view (vm_exec env fuel entry vm) ≡ ended (list_run p (stack_of vm)))
  vm_exec-list_run p entry vm h fits room code_is length_is =
      let all = vm_exec-eval env p entry vm (straight_line p h) fits code_is length_is in
      (
        all.0,
        λ fuel enough.
            ap view (all.1 fuel enough)
            ∙ view-returned (eval env p vm)
            ∙ ap ended (eval-view p vm h room),
      )
