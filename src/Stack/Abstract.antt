-- ===== src/Stack/Abstract.antt =====
-- The data stack of src/core.cpp as the list that it stands for, last pushed first.
use v4_engine.Base.{
  ℕ, zero, suc, ◌+◌, ◌-◌, ◌≤◌, ◌≡◌, refl, ap, ap₂, ◌∙◌, Bool, true, false, Option, none, some, List,
  [], ◌∷◌, arith, ltb, leb, if◌then◌else◌, update, length, cells_down,
}
use native.Mathlib.Numerals.{add-one}
use v4_engine.Err.{Err, v4_err}
use v4_engine.Panic.{report_panic, vm_panic}
use v4_engine.Stack.{ds_push, ds_pop, ds_peek}
use v4_engine.Vm.{Vm, PanicInfo, Outcome, ok, stop, fault, starved, M, ◌>>=◌, then_run, ds_cap}

abbrev pub stack_of : {W : Type 0} → Vm W → List ℕ
stack_of vm = cells_down vm.ds vm.sp

-- What can be seen of an outcome: the value or the code, and the data stack.
pub data View (A : Type 0) : Type 0 where
  gives : A → List ℕ → View A
  fails : ℕ → List ℕ → View A
  undefined : View A

abbrev pub view : {W A : Type 0} → Outcome W A → View A
view (ok a vm) = gives a (stack_of vm)
view (stop e vm) = fails e (stack_of vm)
view fault = undefined
view starved = undefined

-- A bounded stack of numbers.
abbrev pub push_spec : ℕ → List ℕ → View (Unit {0})
push_spec a s =
    if leb ds_cap (length s) then fails (v4_err Err.stack_overflow) s else gives tt (a ∷ s)

abbrev pub pop_spec : List ℕ → View ℕ
pop_spec [] = fails (v4_err Err.stack_underflow) []
pop_spec (a ∷ s) = gives a s

abbrev pub top_spec : List ℕ → View ℕ
top_spec [] = fails (v4_err Err.stack_underflow) []
top_spec (a ∷ s) = gives a (a ∷ s)

abbrev pub next_spec : List ℕ → View ℕ
next_spec (b ∷ a ∷ s) = gives a (b ∷ a ∷ s)
next_spec s = fails (v4_err Err.stack_underflow) s

abbrev pub chain : {A B : Type 0} → View A → (A → List ℕ → View B) → View B
chain (gives a s) f = f a s
chain (fails e s) f = fails e s
chain undefined f = undefined

-- `m` does to the machine's stack what `spec` says of the list.
pub record Refines {W A : Type 0} (m : M W A) (spec : List ℕ → View A) : Type 0 where
  pub shows : (vm : Vm W) → view (m vm) ≡ spec (stack_of vm)

-- The same at a machine whose stack pointer is in range.
abbrev pub Implements : {W A : Type 0} → M W A → (List ℕ → View A) → Type 0
Implements {W} m spec = (vm : Vm W) → vm.sp ≤ ds_cap → view (m vm) ≡ spec (stack_of vm)

module _ {ℓ} {A : Type ℓ} where
  pub length-cells_down : (a : ℕ → A) (n : ℕ) → length (cells_down a n) ≡ n
  length-cells_down a zero = refl
  length-cells_down a (suc n) = ap suc (length-cells_down a n)

  -- A write at or above the top shows nowhere below it.
  pub cells_down-update :
      (a : ℕ → A) (i : ℕ) (v : A) (n : ℕ) → n ≤ i → cells_down (update a i v) n ≡ cells_down a n
  cells_down-update a i v zero h = refl
  cells_down-update a i v (suc n) h =
      ap₂ ◌∷◌ (ground arith) (cells_down-update a i v n (omega arith))

  pub cells_down-push :
      (a : ℕ → A) (n : ℕ) (v : A) → cells_down (update a n v) (n + 1) ≡ v ∷ cells_down a n
  cells_down-push a n v =
      rw add-one (ap₂ ◌∷◌ (ground arith) (cells_down-update a n v n (omega arith)))

suc-pred : (n : ℕ) → suc n - 1 ≡ n
suc-pred n = omega arith

push_view :
    (cells : ℕ → ℕ) (n a : ℕ)
    → push_spec a (cells_down cells n) ≡ (
        if leb ds_cap n
        then fails (v4_err Err.stack_overflow) (cells_down cells n)
        else gives tt (cells_down (update cells n a) (n + 1)))
push_view cells n a = rw (length-cells_down cells n, cells_down-push cells n a)

pop_view :
    (cells : ℕ → ℕ) (n : ℕ)
    → pop_spec (cells_down cells n) ≡ (
        if leb n 0
        then fails (v4_err Err.stack_underflow) (cells_down cells n)
        else gives (cells (n - 1)) (cells_down cells (n - 1)))
pop_view cells zero = refl
pop_view cells (suc n) = ground (arith, suc-pred n)

top_view :
    (cells : ℕ → ℕ) (n : ℕ)
    → top_spec (cells_down cells n) ≡ (
        if ltb n 1
        then fails (v4_err Err.stack_underflow) (cells_down cells n)
        else gives (cells (n - 1 - 0)) (cells_down cells n))
top_view cells zero = refl
top_view cells (suc n) = ground (arith, suc-pred n)

next_view :
    (cells : ℕ → ℕ) (n : ℕ)
    → next_spec (cells_down cells n) ≡ (
        if ltb n 2
        then fails (v4_err Err.stack_underflow) (cells_down cells n)
        else gives (cells (n - 1 - 1)) (cells_down cells n))
next_view cells zero = refl
next_view cells (suc zero) = refl
next_view cells (suc (suc n)) = ground (arith, suc-pred (suc n), suc-pred n)

module _ {W : Type 0} where
  pub stack_of-report_panic :
      (h : Option (W → PanicInfo → W)) (vm : Vm W) (e : ℕ)
      → stack_of (report_panic h vm e) ≡ stack_of vm
  unfolding report_panic
  stack_of-report_panic none vm e = refl
  stack_of-report_panic (some handler) vm e = refl

  pub vm_panic-Refines :
      {A : Type 0} (e : Err) → Refines (vm_panic {W = W} {A = A} e) (fails (v4_err e))
  unfolding vm_panic
  vm_panic-Refines e = record {
    shows = λ vm. ap (fails (v4_err e)) (stack_of-report_panic vm.panic_handler vm _);
  }

  view-if :
      {A : Type 0} (b : Bool) (x y : Outcome W A)
      → view (if b then x else y) ≡ (if b then view x else view y)
  view-if true x y = refl
  view-if false x y = refl

  -- The data stack is a stack of at most 256 numbers: a push on a full one changes nothing and returns
  -- StackOverflow.
  pub ds_push-Refines : (a : ℕ) → Refines (ds_push {W = W} a) (push_spec a)
  unfolding ds_push
  ds_push-Refines a = record {
    shows =
        λ vm. rw (view-if, push_view vm.ds vm.sp a, (vm_panic-Refines Err.stack_overflow).shows vm);
  }

  -- A pop takes the value pushed last, and on an empty stack changes nothing and returns StackUnderflow.
  pub ds_pop-Refines : Refines (ds_pop {W = W}) pop_spec
  unfolding ds_pop
  ds_pop-Refines = record {
    shows =
        λ vm. rw (view-if, pop_view vm.ds vm.sp, (vm_panic-Refines Err.stack_underflow).shows vm);
  }

  pub ds_peek_top-Refines : Refines (ds_peek {W = W} 0) top_spec
  unfolding ds_peek
  ds_peek_top-Refines = record {
    shows =
        λ vm. rw (view-if, top_view vm.ds vm.sp, (vm_panic-Refines Err.stack_underflow).shows vm);
  }

  pub ds_peek_next-Refines : Refines (ds_peek {W = W} 1) next_spec
  unfolding ds_peek
  ds_peek_next-Refines = record {
    shows =
        λ vm. rw (view-if, next_view vm.ds vm.sp, (vm_panic-Refines Err.stack_underflow).shows vm);
  }

  then_run-view :
      {A B : Type 0} {f : A → M W B} {t : A → List ℕ → View B} (r : Outcome W A)
      → ((a : A) → Refines (f a) (t a))
      → view (then_run r f) ≡ chain (view r) t
  then_run-view (ok a vm) h = (h a).shows vm
  then_run-view (stop e vm) h = refl
  then_run-view fault h = refl
  then_run-view starved h = refl

  pub Refines-chain :
      {A B : Type 0} {m : M W A} {f : A → M W B} {s : List ℕ → View A} {t : A → List ℕ → View B}
      → Refines m s
      → ((a : A) → Refines (f a) (t a))
      → Refines (m >>= f) (λ l. chain (s l) t)
  Refines-chain {m = m} {t = t} hm hf = record {
    shows = λ vm. then_run-view (m vm) hf ∙ ap (λ w. chain w t) (hm.shows vm);
  }

  -- Two specifications that agree on every list of at most 256 numbers.
  pub Refines-Implements :
      {A : Type 0} {m : M W A} {s : List ℕ → View A} (t : List ℕ → View A)
      → Refines m s
      → ((l : List ℕ) → length l ≤ ds_cap → s l ≡ t l)
      → Implements m t
  Refines-Implements t h e vm fits = h.shows vm ∙ e (stack_of vm) (rw length-cells_down fits)
