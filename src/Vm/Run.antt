-- ===== src/Vm/Run.antt =====
-- The control flow of the C functions that act on a machine: a function either goes on with a value, or
-- returns a code early, as `if (v4_err e = f(vm)) return e;` does.
use v4_engine.Base.{ℕ}
use v4_engine.Vm.State.{Vm}

-- `stop e vm` is `return e`. `fault` is a step that C++ leaves undefined and that the model follows no
-- further: a copy past the end of an allocated block, or a division that traps. `starved` is a loop whose
-- fuel has run out.
pub data Outcome (W : Type 0) (A : Type 0) : Type 0 where
  ok : A → Vm W → Outcome W A
  stop : ℕ → Vm W → Outcome W A
  fault : Outcome W A
  starved : Outcome W A

abbrev pub M : Type 0 → Type 0 → Type 0
M W A = Vm W → Outcome W A

abbrev pub pure : {W A : Type 0} → A → M W A
pure a vm = ok a vm

abbrev pub then_run : {W A B : Type 0} → Outcome W A → (A → M W B) → Outcome W B
then_run (ok a vm) f = f a vm
then_run (stop e vm) f = stop e vm
then_run fault f = fault
then_run starved f = starved

infixl 5 ◌>>=◌ ◌>>◌
abbrev pub ◌>>=◌ : {W A B : Type 0} → M W A → (A → M W B) → M W B
◌>>=◌ m f vm = then_run (m vm) f

abbrev pub ◌>>◌ : {W B : Type 0} → M W (Unit {0}) → M W B → M W B
m >> k = m >>= λ _. k
