-- ===== src/Program/Straight.antt =====
-- Structured programs without loops and calls: what they do as a function of the machine.
use v4_engine.Base.{
  ℕ, zero, suc, ◌+◌, ◌≤◌, ◌≡◌, refl, ◌⊎◌, inl, inr, Bool, true, false, leb, arith, some, ◌==◌,
  if◌then◌else◌,
}
use v4_engine.Interp.Loop.{vm_exec}
use v4_engine.Program.{
  Program, op, literal, seq, branch, repeat, call, size, word_bytes, Fits, effect, Runs, of_op,
  of_literal, in_turn, ended_first, no_flag, taken, not_taken,
}
use v4_engine.Program.Simulation.{returned, vm_exec-Runs}
use v4_engine.Stack.{ds_push, ds_pop}
use v4_engine.Panic.{vm_panic}
use v4_engine.Vm.{Vm, Env, Word, Outcome, ok, stop, fault, starved, then_run, M}

abbrev pub IsStraightLine : Program → Type 0
IsStraightLine (op o) = Unit
IsStraightLine (literal n) = Unit
IsStraightLine (seq p q) = IsStraightLine p × IsStraightLine q
IsStraightLine (branch p q) = IsStraightLine p × IsStraightLine q
IsStraightLine (repeat t b) = ⊥
IsStraightLine (call idx) = ⊥

-- A pop gives a value or an error.
abbrev GivesOrStops : {W : Type 0} → Outcome W ℕ → Type 0
GivesOrStops {W} r =
    ((e : ℕ) × (vm : Vm W) × (r ≡ stop e vm)) ⊎ ((a : ℕ) × (vm : Vm W) × (r ≡ ok a vm))

if_stop :
    {W : Type 0} (b : Bool) (e a : ℕ) (vm vm' : Vm W)
    → GivesOrStops (if b then stop e vm else ok a vm')
if_stop true e a vm vm' = inl (e, vm, refl)
if_stop false e a vm vm' = inr (a, vm', refl)

ds_pop-cases : {W : Type 0} (vm : Vm W) → GivesOrStops (ds_pop vm)
unfolding ds_pop vm_panic
ds_pop-cases vm = if_stop (leb vm.sp 0) _ _ _ _

module _ {W : Type 0} (env : Env W) where
  abbrev pub eval : Program → M W (Unit {0})
  eval (op o) vm = effect env o vm
  eval (literal n) vm = ds_push n vm
  eval (seq p q) vm = then_run (eval p vm) (λ _. eval q)
  eval (branch p q) vm =
      then_run (ds_pop vm) (λ flag vm'. if flag == 0 then eval q vm' else eval p vm')
  eval (repeat t b) vm = starved
  eval (call idx) vm = starved

  seq-Runs :
      (p q : Program) (vm : Vm W) (r : Outcome W (Unit {0}))
      → Runs env p vm r
      → ((vm' : Vm W) → Runs env q vm' (eval q vm'))
      → Runs env (seq p q) vm (then_run r (λ _. eval q))
  seq-Runs p q vm (ok _ vm') first rest = in_turn first (rest vm')
  seq-Runs p q vm (stop e vm') first rest = ended_first first tt
  seq-Runs p q vm fault first rest = ended_first first tt
  seq-Runs p q vm starved first rest = ended_first first tt

  abbrev choose : Program → Program → ℕ → M W (Unit {0})
  choose p q flag vm = if flag == 0 then eval q vm else eval p vm

  branch-Runs :
      (p q : Program) (vm vm' : Vm W) (flag : ℕ)
      → ds_pop vm ≡ ok flag vm'
      → Runs env p vm' (eval p vm')
      → Runs env q vm' (eval q vm')
      → Runs env (branch p q) vm (choose p q flag vm')
  branch-Runs p q vm vm' zero popped run_p run_q = not_taken popped run_q
  branch-Runs p q vm vm' (suc n) popped run_p run_q =
      rw (not_zero n) (taken popped (λ e. absurd (omega arith)) run_p)
    where
      not_zero : (n : ℕ) → (suc n == 0) ≡ false
      not_zero n = ground arith

  eval-Runs : (p : Program) (vm : Vm W) → IsStraightLine p → Runs env p vm (eval p vm)
  eval-Runs (op o) vm h = of_op
  eval-Runs (literal n) vm h = of_literal
  eval-Runs (seq p q) vm h =
      seq-Runs p q vm (eval p vm) (eval-Runs p vm h.0) (λ vm'. eval-Runs q vm' h.1)
  eval-Runs (branch p q) vm h = elim (ds_pop-cases vm) [
    | inl (e, vm', stopped) ↦ rw stopped (no_flag stopped)
    | inr (flag, vm', popped) ↦
        rw popped (branch-Runs p q vm vm' flag popped (eval-Runs p vm' h.0) (eval-Runs q vm' h.1))
  ]
  eval-Runs (repeat t b) vm h = absurd h
  eval-Runs (call idx) vm h = absurd h

  -- Code without loops and calls that was made from a structured program is executed to its end on every
  -- machine: with some fuel, and any larger one, vm_exec returns what `eval` says of the machine.
  pub vm_exec-eval :
      (p : Program) (entry : Word) (vm : Vm W)
      → IsStraightLine p
      → Fits p
      → entry.code ≡ some (word_bytes p)
      → entry.code_len ≡ size p + 1
      → (enough : ℕ) × ((fuel : ℕ)
          → enough ≤ fuel
          → vm_exec env fuel entry vm ≡ returned (eval p vm))
  vm_exec-eval p entry vm h fits code_is length_is =
      vm_exec-Runs env p entry vm (eval p vm) (eval-Runs p vm h) fits code_is length_is
