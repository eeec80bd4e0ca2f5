-- ===== src/Program/Leads.antt =====
-- Stretches of the loop of vm_exec_raw in src/core.cpp, from one place of the bytecode to another.
use v4_engine.Base.{
  if◌then◌else◌, some, ℕ, suc, ◌+◌, ◌^◌, ◌≤◌, ◌<◌, ◌≡◌, refl, ap, ◌∙◌, subst, [], ◌∷◌, ◌==◌, arith,
}
use v4_engine.Interp.{Code, jump_target}
use v4_engine.Interp.Loop.{exec_op, exec_from}
use v4_engine.Opcode.{Op, opcode}
use v4_engine.Program.{jz_by, jmp_by, IsPlain, IsEnded, effect, le16, le32}
use v4_engine.Program.Effects.{exec_op-effect}
use v4_engine.Program.Layout.{Placed, right_part}
use v4_engine.Program.Steps.{
  jmp_op-lands, branch_op-lands, branch_op-stops, literal_op-pushes, exec_from-step,
}
use v4_engine.Stack.{ds_push, ds_pop}
use v4_engine.Vm.{Vm, Env, Outcome, ok, stop, fault, starved, then_run, M}

module _ {W : Type 0} where
  pub then_run_assoc :
      {A B C : Type 0} (r : Outcome W A) (f : A → M W B) (g : B → M W C)
      → then_run (then_run r f) g ≡ then_run r (λ a vm. then_run (f a vm) g)
  then_run_assoc (ok a vm) f g = refl
  then_run_assoc (stop e vm) f g = refl
  then_run_assoc fault f g = refl
  then_run_assoc starved f g = refl

  then_run-ended :
      {A B : Type 0} (r : Outcome W A) (f g : A → M W B) → IsEnded r → then_run r f ≡ then_run r g
  then_run-ended (ok a vm) f g h = absurd h
  then_run-ended (stop e vm) f g h = refl
  then_run-ended fault f g h = refl
  then_run-ended starved f g h = refl

-- From `ip` the loop comes with outcome `r` to `ip'`, at a cost of fuel, once the rest of the fuel is enough for
-- the calls on the way.
pub record Leads {W : Type 0} (env : Env W) (code : Code) (ip : ℕ) (vm : Vm W)
    (r : Outcome W (Unit {0})) (ip' : ℕ) : Type 0 where
  pub cost : ℕ
  pub need : ℕ
  pub comes :
      (fuel : ℕ)
      → need ≤ fuel
      → exec_from env (cost + fuel) code ip vm ≡ then_run r (λ _. exec_from env fuel code ip')

module _ {W : Type 0} {env : Env W} {code : Code} where
  pub one_step :
      {ip ip' : ℕ} {vm : Vm W} {r : Outcome W (Unit {0})}
      → ((fuel : ℕ)
          → exec_from env (suc fuel) code ip vm ≡ then_run r (λ _. exec_from env fuel code ip'))
      → Leads env code ip vm r ip'
  one_step {ip} {vm = vm} h = record {
    cost = 1;
    need = 0;
    comes = λ fuel _. ap (λ n. exec_from env n code ip vm) (omega arith) ∙ h fuel;
  }

  pub Leads-on :
      {ip ip₁ ip₂ : ℕ} {vm vm₁ : Vm W} {r : Outcome W (Unit {0})}
      → Leads env code ip vm (ok tt vm₁) ip₁
      → Leads env code ip₁ vm₁ r ip₂
      → Leads env code ip vm r ip₂
  Leads-on {ip} {vm = vm} a b = record {
    cost = a.cost + b.cost;
    need = a.need + b.need;
    comes = λ fuel h.
        ap (λ n. exec_from env n code ip vm) (split a.cost b.cost fuel)
        ∙ a.comes (b.cost + fuel) (omega arith)
        ∙ b.comes fuel (omega arith);
  }
    where
      split : (m n fuel : ℕ) → m + n + fuel ≡ m + (n + fuel)
      split m n fuel = omega arith

  pub Leads-ended :
      {ip ip₁ ip₂ : ℕ} {vm : Vm W} {r : Outcome W (Unit {0})}
      → IsEnded r
      → Leads env code ip vm r ip₁
      → Leads env code ip vm r ip₂
  Leads-ended {r = r} h a = record {
    cost = a.cost;
    need = a.need;
    comes = λ fuel fed. a.comes fuel fed ∙ then_run-ended r _ _ h;
  }

  -- Whatever machine the first stretch leaves, a jump from its end follows.
  pub Leads-after :
      {ip ip₁ ip₂ : ℕ} {vm : Vm W} (r : Outcome W (Unit {0}))
      → Leads env code ip vm r ip₁
      → ((vm' : Vm W) → Leads env code ip₁ vm' (ok tt vm') ip₂)
      → Leads env code ip vm r ip₂
  Leads-after (ok _ vm') a b = Leads-on a (b vm')
  Leads-after (stop e vm') a b = Leads-ended tt a
  Leads-after fault a b = Leads-ended tt a
  Leads-after starved a b = Leads-ended tt a

  pub Leads-to :
      {ip ip₁ ip₂ : ℕ} {vm : Vm W} {r : Outcome W (Unit {0})}
      → ip₁ ≡ ip₂
      → Leads env code ip vm r ip₁
      → Leads env code ip vm r ip₂
  Leads-to {ip} {vm = vm} {r = r} e a = subst (λ t. Leads env code ip vm r t) e a

module _ {W : Type 0} (env : Env W) {code : Code} {ip : ℕ} where
  pub op-Leads :
      (o : Op) (vm : Vm W)
      → IsPlain o
      → Placed code ip (opcode o ∷ [])
      → Leads env code ip vm (effect env o vm) (ip + 1)
  op-Leads o vm plain h = one_step λ fuel.
      exec_from-step env o [] fuel vm h
      ∙ ap (λ r. then_run r (exec_from env fuel code))
          (exec_op-effect env o _ fuel code (ip + 1) vm plain)
      ∙ then_run_assoc (effect env o vm) _ _

  pub literal-Leads :
      (n : ℕ) (vm : Vm W)
      → n < 2 ^ 32
      → Placed code ip (opcode Op.lit ∷ le32 n)
      → Leads env code ip vm (ds_push n vm) (ip + 1 + 4)
  unfolding exec_op
  literal-Leads n vm small h = one_step λ fuel.
      exec_from-step env Op.lit (le32 n) fuel vm h
      ∙ ap (λ r. then_run r (exec_from env fuel code))
          (literal_op-pushes n vm small (right_part (opcode Op.lit ∷ []) (le32 n) 1 refl h))
      ∙ then_run_assoc (ds_push n vm) _ _

  pub jmp-Leads :
      (off t : ℕ) (vm : Vm W)
      → off < 2 ^ 16
      → jump_target code.len (ip + 1 + 2) off ≡ some t
      → Placed code ip (jmp_by off)
      → Leads env code ip vm (ok tt vm) t
  unfolding exec_op
  jmp-Leads off t vm small lands h = one_step λ fuel.
      exec_from-step env Op.jmp (le16 off) fuel vm h
      ∙ ap (λ r. then_run r (exec_from env fuel code))
          (jmp_op-lands off t vm small (right_part (opcode Op.jmp ∷ []) (le16 off) 1 refl h) lands)

  module _ (off t : ℕ) (small : off < 2 ^ 16) (h : Placed code ip (jz_by off)) where
    operand_at : Placed code (ip + 1) (le16 off)
    operand_at = right_part (opcode Op.jz ∷ []) (le16 off) 1 refl h

    pub jz-Leads :
        {flag : ℕ} {vm vm₁ : Vm W} (goal : ℕ)
        → jump_target code.len (ip + 1 + 2) off ≡ some t
        → ds_pop vm ≡ ok flag vm₁
        → (if flag == 0 then t else ip + 1 + 2) ≡ goal
        → Leads env code ip vm (ok tt vm₁) goal
    unfolding exec_op
    jz-Leads {flag} {vm} {vm₁} goal lands popped e = Leads-to e (
        one_step λ fuel.
          exec_from-step env Op.jz (le16 off) fuel vm h
          ∙ ap (λ r. then_run r (exec_from env fuel code))
              (branch_op-lands (λ cond. cond == 0) off t flag vm vm₁ small operand_at lands popped))

    pub jz-Stops :
        {e : ℕ} {vm vm₁ : Vm W} → ds_pop vm ≡ stop e vm₁ → Leads env code ip vm (stop e vm₁) t
    unfolding exec_op
    jz-Stops {e} {vm} {vm₁} popped = one_step λ fuel.
        exec_from-step env Op.jz (le16 off) fuel vm h
        ∙ ap (λ r. then_run r (exec_from env fuel code))
            (branch_op-stops (λ cond. cond == 0) off e vm vm₁ operand_at popped)
