-- ===== src/Program/Simulation.antt =====
-- The bytecode of a structured program, in the loop of vm_exec_raw in src/core.cpp.
use v4_engine.Base.{
  ℕ, suc, ◌+◌, ◌-◌, ◌^◌, ◌≤◌, ◌<◌, ◌≡◌, refl, ap, ◌∙◌, false, Option, some, [], ◌∷◌, ◌==◌, arith,
  u16, lt→not_leb, Bool-cases, inl, inr,
}
use v4_engine.Interp.{Code}
use v4_engine.Interp.Call.{Runner, return_from, call_code, call_word, call_op}
use v4_engine.Interp.Loop.{exec_op, exec_from, vm_exec, vm_exec_raw, returns}
use v4_engine.Err.{Err}
use v4_engine.Opcode.{Op, opcode}
use v4_engine.Program.{
  Program, repeat, size, le16, encode, word_bytes, word_code, Fits, IsWord, back_in, Runs, of_op,
  of_literal, in_turn, ended_first, no_flag, taken, not_taken, test_ended, test_no_flag, finished,
  body_ended, once_more, of_call,
}
use v4_engine.Program.Layout.{Placed, length-encode, left_part, right_part, word_code-Placed}
use v4_engine.Program.Leads.{
  Leads, then_run_assoc, Leads-after, Leads-on, Leads-ended, Leads-to, op-Leads, literal-Leads,
  jz-Stops,
}
use v4_engine.Program.Parts.{
  branch_at, repeat_at, enter_then, enter_else, leave_then, enter_body, leave_loop, go_back,
}
use v4_engine.Program.Steps.{exec_from-step, read_i16_le-le16, operand_there}
use v4_engine.Vm.{Vm, Env, Word, Outcome, ok, stop, fault, starved, then_run}

module _ {W : Type 0} where
  -- What a word returns whose program ended so: RET gives OK.
  abbrev pub returned : Outcome W (Unit {0}) → Outcome W ⊥
  returned (ok _ vm) = stop 0 vm
  returned (stop e vm) = stop e vm
  returned fault = fault
  returned starved = starved

  then_run-returned :
      (r : Outcome W (Unit {0})) (f : Unit {0} → Vm W → Outcome W ⊥)
      → ((vm : Vm W) → f tt vm ≡ stop 0 vm)
      → then_run r f ≡ returned r
  then_run-returned (ok _ vm) f h = h vm
  then_run-returned (stop e vm) f h = refl
  then_run-returned fault f h = refl
  then_run-returned starved f h = refl

  return_from-returned :
      (fp : Option ℕ) (ip : ℕ) (r : Outcome W (Unit {0}))
      → return_from fp ip (returned r) ≡ then_run (back_in fp r) (λ _ vm. ok ip vm)
  unfolding return_from
  return_from-returned fp ip (ok _ vm) = refl
  return_from-returned fp ip (stop e vm) = elim (Bool-cases (e == 0)) [
    | inl fine ↦ rw fine refl
    | inr code ↦ rw code refl
  ]
  return_from-returned fp ip fault = refl
  return_from-returned fp ip starved = refl

module _ {W : Type 0} (env : Env W) where
  ret-Stops :
      {code : Code} {ip : ℕ} (fuel : ℕ) (vm : Vm W)
      → Placed code ip (opcode Op.ret ∷ [])
      → exec_from env (suc fuel) code ip vm ≡ stop 0 vm
  unfolding exec_op returns
  ret-Stops fuel vm h = exec_from-step env Op.ret [] fuel vm h

  -- A word's code from its first byte to its return.
  word_returns :
      (p : Program) {vm : Vm W} {r : Outcome W (Unit {0})}
      (run : Leads env (word_code p) 0 vm r (0 + size p)) (fuel : ℕ)
      → run.cost + suc run.need ≤ fuel
      → exec_from env fuel (word_code p) 0 vm ≡ returned r
  word_returns p {vm} {r} run fuel enough =
      ap (λ n. exec_from env n (word_code p) 0 vm) (split run.cost run.need enough)
      ∙ run.comes (suc (fuel - run.cost - 1)) (left run.cost run.need enough)
      ∙ then_run-returned r _ (λ vm'. ret-Stops _ vm' ret_at)
    where
      split : (c n : ℕ) → c + suc n ≤ fuel → fuel ≡ c + suc (fuel - c - 1)
      split c n h = omega arith

      left : (c n : ℕ) → c + suc n ≤ fuel → n ≤ suc (fuel - c - 1)
      left c n h = omega arith

      ret_at : Placed (word_code p) (0 + size p) (opcode Op.ret ∷ [])
      ret_at =
          right_part (encode p) (opcode Op.ret ∷ []) (size p) (length-encode p) (word_code-Placed p)

  some_length : (n : ℕ) → (n + 1 == 0) ≡ false
  some_length n = ground arith

  call_op-returns :
      {code : Code} {ip idx : ℕ} {vm : Vm W} (r : Outcome W (Unit {0})) (p : Program)
      (run : Runner W)
      → idx < 2 ^ 16
      → Placed code ip (le16 idx)
      → IsWord vm idx p
      → run (word_code p) (record vm { fp = some vm.rp }) ≡ returned r
      → call_op run code ip vm ≡ then_run (back_in vm.fp r) (λ _ vm. ok (ip + 2) vm)
  unfolding call_op call_word call_code
  call_op-returns {ip = ip} {idx} {vm} r p run small h word runs =
      rw
        (
          operand_there (le16 idx) 2 Err.truncated_jump vm refl h,
          read_i16_le-le16 idx small h,
          lt→not_leb idx (u16 vm.word_count) word.index_in,
          word.code_is,
          call_code,
          word.length_is,
          some_length (size p),
          runs,
        )
        (return_from-returned vm.fp (ip + 2) r)

  call-Leads :
      {code : Code} {ip idx : ℕ} {vm : Vm W} {r : Outcome W (Unit {0})} (p : Program)
      → idx < 2 ^ 16
      → Placed code ip (opcode Op.call ∷ le16 idx)
      → IsWord vm idx p
      → Leads env (word_code p) 0 (record vm { fp = some vm.rp }) r (0 + size p)
      → Leads env code ip vm (back_in vm.fp r) (ip + 1 + 2)
  unfolding exec_op
  call-Leads {code} {ip} {idx} {vm} {r} p small h word run = record {
    cost = 1;
    need = run.cost + suc run.need;
    comes = λ fuel enough.
        ap (λ n. exec_from env n code ip vm) (one_more fuel)
        ∙ exec_from-step env Op.call (le16 idx) fuel vm h
        ∙ ap (λ o. then_run o (exec_from env fuel code))
            (call_op-returns r p (λ callee. exec_from env fuel callee 0) small
              (right_part (opcode Op.call ∷ []) (le16 idx) 1 refl h) word
              (word_returns p run fuel enough))
        ∙ then_run_assoc (back_in vm.fp r) _ _;
  }
    where
      one_more : (n : ℕ) → 1 + n ≡ suc n
      one_more n = omega arith

  past_call : (n : ℕ) → n + 1 + 2 ≡ n + 3
  past_call n = omega arith

  program-Leads :
      (p : Program) {vm : Vm W} {r : Outcome W (Unit {0})}
      → Runs env p vm r
      → (code : Code) (ip : ℕ) → Fits p
      → Placed code ip (encode p)
      → Leads env code ip vm r (ip + size p)
  program-Leads _ (of_op {o} {vm}) code ip fits h = op-Leads env o vm fits h
  program-Leads _ (of_literal {n} {vm}) code ip fits h =
      Leads-to (omega arith) (literal-Leads env n vm fits h)
  program-Leads _ (in_turn {p} {q} first rest) code ip fits h =
      Leads-on (program-Leads p first code ip fits.0 (left_part _ _ h)) (
        Leads-to (omega arith) (
          program-Leads q rest code (ip + size p) fits.1
            (right_part (encode p) (encode q) (size p) (length-encode p) h)))
  program-Leads _ (ended_first {p} {q} first ended) code ip fits h =
      Leads-ended ended (program-Leads p first code ip fits.0 (left_part _ _ h))
  program-Leads _ (no_flag {p} {q} popped) code ip fits h =
      jz-Stops env _ _ (omega arith) (branch_at p q h).jz_at popped
  program-Leads _ (taken {p} {q} {r = r} popped flag run) code ip fits h =
      let at = branch_at p q h in
      Leads-on (enter_then env p q fits.2 fits.3 at popped flag) (
        Leads-after r (program-Leads p run code _ fits.0 at.then_at)
          (leave_then env p q fits.2 fits.3 at))
  program-Leads _ (not_taken {p} {q} popped run) code ip fits h =
      let at = branch_at p q h in
      Leads-on (enter_else env p q fits.2 fits.3 at popped)
        (Leads-to (omega arith) (program-Leads q run code _ fits.1 at.else_at))
  program-Leads _ (test_ended {t} {b} run ended) code ip fits h =
      Leads-ended ended (program-Leads t run code ip fits.0 (repeat_at t b h).test_at)
  program-Leads _ (test_no_flag {t} {b} run popped) code ip fits h =
      let at = repeat_at t b h in
      Leads-on (program-Leads t run code ip fits.0 at.test_at)
        (jz-Stops env _ _ (omega arith) at.jz_at popped)
  program-Leads _ (finished {t} {b} run popped) code ip fits h =
      let at = repeat_at t b h in
      Leads-on (program-Leads t run code ip fits.0 at.test_at) (leave_loop env t b fits.2 at popped)
  program-Leads _ (body_ended {t} {b} run popped flag body ended) code ip fits h =
      let at = repeat_at t b h in
      Leads-on (program-Leads t run code ip fits.0 at.test_at) (
        Leads-on (enter_body env t b fits.2 at popped flag)
          (Leads-ended ended (program-Leads b body code _ fits.1 at.body_at)))
  program-Leads _ (once_more {t} {b} run popped flag body again) code ip fits h =
      let at = repeat_at t b h in
      Leads-on (program-Leads t run code ip fits.0 at.test_at) (
        Leads-on (enter_body env t b fits.2 at popped flag) (
          Leads-on (program-Leads b body code _ fits.1 at.body_at) (
            Leads-on (go_back env t b fits.2 at _)
              (program-Leads (repeat t b) again code ip fits h))))
  program-Leads _ (of_call {idx} {p} word run) code ip fits h = Leads-to (past_call ip) (
      call-Leads p fits h word
        (program-Leads p run (word_code p) 0 word.callee_fits (left_part _ _ (word_code-Placed p))))

  -- If a structured program, whose literals, jumps and word indices fit their operands, runs on a machine to an
  -- outcome, then vm_exec of a word that holds its bytes and RET comes to the same: with some fuel, and any
  -- larger one, it returns OK with the machine that the program leaves, or the code at which it
  -- stopped with the machine as it was then, or it meets the step that is undefined in C++.
  pub vm_exec-Runs :
      (p : Program) (entry : Word) (vm : Vm W) (r : Outcome W (Unit {0}))
      → Runs env p vm r
      → Fits p
      → entry.code ≡ some (word_bytes p)
      → entry.code_len ≡ size p + 1
      → (enough : ℕ) × ((fuel : ℕ) → enough ≤ fuel → vm_exec env fuel entry vm ≡ returned r)
  unfolding vm_exec vm_exec_raw
  vm_exec-Runs p entry vm r run fits code_is length_is =
      let all = program-Leads p run (word_code p) 0 fits (left_part _ _ (word_code-Placed p)) in
      (
        all.cost + suc all.need,
        λ fuel enough. rw (code_is, vm_exec, length_is) (word_returns p all fuel enough),
      )
