-- ===== src/Probe/Outcomes.antt =====
-- The runs of main of tools/size/probe.cpp.
use v4_engine.Base.{
  ℕ, suc, ◌+◌, ◌^◌, ◌≤◌, ◌<◌, ◌≡◌, refl, ap, ◌∙◌, true, false, ◌||◌, Option, none, some, List, [],
  ◌∷◌, ◌==◌, if◌then◌else◌, is_negative, length, arith, Bool-cases, inl, inr, update,
}
use v4_engine.Bare.Main.{int_of, exec_word}
use v4_engine.Dictionary.{vm_register_word, store_word, add_word, vm_get_word}
use v4_engine.Interp.Loop.{vm_exec, exec_byte}
use v4_engine.Lifecycle.{vm_create, vm_destroy, fresh_vm}
use v4_engine.Opcode.{Op, opcode, decode}
use v4_engine.Probe.{
  before_nul, probe_code, probe_config, end_main, run_registered, probe_made, probe_main,
}
use v4_engine.Program.{Program, size, encode, word_bytes, Fits, Runs}
use v4_engine.Program.Layout.{length-++, length-encode}
use v4_engine.Program.Simulation.{returned, vm_exec-Runs}
use v4_engine.Vm.{Vm, Env, Word, Outcome, ok, stop, fault, starved}

abbrev pub probe_word : List ℕ → Word
probe_word code = record { name = none; code = some code; code_len = length code }

-- The machine on which the code runs.
abbrev pub probe_vm : {W : Type 0} → List ℕ → W → Vm W
probe_vm code w = record (fresh_vm probe_config w) {
  words = update (fresh_vm probe_config w).words 0 (probe_word code);
  word_count = 1;
}

-- The exit code of a run, with what is left when the machine is destroyed.
abbrev pub exits : {W : Type 0} → (W → W) → Outcome W (Unit {0}) → Option (ℕ × W)
exits free (ok _ vm) = some (0, vm_destroy free vm)
exits free (stop e vm) = some (if e == 0 then 0 else 1, vm_destroy free vm)
exits free fault = none
exits free starved = none

-- No byte is 0.
abbrev pub NoNul : List ℕ → Type 0
NoNul [] = Unit
NoNul (c ∷ cs) = ((c == 0) ≡ false) × NoNul cs

before_nul-NoNul : (cs : List ℕ) → NoNul cs → before_nul cs ≡ cs
before_nul-NoNul [] h = refl
before_nul-NoNul (c ∷ cs) (h, rest) = rw (h, before_nul-NoNul cs rest) refl

length-word_bytes : (p : Program) → length (word_bytes p) ≡ size p + 1
length-word_bytes p = length-++ (encode p) (opcode Op.ret ∷ []) ∙ ap (λ n. n + 1) (length-encode p)

fits_int : (n : ℕ) → n + 1 < 2 ^ 31 → (is_negative (n + 1) || n + 1 == 0) ≡ false
fits_int n h = ground arith

module _ {W : Type 0} (env : Env W) (free : W → W) where
  registered :
      (code : List ℕ) (w : W)
      → (is_negative (length code) || length code == 0) ≡ false
      → vm_register_word env none (some code) (length code) (fresh_vm probe_config w)
        ≡ ok 0 (probe_vm code w)
  unfolding vm_register_word store_word add_word fresh_vm
  registered code w h = rw h refl

  end_main-returned :
      (r : Outcome W (Unit {0}))
      → end_main env free (int_of (λ e. absurd e) (returned r)) ≡ exits free r
  unfolding end_main
  end_main-returned (ok _ vm) = refl
  end_main-returned (stop e vm) = refl
  end_main-returned fault = refl
  end_main-returned starved = refl

  -- A registered word runs to its exit.
  word_exits :
      (fuel : ℕ) (code : List ℕ) (w : W) (r : Outcome W (Unit {0}))
      → vm_exec env fuel (probe_word code) (probe_vm code w) ≡ returned r
      → run_registered env free fuel (some (0, probe_vm code w)) ≡ exits free r
  unfolding run_registered exec_word vm_get_word
  word_exits fuel code w r h = rw h (end_main-returned r)

  made_exits :
      (fuel : ℕ) (code : List ℕ) (w v : W) (r : Outcome W (Unit {0}))
      → (is_negative (length code) || length code == 0) ≡ false
      → vm_exec env fuel (probe_word code) (probe_vm code w) ≡ returned r
      → probe_made env free fuel code v (some (fresh_vm probe_config w)) ≡ exits free r
  unfolding probe_made
  made_exits fuel code w v r h runs = rw (registered code w h) (word_exits fuel code w r runs)

  main_exits :
      (fuel bytes : ℕ) (argument : Option (List ℕ)) (w : W) (r : Outcome W (Unit {0}))
      → (env.malloc w bytes).met ≡ true
      → (is_negative (length (probe_code argument)) || length (probe_code argument) == 0) ≡ false
      → vm_exec env fuel
          (probe_word (probe_code argument))
          (probe_vm (probe_code argument) (env.malloc w bytes).world)
        ≡ returned r
      → probe_main env free fuel bytes argument w ≡ exits free r
  unfolding probe_main vm_create
  main_exits fuel bytes argument w r met h runs = rw met (
      made_exits fuel (probe_code argument) (env.malloc w bytes).world (env.malloc w bytes).world r
        h runs)

  -- Given as its argument the bytes of a structured program and RET, none of them 0 and fewer than 2 ^ 31, the probe
  -- runs the program: with enough fuel it exits with 0 if the program ended or stopped with the code OK, with 1 if it
  -- stopped with another, and has destroyed the machine that the run left.
  pub probe_main-Runs :
      (p : Program) (bytes : ℕ) (w : W) (r : Outcome W (Unit {0}))
      → Fits p
      → NoNul (word_bytes p)
      → size p + 1 < 2 ^ 31
      → (env.malloc w bytes).met ≡ true
      → Runs env p (probe_vm (word_bytes p) (env.malloc w bytes).world) r
      → (enough : ℕ) × ((fuel : ℕ)
          → enough ≤ fuel
          → probe_main env free fuel bytes (some (word_bytes p)) w ≡ exits free r)
  probe_main-Runs p bytes w r fits whole small met run =
      let all =
        vm_exec-Runs env p (probe_word (word_bytes p)) _ r run fits refl (length-word_bytes p) in
      (
        all.0,
        λ fuel enough.
            main_exits fuel bytes (some (word_bytes p)) w r met (counted (before_nul-NoNul _ whole))
              (runs_whole (before_nul-NoNul _ whole) fuel (all.1 fuel enough)),
      )
    where
      counted :
          before_nul (word_bytes p) ≡ word_bytes p
          → (is_negative (length (before_nul (word_bytes p)))
              || length (before_nul (word_bytes p)) == 0)
            ≡ false
      counted e = rw (e, length-word_bytes) (fits_int (size p) small)

      runs_whole :
          before_nul (word_bytes p) ≡ word_bytes p
          → (fuel : ℕ)
          → vm_exec env fuel
              (probe_word (word_bytes p))
              (probe_vm (word_bytes p) (env.malloc w bytes).world)
            ≡ returned r
          → vm_exec env fuel
              (probe_word (before_nul (word_bytes p)))
              (probe_vm (before_nul (word_bytes p)) (env.malloc w bytes).world)
            ≡ returned r
      runs_whole e fuel h = rw e h

  refused_exits :
      (fuel bytes : ℕ) (w : W)
      → (env.malloc w bytes).met ≡ false
      → probe_main env free fuel bytes none w ≡ some (1, (env.malloc w bytes).world)
  unfolding probe_main vm_create
  refused_exits fuel bytes w refused = rw refused refl

  ret_returns :
      (fuel : ℕ) (w : W)
      → vm_exec env (suc fuel) (probe_word (0x51 ∷ [])) (probe_vm (0x51 ∷ []) w)
        ≡ returned (ok tt (probe_vm (0x51 ∷ []) w))
  unfolding exec_byte decode fresh_vm vm_exec
  ret_returns fuel w = refl

  nothing_left : (w : W) → exits free (ok tt (probe_vm (0x51 ∷ []) w)) ≡ some (0, free w)
  unfolding vm_destroy fresh_vm
  nothing_left w = refl

  -- Without an argument the probe exits with 0 when malloc grants the machine, and has freed it; when malloc does
  -- not, it exits with 1 and frees nothing. One instruction's fuel is enough.
  pub probe_main-no_argument :
      (fuel bytes : ℕ) (w : W)
      → probe_main env free (suc fuel) bytes none w ≡ (
          if (env.malloc w bytes).met
          then some (0, free (env.malloc w bytes).world)
          else some (1, (env.malloc w bytes).world))
  probe_main-no_argument fuel bytes w = elim (Bool-cases (env.malloc w bytes).met) [
    | inl met ↦
        main_exits (suc fuel) bytes none w (ok tt (probe_vm (0x51 ∷ []) (env.malloc w bytes).world))
          met refl (ret_returns fuel (env.malloc w bytes).world)
        ∙ nothing_left (env.malloc w bytes).world
        ∙ rw met refl
    | inr refused ↦ refused_exits (suc fuel) bytes w refused ∙ rw refused refl
  ]
