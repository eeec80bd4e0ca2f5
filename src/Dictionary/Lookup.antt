-- ===== src/Dictionary/Lookup.antt =====
-- src/core.cpp: what a lookup finds after a registration.
use v4_engine.Arena.{Arena, arena_alloc}
use v4_engine.Base.{
  ℕ, zero, suc, ◌+◌, ◌≤◌, ◌≡◌, refl, ◌∙◌, Bool, true, false, Option, none, some, List, arith, leb,
  ◌==◌, ◌||◌, if◌then◌else◌, update, length, is_negative, inl, inr, Bool-cases, Option-cases,
}
use native.Mathlib.Numerals.{add-one}
use v4_engine.Dictionary.{
  same_name, has_name, find_below, vm_find_word, add_word, copy_name, store_word, vm_register_word,
}
use v4_engine.Err.{Err}
use v4_engine.Panic.{report_panic, vm_panic}
use v4_engine.Stack.{malloc}
use v4_engine.Vm.{Vm, Env, Word, PanicInfo, Outcome, ok, stop, fault, starved, then_run, max_words}

find_below-update :
    (name : List ℕ) (words : ℕ → Word) (i : ℕ) (w : Word) (n : ℕ)
    → n ≤ i
    → find_below name (update words i w) n ≡ find_below name words n
unfolding find_below
find_below-update name words i w zero h = refl
find_below-update name words i w (suc n) h =
    rw (apart, find_below-update name words i w n (omega arith)) refl
  where
    apart : (i == n) ≡ false
    apart = ground arith

find_below-push :
    (name : List ℕ) (words : ℕ → Word) (n : ℕ) (w : Word)
    → find_below name (update words n w) (n + 1)
      ≡ (if has_name name w then some n else find_below name words n)
unfolding find_below
find_below-push name words n w =
    rw (add-one n, same, find_below-update name words n w n (omega arith)) refl
  where
    same : (n == n) ≡ true
    same = ground arith

-- A lookup of `n` finds the same word in both machines.
abbrev pub SameWords : {W : Type 0} → Vm W → Vm W → Type 0
SameWords vm vm' = (vm'.words ≡ vm.words) × (vm'.word_count ≡ vm.word_count)

-- What a registration of `name` leaves a lookup of `n` to find.
abbrev pub FindsAfter : {W : Type 0} → List ℕ → List ℕ → Vm W → Outcome W ℕ → Type 0
FindsAfter name n vm (ok i vm') =
    vm_find_word n vm' ≡ (if same_name name n then some i else vm_find_word n vm)
FindsAfter name n vm (stop e vm') = vm_find_word n vm' ≡ vm_find_word n vm
FindsAfter name n vm fault = ⊥
FindsAfter name n vm starved = ⊥

module _ {W : Type 0} (name n : List ℕ) where
  find_word-same : (vm vm' : Vm W) → SameWords vm vm' → vm_find_word n vm' ≡ vm_find_word n vm
  unfolding vm_find_word
  find_word-same vm vm' (words, count) = rw (words, count) refl

  FindsAfter-if :
      (b : Bool) (vm : Vm W) (x y : Outcome W ℕ)
      → FindsAfter name n vm x
      → FindsAfter name n vm y
      → FindsAfter name n vm (if b then x else y)
  FindsAfter-if true vm x y hx hy = hx
  FindsAfter-if false vm x y hx hy = hy

  report_panic-same :
      (h : Option (W → PanicInfo → W)) (vm : Vm W) (code : ℕ)
      → SameWords vm (report_panic h vm code)
  unfolding report_panic
  report_panic-same none vm code = (refl, refl)
  report_panic-same (some handler) vm code = (refl, refl)

  report_panic-finds :
      (vm vm' : Vm W) (code : ℕ)
      → SameWords vm vm'
      → vm_find_word n (report_panic vm'.panic_handler vm' code) ≡ vm_find_word n vm
  report_panic-finds vm vm' code h =
      find_word-same vm' _ (report_panic-same vm'.panic_handler vm' code) ∙ find_word-same vm vm' h

  vm_panic-FindsAfter :
      (e : Err) (vm vm' : Vm W) → SameWords vm vm' → FindsAfter name n vm (vm_panic e vm')
  unfolding vm_panic
  vm_panic-FindsAfter e vm vm' h = report_panic-finds vm vm' _ h

  add_word-FindsAfter :
      (code : List ℕ) (len : ℕ) (vm vm' : Vm W)
      → SameWords vm vm'
      → FindsAfter name n vm (add_word (some name) code len vm')
  unfolding add_word vm_find_word has_name
  add_word-FindsAfter code len vm vm' (words, count) =
      rw (words, count) (find_below-push n vm.words vm.word_count _)

module _ {W : Type 0} (env : Env W) (name n : List ℕ) (code : List ℕ) (len : ℕ) where
  copy_name-FindsAfter :
      (o : Option Arena) (vm : Vm W)
      → FindsAfter name n vm
          (then_run (copy_name env o name vm) (λ _. add_word (some name) code len))
  unfolding copy_name malloc vm_panic
  copy_name-FindsAfter none vm = elim (Bool-cases (env.malloc vm.world (length name + 1)).met) [
    | inl met ↦
        rw (met, then_run)
          (add_word-FindsAfter name n code len vm (malloc env (length name + 1) vm).1 (refl, refl))
    | inr unmet ↦
        rw (unmet, then_run)
          (report_panic-finds name n vm (malloc env (length name + 1) vm).1 _ (refl, refl))
  ]
  copy_name-FindsAfter (some a) vm = elim (Option-cases (arena_alloc a (length name + 1) 1).0) [
    | inl full ↦
        rw (full, then_run)
          (report_panic-finds name n vm
            (record vm { arena = some (arena_alloc a (length name + 1) 1).1 }) _ (refl, refl))
    | inr (p, met) ↦
        rw (met, then_run)
          (add_word-FindsAfter name n code len vm
            (record vm { arena = some (arena_alloc a (length name + 1) 1).1 }) (refl, refl))
  ]

  -- After vm_register_word has given a word an index, a lookup of its name finds that index, which hides an
  -- earlier word of that name, and a lookup of any other name finds what it found before. A registration that
  -- returns an error changes no lookup.
  pub register-FindsAfter :
      (vm : Vm W) → FindsAfter name n vm (vm_register_word env (some name) (some code) len vm)
  unfolding vm_register_word store_word
  register-FindsAfter vm = FindsAfter-if name n (is_negative len || len == 0) vm _ _ refl (
      FindsAfter-if name n (leb max_words vm.word_count) vm _ _
        (vm_panic-FindsAfter name n Err.dictionary_full vm vm (refl, refl))
        (copy_name-FindsAfter vm.arena vm))
