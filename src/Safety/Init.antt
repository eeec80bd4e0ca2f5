-- ===== src/Safety/Init.antt =====
-- src/memory.cpp and src/core.cpp: creating, extending and resetting a machine.
use v4_engine.Base.{
  ◌≡◌, refl, length, ◌<◌, ℕ, zero, suc, ◌+◌, ◌≤◌, Option, none, some, inl, inr, arith, leb, ◌==◌,
  ◌||◌, Bool-cases, is_negative, List,
}
use v4_engine.Arena.{Arena, arena_alloc}
use v4_engine.Dictionary.{vm_register_word, store_word, copy_name, add_word}
use v4_engine.Lifecycle.{VmConfig, config_count, fresh_vm, vm_create, append_mmio, vm_register_mmio}
use v4_engine.Safety.{IsValid, Safe, goes_on, returned, Safe-if}
use mathlib.Core.Option.{some_inj, none-ne-some}
use v4_engine.Base.{subst, Option-cases}
use v4_engine.Safety.Core.{vm_panic-Keeps, report_panic-IsValid}
use v4_engine.Safety.Ops.{malloc-IsValid, if_pair-IsValid}
use v4_engine.Stack.{malloc}
use v4_engine.Err.{Err}
use v4_engine.Panic.{vm_panic}
use v4_engine.Vm.{Vm, Env, Word, Mmio, max_mmio, max_words, M, then_run}

config_count-le : {W : Type 0} (o : Option (ℕ → Mmio W)) (n : ℕ) → config_count o n ≤ max_mmio
unfolding config_count
config_count-le none n = ground arith
config_count-le (some mmio) n = ground arith

pub fresh_vm-IsValid : {W : Type 0} (cfg : VmConfig W) (w : W) → IsValid (fresh_vm cfg w)
unfolding fresh_vm
fresh_vm-IsValid cfg w = record {
  sp_in = omega arith;
  rp_in = omega arith;
  fp_in = tt;
  words_in = omega arith;
  mmio_in = config_count-le cfg.mmio cfg.mmio_count;
  sched_in = record {
    current_in = omega arith;
    depths_in = λ i. record { ds_in = omega arith; rs_in = omega arith };
  };
  queue_in = record { count_in = omega arith; read_in = omega arith; write_in = omega arith };
}

module _ {W : Type 0} where
  words-IsValid :
      {vm : Vm W} (words : ℕ → Word) (n : ℕ)
      → n ≤ max_words
      → IsValid vm
      → IsValid (record vm { words = words; word_count = n })
  words-IsValid words n h v = record {
    sp_in = v.sp_in;
    rp_in = v.rp_in;
    fp_in = v.fp_in;
    words_in = h;
    mmio_in = v.mmio_in;
    sched_in = v.sched_in;
    queue_in = v.queue_in;
  }

  stores-IsValid :
      {vm : Vm W} (arena : Option Arena) → IsValid vm → IsValid (record vm { arena = arena })
  stores-IsValid arena v = assumption

  windows-IsValid :
      {vm : Vm W} (mmio : ℕ → Mmio W) (n : ℕ)
      → n ≤ max_mmio
      → IsValid vm
      → IsValid (record vm { mmio = mmio; mmio_count = n })
  windows-IsValid mmio n h v = record {
    sp_in = v.sp_in;
    rp_in = v.rp_in;
    fp_in = v.fp_in;
    words_in = v.words_in;
    mmio_in = h;
    sched_in = v.sched_in;
    queue_in = v.queue_in;
  }

  append_mmio-IsValid :
      (list : ℕ → Mmio W) (n i : ℕ) (vm : Vm W) → IsValid vm → IsValid (append_mmio list n i vm).1
  unfolding append_mmio
  append_mmio-IsValid list zero i vm v = v
  append_mmio-IsValid list (suc n) i vm v = elim (Bool-cases (leb max_mmio vm.mmio_count)) [
    | inl full ↦ rw full v
    | inr room ↦ rw room (
        append_mmio-IsValid list n (i + 1) _
          (windows-IsValid _ (vm.mmio_count + 1) (ground arith) v))
  ]

  -- Registering windows, however many are asked for, fills the table up to its capacity and no further,
  -- and keeps the machine valid.
  pub vm_register_mmio-IsValid :
      (list : ℕ → Mmio W) (count : ℕ) (vm : Vm W)
      → IsValid vm
      → IsValid (vm_register_mmio list count vm).1
  unfolding vm_register_mmio
  vm_register_mmio-IsValid list count vm v =
      if_pair-IsValid (is_negative count || count == 0) _ _ v
        (append_mmio-IsValid list count 0 vm v)

  -- vm_create, when memory is granted, makes a valid machine from any configuration, whatever number of
  -- windows it claims.
  pub vm_create-IsValid :
      (env : Env W) (bytes : ℕ) (cfg : VmConfig W) (w : W) (vm : Vm W)
      → vm_create env bytes cfg w ≡ some vm
      → IsValid vm
  unfolding vm_create
  vm_create-IsValid env bytes cfg w vm h = elim (Bool-cases (env.malloc w bytes).met) [
    | inl met ↦ subst IsValid (some_inj.0 (rw met at h)) (fresh_vm-IsValid cfg _)
    | inr unmet ↦ absurd (none-ne-some _ (rw unmet at h))
  ]

module _ {W : Type 0} (env : Env W) where
  vm_panic-Safe :
      {A B : Type 0} (k : A → M W B) (e : Err) (vm : Vm W)
      → IsValid vm
      → Safe (then_run (vm_panic e vm) k)
  unfolding vm_panic
  vm_panic-Safe k e vm v = returned (report_panic-IsValid vm.panic_handler vm _ v)

  add_word-Safe :
      (name : Option (List ℕ)) (code : List ℕ) (code_len : ℕ) (vm : Vm W)
      → vm.word_count < max_words
      → IsValid vm
      → Safe (add_word name code code_len vm)
  unfolding add_word
  add_word-Safe name code code_len vm h v =
      goes_on (words-IsValid _ (vm.word_count + 1) (omega arith) v)

  -- The copy of a name leaves the table of words alone.
  copy_name-Safe :
      (o : Option Arena) (name : List ℕ) (vm : Vm W) (k : Unit {0} → M W ℕ)
      → IsValid vm
      → ((vm' : Vm W) → vm'.word_count ≡ vm.word_count → IsValid vm' → Safe (k tt vm'))
      → Safe (then_run (copy_name env o name vm) k)
  unfolding copy_name
  copy_name-Safe none name vm k v h = elim (Bool-cases (malloc env (length name + 1) vm).0) [
    | inl met ↦ rw met (h _ refl (malloc-IsValid env _ v))
    | inr unmet ↦ rw unmet (vm_panic-Safe k _ _ (malloc-IsValid env _ v))
  ]
  copy_name-Safe (some a) name vm k v h =
      elim (Option-cases (arena_alloc a (length name + 1) 1).0) [
        | inl full ↦ rw (full, then_run) (vm_panic-Safe k _ _ (stores-IsValid _ v))
        | inr (p, met) ↦ rw (met, then_run) (h _ refl (stores-IsValid _ v))
      ]

  store_word-Safe :
      (name : Option (List ℕ)) (code : List ℕ) (code_len : ℕ) (vm : Vm W)
      → vm.word_count < max_words
      → IsValid vm
      → Safe (store_word env name code code_len vm)
  unfolding store_word
  store_word-Safe none code code_len vm h v = add_word-Safe none code code_len vm h v
  store_word-Safe (some name) code code_len vm h v =
      copy_name-Safe vm.arena name vm _ v
        (λ vm' e v'. add_word-Safe (some name) code code_len vm' (rw e h) v')

  -- vm_register_word, on any arguments, leaves a valid machine, also when it returns an error: the table
  -- of words is never written past its end.
  pub vm_register_word-Safe :
      (name : Option (List ℕ)) (code : Option (List ℕ)) (code_len : ℕ) (vm : Vm W)
      → IsValid vm
      → Safe (vm_register_word env name code code_len vm)
  unfolding vm_register_word
  vm_register_word-Safe name none code_len vm v = returned v
  vm_register_word-Safe name (some code) code_len vm v =
      Safe-if (is_negative code_len || code_len == 0) (returned v)
        (elim (Bool-cases (leb max_words vm.word_count)) [
          | inl full ↦ rw full (vm_panic-Keeps _ vm v)
          | inr room ↦ rw room (store_word-Safe name code code_len vm (ground arith) v)
        ])
