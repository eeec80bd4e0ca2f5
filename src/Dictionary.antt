-- ===== src/Dictionary.antt =====
-- src/core.cpp: the word dictionary.
pub mod Lookup
use v4_engine.Base.{
  ℕ, zero, suc, ◌+◌, Bool, true, false, Option, none, some, List, [], ◌∷◌, ltb, leb, ◌==◌, ◌&&◌,
  ◌||◌, if◌then◌else◌, update, length, is_negative, u16,
}
use v4_engine.Err.{Err, v4_err}
use v4_engine.Arena.{Arena, arena_alloc}
use v4_engine.Panic.{vm_panic}
use v4_engine.Stack.{malloc, vm_reset_stacks}
use v4_engine.Vm.{Vm, Env, Word, ok, stop, M, ◌>>=◌, max_words}

-- strcmp(a, b) == 0
unfoldable pub same_name : List ℕ → List ℕ → Bool
same_name [] [] = true
same_name [] (y ∷ ys) = false
same_name (x ∷ xs) [] = false
same_name (x ∷ xs) (y ∷ ys) = x == y && same_name xs ys

unfoldable pub has_name : List ℕ → Word → Bool
unfolding same_name
has_name name w = elim w.name [ none ↦ false | some n ↦ same_name n name ]

-- The backward search with the words below `n` left.
unfoldable pub find_below : List ℕ → (ℕ → Word) → ℕ → Option ℕ
find_below name words zero = none
find_below name words (suc n) =
    let rest = find_below name words n in if has_name name (words n) then some n else rest

-- The names of the words, which the arena owns or `free` takes back.
unfoldable pub forget_names : Option Arena → (ℕ → Word) → ℕ → ℕ → Word
forget_names none words count =
    λ i. if ltb i count then record (words i) { name = none } else words i
forget_names (some a) words count = words

module _ {W : Type 0} where
  -- vm_find_word at a name that is not null; `none` is -1.
  unfoldable pub vm_find_word : List ℕ → Vm W → Option ℕ
  unfolding find_below has_name
  vm_find_word name vm = find_below name vm.words vm.word_count

  -- vm_get_word. `idx` is an `int`.
  unfoldable pub vm_get_word : ℕ → Vm W → Option Word
  vm_get_word idx vm =
      if is_negative idx || leb vm.word_count idx then none else some (vm.words idx)

  unfoldable pub vm_reset_dictionary : Vm W → Vm W
  unfolding forget_names
  vm_reset_dictionary vm = record vm {
    words = forget_names vm.arena vm.words vm.word_count;
    word_count = 0;
  }

  unfoldable pub vm_reset : Vm W → Vm W
  unfolding vm_reset_dictionary vm_reset_stacks
  vm_reset vm = vm_reset_stacks (vm_reset_dictionary vm)

  -- The last three assignments of vm_register_word; the index is returned.
  unfoldable pub add_word : Option (List ℕ) → List ℕ → ℕ → M W ℕ
  add_word name code code_len vm = ok vm.word_count (record vm {
    words =
        update vm.words vm.word_count
          (record { name = name; code = some code; code_len = code_len });
    word_count = vm.word_count + 1;
  })

module _ {W : Type 0} (env : Env W) where
  -- The copy of the name: in the arena if there is one, else by strdup.
  unfoldable pub copy_name : Option Arena → List ℕ → M W (Unit {0})
  unfolding malloc
  copy_name none name vm =
      let (met, vm') = malloc env (length name + 1) vm in
      if met then ok tt vm' else vm_panic Err.invalid_arg vm'
  copy_name (some a) name vm =
      let (block, a') = arena_alloc a (length name + 1) 1 in
      let vm' = record vm { arena = some a' } in
      elim block [ none ↦ vm_panic Err.invalid_arg vm' | some p ↦ ok tt vm' ]

  unfoldable pub store_word : Option (List ℕ) → List ℕ → ℕ → M W ℕ
  unfolding copy_name add_word
  store_word none code code_len vm = add_word none code code_len vm
  store_word (some name) code code_len vm =
      (copy_name vm.arena name >>= λ _. add_word (some name) code code_len) vm

  -- vm_register_word at a vm that is not null. `code_len` is an `int`.
  unfoldable pub vm_register_word : Option (List ℕ) → Option (List ℕ) → ℕ → M W ℕ
  unfolding store_word
  vm_register_word name none code_len vm = stop (v4_err Err.invalid_arg) vm
  vm_register_word name (some code) code_len vm =
      if is_negative code_len || code_len == 0
      then stop (v4_err Err.invalid_arg) vm
      else if leb max_words vm.word_count
      then vm_panic Err.dictionary_full vm
      else store_word name code code_len vm

-- vm_word_get_name, vm_word_get_code and vm_word_get_code_len
unfoldable pub word_get_name : Option Word → Option (List ℕ)
word_get_name none = none
word_get_name (some w) = w.name

unfoldable pub word_get_code : Option Word → Option (List ℕ)
word_get_code none = none
word_get_code (some w) = w.code

unfoldable pub word_get_code_len : Option Word → ℕ
word_get_code_len none = 0
word_get_code_len (some w) = u16 w.code_len
