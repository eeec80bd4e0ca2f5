-- ===== src/Stack/Snapshot.antt =====
-- src/core.cpp: a snapshot of the data stack, and its restoration into any machine.
use v4_engine.Base.{
  ℕ, zero, suc, ◌*◌, ◌≤◌, ◌<◌, ◌≡◌, refl, sym, ap, ap₂, ◌∙◌, subst, Bool, true, false, Option, none,
  some, arith, ltb, ◌==◌, ◌&&◌, ◌||◌, not, ◌⊎◌, ◌∷◌, if◌then◌else◌, copy_cells, cells_down,
  is_negative, inl, inr, Bool-cases,
}
use v4_engine.Stack.{StackSnapshot, malloc, vm_ds_snapshot, restore_cells, vm_ds_restore}
use v4_engine.Stack.Abstract.{view, gives, stack_of}
use v4_engine.Vm.{Vm, Env, ds_cap}

module _ {A : Type 0} where
  -- Copying the first `m` cells, at least `n`, gives the same stack of `n`.
  pub cells_down-copy_cells :
      (dst src : ℕ → A) (m n : ℕ) → n ≤ m → cells_down (copy_cells dst src m) n ≡ cells_down src n
  cells_down-copy_cells dst src m zero h = refl
  cells_down-copy_cells dst src m (suc n) h =
      ap₂ ◌∷◌ (ground arith) (cells_down-copy_cells dst src m n (omega arith))

-- A snapshot that holds the stack of a machine.
record Holds {W : Type 0} (vm : Vm W) (snap : StackSnapshot) : Type 0 where
  depth_of : snap.depth ≡ vm.sp
  cells_of :
      ((vm.sp ≡ 0) × (snap.cells ≡ none))
      ⊎ ((0 < vm.sp) × (snap.cells ≡ some (copy_cells (λ _. 0) vm.ds vm.sp)))

-- The same of what a request for a snapshot returns, if it was met.
abbrev HoldsIfMade : {W : Type 0} → Vm W → Option StackSnapshot → Type 0
HoldsIfMade vm none = Unit
HoldsIfMade vm (some snap) = Holds vm snap

module _ {W : Type 0} (env : Env W) (vm : Vm W) where
  abbrev filled_result : Bool → Bool → Vm W → Vm W → Option StackSnapshot × Vm W
  filled_result met data_met a b =
      if met
      then if data_met
        then (some (record { cells = some (copy_cells (λ _. 0) vm.ds vm.sp); depth = vm.sp }), b)
        else (none, b)
      else (none, a)

  abbrev empty_result : Bool → Vm W → Option StackSnapshot × Vm W
  empty_result met a = if met then (some (record { cells = none; depth = 0 }), a) else (none, a)

  filled_result-HoldsIfMade :
      (met data_met : Bool) (a b : Vm W)
      → 0 < vm.sp
      → HoldsIfMade vm (filled_result met data_met a b).0
  filled_result-HoldsIfMade true true a b h = record { depth_of = refl; cells_of = inr (h, refl) }
  filled_result-HoldsIfMade true false a b h = tt
  filled_result-HoldsIfMade false data_met a b h = tt

  empty_result-HoldsIfMade :
      (met : Bool) (a : Vm W) → vm.sp ≡ 0 → HoldsIfMade vm (empty_result met a).0
  empty_result-HoldsIfMade true a h = record { depth_of = sym h; cells_of = inl (h, refl) }
  empty_result-HoldsIfMade false a h = tt

  snapshot-HoldsIfMade : HoldsIfMade vm (vm_ds_snapshot env vm).0
  unfolding vm_ds_snapshot
  snapshot-HoldsIfMade = elim (Bool-cases (vm.sp == 0)) [
    | inl empty ↦
        rw empty (empty_result-HoldsIfMade (malloc env 16 vm).0 (malloc env 16 vm).1 (ground arith))
    | inr filled ↦ rw filled (
        filled_result-HoldsIfMade (malloc env 16 vm).0
          (malloc env (vm.sp * 4) (malloc env 16 vm).1).0 (malloc env 16 vm).1
          (malloc env (vm.sp * 4) (malloc env 16 vm).1).1 (ground arith))
  ]

  restore-Holds :
      (snap : StackSnapshot) (vm' : Vm W)
      → vm.sp ≤ ds_cap
      → Holds vm snap
      → view (vm_ds_restore snap vm') ≡ gives tt (stack_of vm)
  unfolding vm_ds_restore restore_cells
  restore-Holds snap vm' fits h = elim h.cells_of [
    | inl (empty, no_cells) ↦ rw (h.depth_of, fits_again, no_cells, restore_cells, empty) refl
    | inr (filled, cells) ↦
        rw (h.depth_of, fits_again, cells, restore_cells, positive filled)
          (ap (gives tt) (
            cells_down-copy_cells vm'.ds _ vm.sp vm.sp (omega arith)
            ∙ cells_down-copy_cells _ vm.ds vm.sp vm.sp (omega arith)))
  ]
    where
      fits_again : (not (is_negative vm.sp) && ltb ds_cap vm.sp) ≡ false
      fits_again = ground arith

      positive : 0 < vm.sp → (is_negative vm.sp || vm.sp == 0) ≡ false
      positive h = ground arith

  -- A snapshot of a machine's data stack, once it was made, puts the same stack into any machine it is restored
  -- into, whatever that machine's stack was.
  pub ds_restore-ds_snapshot :
      (snap : StackSnapshot) (vm' : Vm W)
      → vm.sp ≤ ds_cap
      → (vm_ds_snapshot env vm).0 ≡ some snap
      → view (vm_ds_restore snap vm') ≡ gives tt (stack_of vm)
  ds_restore-ds_snapshot snap vm' fits made =
      restore-Holds snap vm' fits (subst (HoldsIfMade vm) made snapshot-HoldsIfMade)
