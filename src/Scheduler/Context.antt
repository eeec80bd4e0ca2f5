-- ===== src/Scheduler/Context.antt =====
-- src/scheduler.cpp: a task's stacks, saved and restored.
use v4_engine.Base.{
  ℕ, ◌≤◌, ◌<◌, ◌≡◌, refl, ap, ap₂, ◌∙◌, false, Option, none, some, List, [], arith, ltb, ◌||◌,
  copy_cells, cells_down, u8,
}
use v4_engine.Scheduler.{
  save_block, restore_block, store_saved, save_context, load_stacks, restore_context, set_task,
}
use v4_engine.Stack.Abstract.{stack_of}
use v4_engine.Stack.Snapshot.{cells_down-copy_cells}
use v4_engine.Vm.{Vm, Task, Buffer, Outcome, ok, M, ◌>>=◌, ds_cap, rs_cap}

-- The data stack and the return stack, if the function went on.
abbrev pub stacks : {W A : Type 0} → Outcome W A → Option (List ℕ × List ℕ)
stacks (ok a vm) = some (stack_of vm, cells_down vm.rs vm.rp)
stacks _ = none

-- What other tasks did to the stacks in the meantime.
abbrev pub clobber : {W : Type 0} → (ℕ → ℕ) → (ℕ → ℕ) → ℕ → ℕ → M W (Unit {0})
clobber ds rs sp rp vm = ok tt (record vm { ds = ds; rs = rs; sp = sp; rp = rp })

module _ {W : Type 0} (vm : Vm W) (i : ℕ) (ds_block rs_block : Buffer) where
  abbrev pub saved : Task → Task
  saved t = record t {
    ds_base = some (record ds_block { cells = copy_cells ds_block.cells vm.ds (u8 vm.sp) });
    rs_base = some (record rs_block { cells = copy_cells rs_block.cells vm.rs (u8 vm.rp) });
    ds_depth = u8 vm.sp;
    rs_depth = u8 vm.rp;
  }

  pub save_context-saved :
      (vm.scheduler.tasks i).ds_base ≡ some ds_block
      → (vm.scheduler.tasks i).rs_base ≡ some rs_block
      → u8 vm.sp ≤ ds_block.size
      → u8 vm.rp ≤ rs_block.size
      → save_context i vm ≡ ok tt (set_task vm i (saved (vm.scheduler.tasks i)))
  unfolding save_context save_block store_saved
  save_context-saved ds rs hd hr = rw (ds, rs, ds_fits, rs_fits) refl
    where
      ds_fits : ltb ds_block.size (u8 vm.sp) ≡ false
      ds_fits = ground arith

      rs_fits : ltb rs_block.size (u8 vm.rp) ≡ false
      rs_fits = ground arith

module _ {W : Type 0} (m : Vm W) (i : ℕ) (t : Task) (ds_block rs_block : Buffer) where
  pub restore_context-loaded :
      m.scheduler.tasks i ≡ t
      → t.ds_base ≡ some ds_block
      → t.rs_base ≡ some rs_block
      → t.ds_depth ≤ ds_block.size
      → t.ds_depth ≤ ds_cap
      → t.rs_depth ≤ rs_block.size
      → t.rs_depth ≤ rs_cap
      → restore_context i m
        ≡ ok tt (record m {
          ds = copy_cells m.ds ds_block.cells t.ds_depth;
          rs = copy_cells m.rs rs_block.cells t.rs_depth;
          sp = t.ds_depth;
          rp = t.rs_depth;
        })
  unfolding restore_context restore_block load_stacks
  restore_context-loaded at ds rs hd hc hr hrc = rw (at, ds, rs, ds_fits, rs_fits) refl
    where
      ds_fits : (ltb ds_block.size t.ds_depth || ltb ds_cap t.ds_depth) ≡ false
      ds_fits = ground arith

      rs_fits : (ltb rs_block.size t.rs_depth || ltb rs_cap t.rs_depth) ≡ false
      rs_fits = ground arith

module _ {W : Type 0} (vm : Vm W) (i : ℕ) (ds_block rs_block : Buffer) (other_ds other_rs : ℕ → ℕ)
    (other_sp other_rp : ℕ) where
  save_restore :
      (vm.scheduler.tasks i).ds_base ≡ some ds_block
      → (vm.scheduler.tasks i).rs_base ≡ some rs_block
      → vm.sp ≤ ds_cap
      → u8 vm.sp ≤ ds_block.size
      → vm.rp ≤ rs_cap
      → vm.rp ≤ rs_block.size
      → stacks (
          (save_context i >>= λ _.
          clobber other_ds other_rs other_sp other_rp >>= λ _. restore_context i)
            vm)
        ≡ some (cells_down vm.ds (u8 vm.sp), cells_down vm.rs vm.rp)
  save_restore ds rs hs hd hr hb =
      rw
        (
          save_context-saved vm i ds_block rs_block ds rs hd (omega arith),
          restore_context-loaded
              (record (set_task vm i (saved vm i ds_block rs_block (vm.scheduler.tasks i))) {
                ds = other_ds;
                rs = other_rs;
                sp = other_sp;
                rp = other_rp;
              })
              i (saved vm i ds_block rs_block (vm.scheduler.tasks i)) _ _ (ground arith) refl refl
              hd (omega arith) (omega arith) (omega arith),
        )
        (ap₂ (λ d r. some (d, r)) (twice other_ds ds_block.cells vm.ds (u8 vm.sp))
          (twice other_rs rs_block.cells vm.rs (u8 vm.rp) ∙ ap (cells_down vm.rs) (omega arith)))
    where
      twice :
          (a b c : ℕ → ℕ) (n : ℕ)
          → cells_down (copy_cells a (copy_cells b c n) n) n ≡ cells_down c n
      twice a b c n =
          cells_down-copy_cells a (copy_cells b c n) n n (omega arith)
          ∙ cells_down-copy_cells b c n n (omega arith)

  -- If a task's blocks hold its stacks and its data stack has fewer than 256 cells, then restoring the task after
  -- saving it gives both stacks back, whatever other tasks did to the machine's stacks in between.
  pub restore_context-save_context :
      (vm.scheduler.tasks i).ds_base ≡ some ds_block
      → (vm.scheduler.tasks i).rs_base ≡ some rs_block
      → vm.sp < ds_cap
      → vm.sp ≤ ds_block.size
      → vm.rp ≤ rs_cap
      → vm.rp ≤ rs_block.size
      → stacks (
          (save_context i >>= λ _.
          clobber other_ds other_rs other_sp other_rp >>= λ _. restore_context i)
            vm)
        ≡ some (stack_of vm, cells_down vm.rs vm.rp)
  restore_context-save_context ds rs hs hd hr hb =
      save_restore ds rs (omega arith) (omega arith) hr hb
      ∙ ap (λ n. some (cells_down vm.ds n, cells_down vm.rs vm.rp)) (omega arith)

  -- A task whose data stack is full, with 256 cells, gets an empty data stack back: its depth is kept in 8 bits.
  pub restore_context-save_context_full :
      (vm.scheduler.tasks i).ds_base ≡ some ds_block
      → (vm.scheduler.tasks i).rs_base ≡ some rs_block
      → vm.sp ≡ ds_cap
      → vm.rp ≤ rs_cap
      → vm.rp ≤ rs_block.size
      → stacks (
          (save_context i >>= λ _.
          clobber other_ds other_rs other_sp other_rp >>= λ _. restore_context i)
            vm)
        ≡ some ([], cells_down vm.rs vm.rp)
  restore_context-save_context_full ds rs full hr hb =
      save_restore ds rs (omega arith) (omega arith) hr hb
      ∙ ap (λ n. some (cells_down vm.ds n, cells_down vm.rs vm.rp)) no_depth
    where
      no_depth : u8 vm.sp ≡ 0
      no_depth = rw full refl
