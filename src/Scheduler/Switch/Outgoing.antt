-- ===== src/Scheduler/Switch/Outgoing.antt =====
-- vm_schedule of src/scheduler.cpp: the task that it switches from.
use v4_engine.Scheduler.Switch.{
  Stacks, Parked, HasRoom, Holds, AllParked, true_ne_false, update_other,
}
use v4_engine.Base.{
  ℕ, ◌≤◌, ◌<◌, ◌≡◌, ◌≢◌, refl, sym, ap, ◌∙◌, subst, true, false, inl, inr, arith, ◌==◌, update,
  copy_cells, cells_down, ◌^◌, u8, Bool-cases, ==→eq, ==_self, eq→==,
}
use v4_engine.Scheduler.{is_dead, is_running, suspend_current}
use v4_engine.Scheduler.Context.{save_context-saved, saved}
use v4_engine.Stack.Abstract.{stack_of}
use v4_engine.Stack.Snapshot.{cells_down-copy_cells}
use v4_engine.Vm.{Vm, Env, Task, TaskState, ready, running, ok, ds_cap, rs_cap}

running_runs : (s : TaskState) → s ≡ running → is_running s ≡ true
running_runs s e = rw e refl

module _ {W : Type 0} where
  -- The task that is switched out, with its stacks in its blocks.
  abbrev stored : (vm : Vm W) → HasRoom vm (vm.scheduler.tasks vm.scheduler.current_task) → Task
  stored vm room =
      saved vm vm.scheduler.current_task room.ds_block room.rs_block
        (vm.scheduler.tasks vm.scheduler.current_task)

  -- The task that is switched out, READY, with its stacks in its blocks.
  abbrev suspended : (vm : Vm W) → HasRoom vm (vm.scheduler.tasks vm.scheduler.current_task) → Task
  suspended vm room = record (stored vm room) { state = ready }

  suspended-Parked :
      (vm : Vm W) (room : HasRoom vm (vm.scheduler.tasks vm.scheduler.current_task))
      → Parked (suspended vm room) (stack_of vm, cells_down vm.rs vm.rp)
  suspended-Parked vm room = record {
    ds_block = record (room.ds_block) { cells = copy_cells room.ds_block.cells vm.ds (u8 vm.sp) };
    rs_block = record (room.rs_block) { cells = copy_cells room.rs_block.cells vm.rs (u8 vm.rp) };
    ds_is = refl;
    rs_is = refl;
    ds_room = subst (λ n. n ≤ room.ds_block.size) (sym ds_depth) room.ds_room;
    ds_fits = byte_in vm.sp;
    rs_room = subst (λ n. n ≤ room.rs_block.size) (sym rs_depth) room.rs_room;
    rs_fits = subst (λ n. n ≤ rs_cap) (sym rs_depth) room.rs_fits;
    ds_cells =
        cells_down-copy_cells room.ds_block.cells vm.ds _ _ (omega arith)
        ∙ ap (cells_down vm.ds) ds_depth;
    rs_cells =
        cells_down-copy_cells room.rs_block.cells vm.rs _ _ (omega arith)
        ∙ ap (cells_down vm.rs) rs_depth;
  }
    where
      byte_in : (n : ℕ) → u8 n ≤ ds_cap
      byte_in n = omega arith

      as_byte : (n m : ℕ) → n < m → m ≤ 2 ^ 8 → u8 n ≡ n
      as_byte n m h k = omega arith

      below : (n : ℕ) → n ≤ rs_cap → n < 2 ^ 8
      below n h = omega arith

      ds_depth : u8 vm.sp ≡ vm.sp
      ds_depth = as_byte vm.sp ds_cap room.ds_fits (omega arith)

      rs_depth : u8 vm.rp ≡ vm.rp
      rs_depth = as_byte vm.rp (2 ^ 8) (below vm.rp room.rs_fits) (omega arith)

  -- The table after the first part of vm_schedule.
  abbrev pub suspended_table :
      (vm : Vm W) → HasRoom vm (vm.scheduler.tasks vm.scheduler.current_task) → ℕ → Task
  suspended_table vm room =
      let i = vm.scheduler.current_task in
      let table = update vm.scheduler.tasks i (stored vm room) in
      update table i (record (table i) { state = ready })

  pub table_current :
      (vm : Vm W) (room : HasRoom vm (vm.scheduler.tasks vm.scheduler.current_task))
      → suspended_table vm room vm.scheduler.current_task ≡ suspended vm room
  table_current vm room = rw (==_self vm.scheduler.current_task) refl

  table_other :
      (vm : Vm W) (room : HasRoom vm (vm.scheduler.tasks vm.scheduler.current_task)) (k : ℕ)
      → k ≢ vm.scheduler.current_task
      → suspended_table vm room k ≡ vm.scheduler.tasks k
  table_other vm room k other =
      update_other (update vm.scheduler.tasks vm.scheduler.current_task (stored vm room))
        vm.scheduler.current_task k _ other
      ∙ update_other vm.scheduler.tasks vm.scheduler.current_task k (stored vm room) other

  pub suspend_current-suspended :
      (env : Env W) (vm : Vm W) (room : HasRoom vm (vm.scheduler.tasks vm.scheduler.current_task))
      → (vm.scheduler.tasks vm.scheduler.current_task).state ≡ running
      → suspend_current env vm
        ≡ ok tt
            (record vm { scheduler = record (vm.scheduler) { tasks = suspended_table vm room } })
  unfolding suspend_current
  suspend_current-suspended env vm room runs =
      rw
        (
          running_runs _ runs,
          save_context-saved vm vm.scheduler.current_task room.ds_block room.rs_block room.ds_is
              room.rs_is (ds_in vm.sp room.ds_room) (ds_in vm.rp room.rs_room),
        )
        refl
    where
      ds_in : (n : ℕ) {m : ℕ} → n ≤ m → u8 n ≤ m
      ds_in n h = omega arith

  pub suspended-AllParked :
      (vm : Vm W) (held : ℕ → Stacks)
      (room : HasRoom vm (vm.scheduler.tasks vm.scheduler.current_task))
      → Holds vm held
      → AllParked (suspended_table vm room) held
  suspended-AllParked vm held room h k alive = elim (Bool-cases (k == vm.scheduler.current_task)) [
    | inl same ↦
        subst (λ n. Parked (suspended_table vm room n) (held n)) (sym (==→eq k _ same))
          (subst (λ t. Parked t (held vm.scheduler.current_task)) (sym (table_current vm room))
            (subst (λ s. Parked (suspended vm room) s) h.current_holds (suspended-Parked vm room)))
    | inr other ↦
        subst (λ t. Parked t (held k)) (sym (table_other vm room k (apart other)))
          (h.others_hold k (apart other)
            (subst (λ t. is_dead t.state ≡ false) (table_other vm room k (apart other)) alive))
  ]
    where
      apart : (k == vm.scheduler.current_task) ≡ false → k ≢ vm.scheduler.current_task
      apart other e = true_ne_false (eq→== k vm.scheduler.current_task e) other
