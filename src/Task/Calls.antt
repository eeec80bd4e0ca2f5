-- ===== src/Task/Calls.antt =====
-- src/task.cpp: the public functions on tasks, which call the back end. Each is called with a vm that is not null.
use v4_engine.Base.{ℕ}
use v4_engine.Scheduler.{vm_schedule, vm_schedule_from_isr}
use v4_engine.Task.{
  task_init, task_cleanup, task_current, task_spawn, task_exit, task_sleep, task_yield,
}
use v4_engine.Vm.{Vm, Env, M}

module _ {W : Type 0} where
  abbrev pub vm_task_init : ℕ → Vm W → Vm W
  vm_task_init time_slice_ms vm = task_init time_slice_ms vm

  abbrev pub vm_task_cleanup : Vm W → Vm W
  vm_task_cleanup vm = task_cleanup vm

  abbrev pub vm_task_self : Vm W → ℕ
  vm_task_self vm = task_current vm

module _ {W : Type 0} (env : Env W) where
  abbrev pub vm_task_spawn : ℕ → ℕ → ℕ → ℕ → Vm W → ℕ × Vm W
  vm_task_spawn word_idx priority ds_size rs_size vm =
      task_spawn env word_idx priority ds_size rs_size vm

  abbrev pub vm_task_exit : M W (Unit {0})
  vm_task_exit vm = task_exit env vm

  abbrev pub vm_task_sleep : ℕ → M W (Unit {0})
  vm_task_sleep ms_delay vm = task_sleep env ms_delay vm

  abbrev pub vm_task_yield : M W (Unit {0})
  vm_task_yield vm = task_yield env vm

  -- v4_backend_schedule and v4_backend_schedule_from_isr
  abbrev pub backend_schedule : M W (Unit {0})
  backend_schedule vm = vm_schedule env vm

  abbrev pub backend_schedule_from_isr : M W (Unit {0})
  backend_schedule_from_isr vm = vm_schedule_from_isr env vm
