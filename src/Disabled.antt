-- ===== src/Disabled.antt =====
-- src/task_disabled.cpp: the task functions of a build without V4_ENABLE_TASKS. A vm is `none` where C has a null
-- pointer; the functions change nothing and give no output.
pub mod Agree
use v4_engine.Base.{ℕ, Option, none, some}
use v4_engine.Err.{Err, v4_err}
use v4_engine.Opcode.{Op}
use v4_engine.Vm.{Vm}

module _ {W : Type 0} where
  unfoldable pub unavailable : Option (Vm W) → ℕ
  unavailable none = v4_err Err.invalid_arg
  unavailable (some vm) = v4_err Err.unknown_op

  -- The functions with their arguments, vm_task_get_info and vm_task_receive without the places for output.
  unfoldable pub off_init : Option (Vm W) → ℕ → ℕ
  unfolding unavailable
  off_init vm time_slice_ms = unavailable vm

  unfoldable pub off_schedule : Option (Vm W) → ℕ
  unfolding unavailable
  off_schedule vm = unavailable vm

  unfoldable pub off_schedule_from_isr : Option (Vm W) → ℕ
  unfolding unavailable
  off_schedule_from_isr vm = unavailable vm

  unfoldable pub off_cleanup : Option (Vm W) → ℕ
  unfolding unavailable
  off_cleanup vm = unavailable vm

  unfoldable pub off_spawn : Option (Vm W) → ℕ → ℕ → ℕ → ℕ → ℕ
  unfolding unavailable
  off_spawn vm word_idx priority ds_size rs_size = unavailable vm

  unfoldable pub off_exit : Option (Vm W) → ℕ
  unfolding unavailable
  off_exit vm = unavailable vm

  unfoldable pub off_sleep : Option (Vm W) → ℕ → ℕ
  unfolding unavailable
  off_sleep vm ms_delay = unavailable vm

  unfoldable pub off_yield : Option (Vm W) → ℕ
  unfolding unavailable
  off_yield vm = unavailable vm

  unfoldable pub off_critical_enter : Option (Vm W) → ℕ
  unfolding unavailable
  off_critical_enter vm = unavailable vm

  unfoldable pub off_critical_exit : Option (Vm W) → ℕ
  unfolding unavailable
  off_critical_exit vm = unavailable vm

  unfoldable pub off_self : Option (Vm W) → ℕ
  unfolding unavailable
  off_self vm = unavailable vm

  unfoldable pub off_get_info : Option (Vm W) → ℕ → ℕ
  unfolding unavailable
  off_get_info vm task_id = unavailable vm

  unfoldable pub off_send : Option (Vm W) → ℕ → ℕ → ℕ → ℕ
  unfolding unavailable
  off_send vm dst_task msg_type value = unavailable vm

  unfoldable pub off_receive : Option (Vm W) → ℕ → ℕ
  unfolding unavailable
  off_receive vm msg_type = unavailable vm

  unfoldable pub off_receive_blocking : Option (Vm W) → ℕ → ℕ → ℕ
  unfolding unavailable
  off_receive_blocking vm msg_type timeout_ms = unavailable vm
