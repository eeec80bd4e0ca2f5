-- ===== src/Disabled/Agree.antt =====
-- The stubs of src/task_disabled.cpp beside the task opcodes of src/core.cpp in the same build.
use v4_engine.Base.{ℕ, ◌≡◌, refl, Option, some, false}
use v4_engine.Disabled.{
  off_spawn, off_exit, off_sleep, off_yield, off_critical_enter, off_critical_exit, off_self,
  off_send, off_receive, off_receive_blocking,
}
use v4_engine.Interp.{Code}
use v4_engine.Interp.Call.{Runner}
use v4_engine.Interp.Loop.{exec_op}
use v4_engine.Opcode.{Op}
use v4_engine.Panic.{report_panic, vm_panic}
use v4_engine.Vm.{Vm, Env, stop}

-- A task function that an opcode calls, with its arguments.
pub data TaskCall : Type 0 where
  spawn : ℕ → ℕ → ℕ → ℕ → TaskCall
  leave : TaskCall
  sleep : ℕ → TaskCall
  give_way : TaskCall
  enter : TaskCall
  depart : TaskCall
  tell : ℕ → ℕ → ℕ → TaskCall
  hear : ℕ → TaskCall
  wait : ℕ → ℕ → TaskCall
  self : TaskCall

unfoldable pub opcode_of : TaskCall → Op
opcode_of (TaskCall.spawn word_idx priority ds_size rs_size) = Op.task_spawn
opcode_of TaskCall.leave = Op.task_exit
opcode_of (TaskCall.sleep ms_delay) = Op.task_sleep
opcode_of TaskCall.give_way = Op.task_yield
opcode_of TaskCall.enter = Op.critical_enter
opcode_of TaskCall.depart = Op.critical_exit
opcode_of (TaskCall.tell dst_task msg_type value) = Op.task_send
opcode_of (TaskCall.hear msg_type) = Op.task_receive
opcode_of (TaskCall.wait msg_type timeout_ms) = Op.task_receive_blocking
opcode_of TaskCall.self = Op.task_self

module _ {W : Type 0} where
  unfoldable pub stub_code : TaskCall → Option (Vm W) → ℕ
  unfolding off_spawn off_exit off_sleep off_yield off_critical_enter off_critical_exit off_send
      off_receive off_receive_blocking off_self
  stub_code (TaskCall.spawn word_idx priority ds_size rs_size) vm =
      off_spawn vm word_idx priority ds_size rs_size
  stub_code TaskCall.leave vm = off_exit vm
  stub_code (TaskCall.sleep ms_delay) vm = off_sleep vm ms_delay
  stub_code TaskCall.give_way vm = off_yield vm
  stub_code TaskCall.enter vm = off_critical_enter vm
  stub_code TaskCall.depart vm = off_critical_exit vm
  stub_code (TaskCall.tell dst_task msg_type value) vm = off_send vm dst_task msg_type value
  stub_code (TaskCall.hear msg_type) vm = off_receive vm msg_type
  stub_code (TaskCall.wait msg_type timeout_ms) vm = off_receive_blocking vm msg_type timeout_ms
  stub_code TaskCall.self vm = off_self vm

  -- In a build without tasks, each task opcode and the stub of the function that it calls give the same code, whatever
  -- the arguments and the stack; the opcode pops nothing and changes the machine by the panic report alone.
  pub exec_op-stub_code :
      (env : Env W) (c : TaskCall) (run : Runner W) (fuel : ℕ) (code : Code) (ip : ℕ) (vm : Vm W)
      → env.tasks_enabled ≡ false
      → exec_op env (opcode_of c) run fuel code ip vm
        ≡ stop (stub_code c (some vm)) (report_panic vm.panic_handler vm (stub_code c (some vm)))
  unfolding exec_op opcode_of stub_code vm_panic
  exec_op-stub_code env (TaskCall.spawn a b c d) run fuel code ip vm off = rw off refl
  exec_op-stub_code env TaskCall.leave run fuel code ip vm off = rw off refl
  exec_op-stub_code env (TaskCall.sleep n) run fuel code ip vm off = rw off refl
  exec_op-stub_code env TaskCall.give_way run fuel code ip vm off = rw off refl
  exec_op-stub_code env TaskCall.enter run fuel code ip vm off = rw off refl
  exec_op-stub_code env TaskCall.depart run fuel code ip vm off = rw off refl
  exec_op-stub_code env (TaskCall.tell a b c) run fuel code ip vm off = rw off refl
  exec_op-stub_code env (TaskCall.hear n) run fuel code ip vm off = rw off refl
  exec_op-stub_code env (TaskCall.wait a b) run fuel code ip vm off = rw off refl
  exec_op-stub_code env TaskCall.self run fuel code ip vm off = rw off refl
