-- ===== src/Safety/Calls.antt =====
-- The invariant and CALL, SYS, the opcodes on locals and the task opcodes of src/core.cpp.
use v4_engine.Base.{ℕ, ◌+◌, Option, none, some, List, leb, ◌==◌, u8, u16}
use v4_engine.Interp.{Code, byte_at, read_i16_le}
use v4_engine.Interp.Call.{
  Runner, return_from, call_code, call_word, call_op, indexed, push_message, push_received,
  apply_handler, lift, sys_op, task_spawn_op, task_send_op, task_receive_op,
  task_receive_blocking_op,
}
use v4_engine.Interp.Loop.{returns, push_of, exit_op, task_sleep_op, exec_task_op}
use v4_engine.Opcode.{Op}
use v4_engine.Safety.{
  IsValid, FrameIn, Safe, goes_on, returned, faulted, ran_out, Keeps, Keeps-bind, Safe-if,
}
use v4_engine.Safety.Core.{vm_panic-Keeps, ds_push-Keeps, ds_pop-Keeps}
use v4_engine.Safety.Ops.{
  task_spawn-IsValid, task_send-IsValid, task_receive-IsValid, task_receive_blocking-Keeps,
  task_exit-Keeps, task_sleep-Keeps, task_yield-Keeps, critical_enter-IsValid,
  critical_exit-IsValid,
}
use v4_engine.Safety.Steps.{plain-Keeps, operand-Keeps}
use v4_engine.Task.{task_spawn, task_send, task_receive}
use v4_engine.Task.{task_current}
use v4_engine.Vm.{Vm, Env, Message, M, Outcome}

module _ {W : Type 0} where
  pub fp-IsValid :
      {vm : Vm W} (fp : Option ℕ) → FrameIn fp → IsValid vm → IsValid (record vm { fp = fp })
  fp-IsValid fp h v = record {
    sp_in = v.sp_in;
    rp_in = v.rp_in;
    fp_in = h;
    words_in = v.words_in;
    mmio_in = v.mmio_in;
    sched_in = v.sched_in;
    queue_in = v.queue_in;
  }

  -- What a SYS handler is allowed to do to the machine.
  abbrev pub HandlerKeeps :
      Option (Vm W → ℕ → ℕ → ℕ → ℕ → record { result : ℕ; vm : Vm W }) → Type 0
  HandlerKeeps none = Unit
  HandlerKeeps (some handler) =
      (vm : Vm W) (sys_id arg0 arg1 arg2 : ℕ)
      → IsValid vm
      → IsValid (handler vm sys_id arg0 arg1 arg2).vm

  abbrev pub RunnerKeeps : Runner W → Type 0
  RunnerKeeps run = (code : Code) (vm : Vm W) → IsValid vm → Safe (run code vm)

  return_from-Safe :
      (fp : Option ℕ) (ip : ℕ) {r : Outcome W ⊥} → FrameIn fp → Safe r → Safe (return_from fp ip r)
  unfolding return_from
  return_from-Safe fp ip h (goes_on {a} v) = absurd a
  return_from-Safe fp ip h (returned {e} v) =
      Safe-if (e == 0) (goes_on (fp-IsValid fp h v)) (returned (fp-IsValid fp h v))
  return_from-Safe fp ip h faulted = faulted
  return_from-Safe fp ip h ran_out = ran_out

  call_code-Keeps :
      {run : Runner W} (code : Option (List ℕ)) (len ip : ℕ)
      → RunnerKeeps run
      → Keeps (call_code run code len ip)
  unfolding call_code
  call_code-Keeps none len ip h vm v = vm_panic-Keeps _ vm v
  call_code-Keeps (some bytes) len ip h vm v =
      Safe-if (len == 0) (vm_panic-Keeps _ vm v)
        (return_from-Safe vm.fp ip v.fp_in (h _ _ (fp-IsValid (some vm.rp) v.rp_in v)))

  call_word-Keeps : {run : Runner W} (idx ip : ℕ) → RunnerKeeps run → Keeps (call_word run idx ip)
  unfolding call_word
  call_word-Keeps idx ip h vm v =
      Safe-if (leb (u16 vm.word_count) idx) (vm_panic-Keeps _ vm v)
        (call_code-Keeps (vm.words idx).code (vm.words idx).code_len ip h vm v)

  pub call_op-Keeps :
      {run : Runner W} (code : Code) (ip : ℕ) → RunnerKeeps run → Keeps (call_op run code ip)
  unfolding call_op
  call_op-Keeps code ip h =
      Keeps-bind (operand-Keeps 2 _ code ip) λ _. call_word-Keeps (read_i16_le code ip) (ip + 2) h

  pub indexed-Keeps :
      {op : ℕ → M W (Unit {0})} (code : Code) (ip : ℕ)
      → ((idx : ℕ) → Keeps (op idx))
      → Keeps (indexed op code ip)
  unfolding indexed
  indexed-Keeps code ip h =
      Keeps-bind (operand-Keeps 1 _ code ip)
        λ _. Keeps-bind (h (byte_at code ip)) λ _ vm v. goes_on v

  push_message-Keeps : (a b : ℕ) (m : Option Message) → Keeps (push_message {W = W} a b m)
  unfolding push_message
  push_message-Keeps a b none =
      Keeps-bind (ds_push-Keeps a) λ _. Keeps-bind (ds_push-Keeps b) λ _. ds_push-Keeps 0
  push_message-Keeps a b (some m) =
      Keeps-bind (ds_push-Keeps m.payload)
        λ _. Keeps-bind (ds_push-Keeps m.src_task) λ _. ds_push-Keeps 1

  pub push_of-Keeps : (f : Vm W → ℕ) → Keeps (push_of f)
  unfolding push_of
  push_of-Keeps f vm v = ds_push-Keeps (f vm) vm v

module _ {W : Type 0} where
  pub apply_handler-Keeps :
      (o : Option (Vm W → ℕ → ℕ → ℕ → ℕ → record { result : ℕ; vm : Vm W })) (sys_id a b c : ℕ)
      → HandlerKeeps o
      → Keeps (apply_handler o sys_id a b c)
  unfolding apply_handler
  apply_handler-Keeps none sys_id a b c h vm v = goes_on v
  apply_handler-Keeps (some handler) sys_id a b c h vm v = goes_on (h vm sys_id a b c v)

  pub lift-Keeps :
      {A : Type 0} (f : Vm W → A × Vm W)
      → ((vm : Vm W) → IsValid vm → IsValid (f vm).1)
      → Keeps (lift f)
  unfolding lift
  lift-Keeps f h vm v = goes_on (h vm v)

  pub returns-Keeps : {A : Type 0} (e : ℕ) → Keeps (returns {W = W} {A = A} e)
  unfolding returns
  returns-Keeps e vm v = returned v

module _ {W : Type 0} (env : Env W) where
  push_received-Keeps : (m : Option Message) → Keeps (push_received env m)
  unfolding push_received
  push_received-Keeps m vm v = push_message-Keeps _ _ m vm v

  task_spawn_op-Keeps : Keeps (task_spawn_op env)
  unfolding task_spawn_op
  task_spawn_op-Keeps = Keeps-bind ds_pop-Keeps λ rs_size. Keeps-bind ds_pop-Keeps λ ds_size.
      Keeps-bind ds_pop-Keeps λ priority. Keeps-bind ds_pop-Keeps λ word_idx.
        Keeps-bind
          (lift-Keeps (task_spawn env (u16 word_idx) (u8 priority) (u16 ds_size) (u16 rs_size))
            (task_spawn-IsValid env (u16 word_idx) (u8 priority) (u16 ds_size) (u16 rs_size)))
          ds_push-Keeps

  task_send_op-Keeps : Keeps (task_send_op env)
  unfolding task_send_op
  task_send_op-Keeps = Keeps-bind ds_pop-Keeps λ payload. Keeps-bind ds_pop-Keeps λ msg_type.
      Keeps-bind ds_pop-Keeps λ target.
        Keeps-bind
          (lift-Keeps (task_send (u8 target) (u8 msg_type) payload)
            (task_send-IsValid (u8 target) (u8 msg_type) payload))
          ds_push-Keeps

  task_receive_op-Keeps : Keeps (task_receive_op env)
  unfolding task_receive_op
  task_receive_op-Keeps = Keeps-bind ds_pop-Keeps λ msg_type.
      Keeps-bind (lift-Keeps (task_receive (u8 msg_type)) (task_receive-IsValid (u8 msg_type)))
        push_received-Keeps

  task_receive_blocking_op-Keeps : (fuel : ℕ) → Keeps (task_receive_blocking_op env fuel)
  unfolding task_receive_blocking_op
  task_receive_blocking_op-Keeps fuel = Keeps-bind ds_pop-Keeps λ timeout.
      Keeps-bind ds_pop-Keeps λ msg_type.
        Keeps-bind (task_receive_blocking-Keeps env fuel (u8 msg_type) timeout) push_received-Keeps

  exit_op-Keeps : Keeps (exit_op env)
  unfolding exit_op
  exit_op-Keeps = Keeps-bind (task_exit-Keeps env) λ _ vm v. returned v

  task_sleep_op-Keeps : Keeps (task_sleep_op env)
  unfolding task_sleep_op
  task_sleep_op-Keeps = Keeps-bind ds_pop-Keeps (task_sleep-Keeps env)

  pub exec_task_op-Keeps : (op : Op) (fuel ip : ℕ) → Keeps (exec_task_op env op fuel ip)
  unfolding exec_task_op
  exec_task_op-Keeps Op.task_spawn fuel ip = plain-Keeps ip (task_spawn_op-Keeps)
  exec_task_op-Keeps Op.task_exit fuel ip = exit_op-Keeps
  exec_task_op-Keeps Op.task_sleep fuel ip = plain-Keeps ip (task_sleep_op-Keeps)
  exec_task_op-Keeps Op.task_yield fuel ip = plain-Keeps ip (task_yield-Keeps env)
  exec_task_op-Keeps Op.critical_enter fuel ip =
      plain-Keeps ip (λ vm v. goes_on (critical_enter-IsValid env vm v))
  exec_task_op-Keeps Op.critical_exit fuel ip =
      plain-Keeps ip (λ vm v. goes_on (critical_exit-IsValid env vm v))
  exec_task_op-Keeps Op.task_send fuel ip = plain-Keeps ip (task_send_op-Keeps)
  exec_task_op-Keeps Op.task_receive fuel ip = plain-Keeps ip (task_receive_op-Keeps)
  exec_task_op-Keeps Op.task_receive_blocking fuel ip =
      plain-Keeps ip (task_receive_blocking_op-Keeps fuel)
  exec_task_op-Keeps Op.task_self fuel ip = plain-Keeps ip (push_of-Keeps task_current)
  exec_task_op-Keeps Op.task_count fuel ip =
      plain-Keeps ip (push_of-Keeps (λ vm. vm.scheduler.task_count))
  exec_task_op-Keeps _ fuel ip = vm_panic-Keeps _

module _ {W : Type 0} (env : Env W) (sys : HandlerKeeps env.sys_handler) where
  pub sys_op-Keeps : Keeps (sys_op env)
  unfolding sys_op
  sys_op-Keeps = Keeps-bind ds_pop-Keeps λ sys_id. Keeps-bind ds_pop-Keeps λ arg2.
      Keeps-bind ds_pop-Keeps λ arg1. Keeps-bind ds_pop-Keeps λ arg0.
        Keeps-bind (apply_handler-Keeps env.sys_handler sys_id arg0 arg1 arg2 sys) ds_push-Keeps
