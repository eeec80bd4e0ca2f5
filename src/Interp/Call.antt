-- ===== src/Interp/Call.antt =====
-- src/core.cpp: the opcodes that leave the activation: CALL, SYS and the task opcodes.
use v4_engine.Base.{ℕ, ◌+◌, Option, none, some, List, leb, ◌==◌, if◌then◌else◌, u8, u16, u32, minus}
use v4_engine.Err.{Err}
use v4_engine.Panic.{vm_panic}
use v4_engine.Stack.{ds_push, ds_pop}
use v4_engine.Task.{task_spawn, task_send, task_receive, task_receive_blocking}
use v4_engine.Vm.{Vm, Env, Message, Outcome, ok, stop, fault, starved, M, pure, ◌>>=◌, ◌>>◌}
use v4_engine.Interp.{Code, byte_at, read_i16_le, operand}

-- A function that runs an activation's code to its return.
abbrev pub Runner : Type 0 → Type 0
Runner W = Code → Vm W → Outcome W ⊥

module _ {W : Type 0} where
  -- The frame pointer is put back whatever the callee returned; a code other than 0 is passed on.
  unfoldable pub return_from : Option ℕ → ℕ → Outcome W ⊥ → Outcome W ℕ
  return_from old_fp ip (ok a vm) = absurd a
  return_from old_fp ip (stop e vm) =
      if e == 0 then ok ip (record vm { fp = old_fp }) else stop e (record vm { fp = old_fp })
  return_from old_fp ip fault = fault
  return_from old_fp ip starved = starved

  unfoldable pub call_code : Runner W → Option (List ℕ) → ℕ → ℕ → M W ℕ
  unfolding return_from
  call_code run none code_len ip vm = vm_panic Err.invalid_arg vm
  call_code run (some bytes) code_len ip vm =
      if code_len == 0
      then vm_panic Err.invalid_arg vm
      else return_from vm.fp ip
          (run (record { bytes = bytes; len = code_len }) (record vm { fp = some vm.rp }))

  -- Both sides of the index check have 16 bits.
  unfoldable pub call_word : Runner W → ℕ → ℕ → M W ℕ
  unfolding call_code
  call_word run word_idx ip vm =
      if leb (u16 vm.word_count) word_idx
      then vm_panic Err.invalid_word_idx vm
      else call_code run (vm.words word_idx).code (vm.words word_idx).code_len ip vm

  unfoldable pub call_op : Runner W → Code → ℕ → M W ℕ
  unfolding operand read_i16_le call_word
  call_op run code ip = do
    operand 2 Err.truncated_jump code ip
    call_word run (read_i16_le code ip) (ip + 2)

  -- One byte of operand, the index of a local variable.
  unfoldable pub indexed : (ℕ → M W (Unit {0})) → Code → ℕ → M W ℕ
  unfolding operand
  indexed op code ip = do
    operand 1 Err.truncated_literal code ip
    op (byte_at code ip)
    pure (ip + 1)

  -- What a receive pushes: the payload, the sender and the result, the first two unset without a message.
  unfoldable pub push_message : ℕ → ℕ → Option Message → M W (Unit {0})
  push_message data_bits src_bits none = do ds_push data_bits; ds_push src_bits; ds_push 0
  push_message data_bits src_bits (some m) = do ds_push m.payload; ds_push m.src_task; ds_push 1

  -- With no handler the result is -1.
  unfoldable pub apply_handler :
      Option (Vm W → ℕ → ℕ → ℕ → ℕ → record { result : ℕ; vm : Vm W }) → ℕ → ℕ → ℕ → ℕ → M W ℕ
  apply_handler none sys_id arg0 arg1 arg2 vm = ok (minus 1) vm
  apply_handler (some handler) sys_id arg0 arg1 arg2 vm =
      let r = handler vm sys_id arg0 arg1 arg2 in ok r.result r.vm

  -- A function that returns a value and the machine, as a step that goes on.
  unfoldable pub lift : {A : Type 0} → (Vm W → A × Vm W) → M W A
  lift f vm = let (a, vm') = f vm in ok a vm'

  -- The handler is a global of the program.
  abbrev pub v4_register_sys_handler :
      Option (Vm W → ℕ → ℕ → ℕ → ℕ → record { result : ℕ; vm : Vm W }) → Env W → Env W
  v4_register_sys_handler handler env = record env { sys_handler = handler }

module _ {W : Type 0} (env : Env W) where
  unfoldable pub push_received : Option Message → M W (Unit {0})
  unfolding push_message
  push_received m vm =
      push_message (u32 (env.unset_data vm.world)) (u8 (env.unset_src vm.world)) m vm

  -- v4_invoke_sys_handler
  unfoldable pub invoke_sys_handler : ℕ → ℕ → ℕ → ℕ → M W ℕ
  unfolding apply_handler
  invoke_sys_handler = apply_handler env.sys_handler

  unfoldable pub sys_op : M W (Unit {0})
  unfolding invoke_sys_handler
  sys_op = do
    sys_id ← ds_pop
    arg2 ← ds_pop
    arg1 ← ds_pop
    arg0 ← ds_pop
    result ← invoke_sys_handler sys_id arg0 arg1 arg2
    ds_push result

  unfoldable pub task_spawn_op : M W (Unit {0})
  unfolding lift
  task_spawn_op = do
    rs_size ← ds_pop
    ds_size ← ds_pop
    priority ← ds_pop
    word_idx ← ds_pop
    task_id ← lift (task_spawn env (u16 word_idx) (u8 priority) (u16 ds_size) (u16 rs_size))
    ds_push task_id

  unfoldable pub task_send_op : M W (Unit {0})
  unfolding lift
  task_send_op = do
    payload ← ds_pop
    msg_type ← ds_pop
    target ← ds_pop
    result ← lift (task_send (u8 target) (u8 msg_type) payload)
    ds_push result

  unfoldable pub task_receive_op : M W (Unit {0})
  unfolding push_received lift
  task_receive_op = do msg_type ← ds_pop; m ← lift (task_receive (u8 msg_type)); push_received m

  unfoldable pub task_receive_blocking_op : ℕ → M W (Unit {0})
  unfolding push_received
  task_receive_blocking_op fuel = do
    timeout_ms ← ds_pop
    msg_type ← ds_pop
    m ← task_receive_blocking env fuel (u8 msg_type) timeout_ms
    push_received m
