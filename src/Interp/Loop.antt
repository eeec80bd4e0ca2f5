-- ===== src/Interp/Loop.antt =====
-- The switch of vm_exec_raw, its loop, and vm_exec. The loop and the calls that it makes share one fuel; a
-- run that meets its end for want of fuel is `starved`.
use v4_engine.Base.{
  ℕ, zero, suc, ◌+◌, ◌-◌, ◌^◌, true, false, Option, none, some, ltb, ◌==◌, not, if◌then◌else◌, u32,
  minus, sign_extend8, sign_extend16,
}
use v4_engine.Err.{Err, v4_err}
use v4_engine.Opcode.{Op, decode}
use v4_engine.Alu.{bitwise, invert, shift_left, shift_right, shift_arith}
use v4_engine.Panic.{vm_panic}
use v4_engine.Stack.{ds_push, ds_pop}
use v4_engine.Memory.{mem_read32, mem_write32}
use v4_engine.Task.{task_exit, task_sleep, task_yield, critical_enter, critical_exit, task_current}
use v4_engine.Vm.{Vm, Env, Word, Outcome, ok, stop, starved, M, ◌>>=◌, ◌>>◌}
use v4_engine.Interp.{
  Code, byte_at, read_i32_le, read_i16_le, unary_op, pop_two, binary_op, dup_op, drop_op, swap_op,
  over_op, select_op, load_op, store_op, load8u_op, load16u_op, store8_op, store16_op, load8s_op,
  load16s_op, tor_op, fromr_op, rfetch_op, jmp_op, branch_op, literal_op, plain,
}
use v4_engine.Interp.Local.{lget_op, lset_op, ltee_op, lmodify_op}
use v4_engine.Interp.Call.{
  Runner, call_op, indexed, sys_op, task_spawn_op, task_send_op, task_receive_op,
  task_receive_blocking_op,
}

module _ {W : Type 0} where
  -- return code
  unfoldable pub returns : {A : Type 0} → ℕ → M W A
  returns e vm = stop e vm

  abbrev pub update_vm : (Vm W → Vm W) → M W (Unit {0})
  update_vm f vm = ok tt (f vm)

  unfoldable pub push_of : (Vm W → ℕ) → M W (Unit {0})
  push_of f vm = ds_push (f vm) vm

module _ {W : Type 0} (env : Env W) where
  -- TASK_EXIT ends the activation with OK.
  unfoldable pub exit_op : M W ℕ
  unfolding returns
  exit_op = do task_exit env; returns (v4_err Err.no_error)

  unfoldable pub task_sleep_op : M W (Unit {0})
  task_sleep_op = do ms_delay ← ds_pop; task_sleep env ms_delay

  -- The task opcodes, which a build without V4_ENABLE_TASKS leaves to `default`.
  unfoldable pub exec_task_op : Op → ℕ → ℕ → M W ℕ
  unfolding exit_op task_sleep_op push_of
  exec_task_op Op.task_spawn fuel ip = plain (task_spawn_op env) ip
  exec_task_op Op.task_exit fuel ip = exit_op
  exec_task_op Op.task_sleep fuel ip = plain task_sleep_op ip
  exec_task_op Op.task_yield fuel ip = plain (task_yield env) ip
  exec_task_op Op.critical_enter fuel ip = plain (update_vm (critical_enter env)) ip
  exec_task_op Op.critical_exit fuel ip = plain (update_vm (critical_exit env)) ip
  exec_task_op Op.task_send fuel ip = plain (task_send_op env) ip
  exec_task_op Op.task_receive fuel ip = plain (task_receive_op env) ip
  exec_task_op Op.task_receive_blocking fuel ip = plain (task_receive_blocking_op env fuel) ip
  exec_task_op Op.task_self fuel ip = plain (push_of task_current) ip
  exec_task_op Op.task_count fuel ip = plain (push_of (λ vm. vm.scheduler.task_count)) ip
  exec_task_op _ fuel ip = vm_panic Err.unknown_op

  -- The switch. `fuel` bounds the rounds of a blocking receive, and `run` runs a called word.
  unfoldable pub exec_op : Op → Runner W → ℕ → Code → ℕ → M W ℕ
  unfolding returns
  exec_op Op.lit run fuel code ip = literal_op 4 read_i32_le code ip
  exec_op Op.dup run fuel code ip = plain dup_op ip
  exec_op Op.drop run fuel code ip = plain drop_op ip
  exec_op Op.swap run fuel code ip = plain swap_op ip
  exec_op Op.over run fuel code ip = plain over_op ip
  exec_op Op.add run fuel code ip = plain (binary_op Op.add) ip
  exec_op Op.sub run fuel code ip = plain (binary_op Op.sub) ip
  exec_op Op.mul run fuel code ip = plain (binary_op Op.mul) ip
  exec_op Op.div run fuel code ip = plain (binary_op Op.div) ip
  exec_op Op.modulo run fuel code ip = plain (binary_op Op.modulo) ip
  exec_op Op.divu run fuel code ip = plain (binary_op Op.divu) ip
  exec_op Op.modu run fuel code ip = plain (binary_op Op.modu) ip
  exec_op Op.inc run fuel code ip = plain (unary_op (λ a. u32 (a + 1))) ip
  exec_op Op.dec run fuel code ip = plain (unary_op (λ a. u32 (a + (2 ^ 32 - 1)))) ip
  exec_op Op.eq run fuel code ip = plain (binary_op Op.eq) ip
  exec_op Op.ne run fuel code ip = plain (binary_op Op.ne) ip
  exec_op Op.lt run fuel code ip = plain (binary_op Op.lt) ip
  exec_op Op.le run fuel code ip = plain (binary_op Op.le) ip
  exec_op Op.gt run fuel code ip = plain (binary_op Op.gt) ip
  exec_op Op.ge run fuel code ip = plain (binary_op Op.ge) ip
  exec_op Op.ltu run fuel code ip = plain (binary_op Op.ltu) ip
  exec_op Op.leu run fuel code ip = plain (binary_op Op.leu) ip
  exec_op Op.and run fuel code ip = plain (pop_two (bitwise Op.and)) ip
  exec_op Op.or run fuel code ip = plain (pop_two (bitwise Op.or)) ip
  exec_op Op.xor run fuel code ip = plain (pop_two (bitwise Op.xor)) ip
  exec_op Op.invert run fuel code ip = plain (unary_op invert) ip
  exec_op Op.shl run fuel code ip = plain (pop_two shift_left) ip
  exec_op Op.shr run fuel code ip = plain (pop_two shift_right) ip
  exec_op Op.sar run fuel code ip = plain (pop_two shift_arith) ip
  exec_op Op.load run fuel code ip = plain (load_op mem_read32 (λ v. v)) ip
  exec_op Op.store run fuel code ip = plain (store_op mem_write32) ip
  exec_op Op.load8u run fuel code ip = plain load8u_op ip
  exec_op Op.load16u run fuel code ip = plain load16u_op ip
  exec_op Op.store8 run fuel code ip = plain store8_op ip
  exec_op Op.store16 run fuel code ip = plain store16_op ip
  exec_op Op.load8s run fuel code ip = plain load8s_op ip
  exec_op Op.load16s run fuel code ip = plain load16s_op ip
  exec_op Op.jmp run fuel code ip = jmp_op code ip
  exec_op Op.jz run fuel code ip = branch_op (λ cond. cond == 0) code ip
  exec_op Op.jnz run fuel code ip = branch_op (λ cond. not (cond == 0)) code ip
  exec_op Op.select run fuel code ip = plain select_op ip
  exec_op Op.call run fuel code ip = call_op run code ip
  exec_op Op.ret run fuel code ip = returns (v4_err Err.no_error)
  exec_op Op.sys run fuel code ip = plain (sys_op env) ip
  exec_op Op.tor run fuel code ip = plain tor_op ip
  exec_op Op.fromr run fuel code ip = plain fromr_op ip
  exec_op Op.rfetch run fuel code ip = plain rfetch_op ip
  exec_op Op.lit0 run fuel code ip = plain (ds_push 0) ip
  exec_op Op.lit1 run fuel code ip = plain (ds_push 1) ip
  exec_op Op.litn1 run fuel code ip = plain (ds_push (minus 1)) ip
  exec_op Op.lit_u8 run fuel code ip = literal_op 1 byte_at code ip
  exec_op Op.lit_i8 run fuel code ip = literal_op 1 (λ c p. sign_extend8 (byte_at c p)) code ip
  exec_op Op.lit_i16 run fuel code ip =
      literal_op 2 (λ c p. sign_extend16 (read_i16_le c p)) code ip
  exec_op Op.lget run fuel code ip = indexed lget_op code ip
  exec_op Op.lset run fuel code ip = indexed lset_op code ip
  exec_op Op.ltee run fuel code ip = indexed ltee_op code ip
  exec_op Op.lget0 run fuel code ip = plain (lget_op 0) ip
  exec_op Op.lget1 run fuel code ip = plain (lget_op 1) ip
  exec_op Op.lset0 run fuel code ip = plain (lset_op 0) ip
  exec_op Op.lset1 run fuel code ip = plain (lset_op 1) ip
  exec_op Op.linc run fuel code ip = indexed (lmodify_op (λ a. u32 (a + 1))) code ip
  exec_op Op.ldec run fuel code ip = indexed (lmodify_op (λ a. u32 (a + (2 ^ 32 - 1)))) code ip
  exec_op op run fuel code ip =
      if env.tasks_enabled then exec_task_op op fuel ip else vm_panic Err.unknown_op

  -- One byte: `default` is a panic.
  unfoldable pub exec_byte : Option Op → Runner W → ℕ → Code → ℕ → M W ℕ
  unfolding exec_op
  exec_byte none run fuel code ip = vm_panic Err.unknown_op
  exec_byte (some op) run fuel code ip = exec_op op run fuel code ip

  -- The loop at `ip`.
  unfoldable pub exec_from : ℕ → Code → ℕ → Vm W → Outcome W ⊥
  exec_from zero code ip vm = starved
  exec_from (suc fuel) code ip vm = elim (ltb ip code.len) [
    | true ↦
        (exec_byte (decode (byte_at code ip)) (λ callee. exec_from fuel callee 0) fuel code (ip + 1)
            >>= exec_from fuel code)
          vm
    | false ↦ vm_panic Err.fell_off_end vm
  ]

  -- vm_exec_raw, whose caller passes a positive length
  unfoldable pub vm_exec_raw : ℕ → Code → Vm W → Outcome W ⊥
  unfolding exec_from
  vm_exec_raw fuel code vm = exec_from fuel code 0 vm

  -- vm_exec at an entry that is not null
  unfoldable pub vm_exec : ℕ → Word → Vm W → Outcome W ⊥
  unfolding vm_exec_raw
  vm_exec fuel entry vm = elim entry.code [
    | none ↦ stop (v4_err Err.invalid_arg) vm
    | some bytes ↦ vm_exec_raw fuel (record { bytes = bytes; len = entry.code_len }) vm
  ]
