-- ===== src/Interp.antt =====
-- src/core.cpp: vm_exec_raw. `ip` is an offset into the bytecode; a function for a group of opcodes runs after
-- the opcode's byte was fetched. The loop in `Interp.Loop` ties the recursion.
pub mod Local
pub mod Call
pub mod Loop
pub mod Fuel
pub mod Frames
pub mod Operands
pub mod Halts
pub mod Straight
use v4_engine.Base.{
  ℕ, zero, suc, ◌+◌, ◌-◌, ◌*◌, ◌^◌, Bool, true, false, Option, none, some, List, ltb, leb, ◌==◌,
  ◌&&◌, not, if◌then◌else◌, get_or, u8, u16, u32, minus, sign_extend8, sign_extend16,
}
use v4_engine.Err.{Err, v4_err}
use v4_engine.Opcode.{Op}
use v4_engine.Alu.{Computed, value, panics, traps, binary}
use v4_engine.Panic.{vm_panic}
use v4_engine.Stack.{ds_push, ds_pop, ds_peek, rs_push, rs_pop, rs_peek}
use v4_engine.Memory.{mem_read32, mem_write32, mem_read8, mem_read16, mem_write8, mem_write16}
use v4_engine.Task.{
  task_spawn, task_exit, task_sleep, task_yield, critical_enter, critical_exit, task_send,
  task_receive, task_receive_blocking, task_current,
}
use v4_engine.Vm.{Vm, Env, Message, Outcome, ok, stop, fault, M, pure, ◌>>=◌, ◌>>◌}

-- The bytecode of one activation: `bc` and `len`.
pub record Code : Type 0 where
  pub bytes : List ℕ
  pub len : ℕ

abbrev pub byte_at : Code → ℕ → ℕ
byte_at code i = get_or code.bytes i 0

unfoldable pub read_i32_le : Code → ℕ → ℕ
read_i32_le code p =
    byte_at code p
    + byte_at code (p + 1) * 2 ^ 8
    + byte_at code (p + 2) * 2 ^ 16
    + byte_at code (p + 3) * 2 ^ 24

unfoldable pub read_i16_le : Code → ℕ → ℕ
read_i16_le code p = byte_at code p + byte_at code (p + 1) * 2 ^ 8

-- ip + off, where `off` is an int16_t: `none` is a target before the code or past its end.
unfoldable pub jump_target : ℕ → ℕ → ℕ → Option ℕ
jump_target len ip off =
    if ltb off (2 ^ 15)
    then if leb (ip + off) len then some (ip + off) else none
    else if leb (2 ^ 16) (ip + off)
    then if leb (ip + off - 2 ^ 16) len then some (ip + off - 2 ^ 16) else none
    else none

module _ {W : Type 0} where
  -- The operand of `n` bytes after the opcode is there.
  unfoldable pub operand : ℕ → Err → Code → ℕ → M W (Unit {0})
  operand n e code ip vm = if ltb code.len (ip + n) then vm_panic e vm else ok tt vm

  -- v4_i32 a; pop a; push f(a)
  unfoldable pub unary_op : (ℕ → ℕ) → M W (Unit {0})
  unary_op f = do a ← ds_pop; ds_push (f a)

  -- pop b; pop a; push f(a, b)
  unfoldable pub pop_two : (ℕ → ℕ → ℕ) → M W (Unit {0})
  pop_two f = do b ← ds_pop; a ← ds_pop; ds_push (f a b)

  unfoldable pub finish_binary : Computed → M W (Unit {0})
  finish_binary (value r) vm = ds_push r vm
  finish_binary (panics e) vm = vm_panic e vm
  finish_binary traps vm = fault

  unfoldable pub binary_op : Op → M W (Unit {0})
  unfolding finish_binary
  binary_op op = do b ← ds_pop; a ← ds_pop; finish_binary (binary op a b)

  unfoldable pub dup_op : M W (Unit {0})
  dup_op = do a ← ds_peek 0; ds_push a

  unfoldable pub drop_op : M W (Unit {0})
  drop_op = do _ ← ds_pop; pure tt

  unfoldable pub swap_op : M W (Unit {0})
  swap_op = do a ← ds_pop; b ← ds_pop; ds_push a; ds_push b

  unfoldable pub over_op : M W (Unit {0})
  over_op = do v ← ds_peek 1; ds_push v

  unfoldable pub select_op : M W (Unit {0})
  select_op = do a ← ds_pop; b ← ds_pop; flag ← ds_pop; ds_push (if flag == 0 then b else a)

  -- LOAD with `mem_read32` and no extension
  unfoldable pub load_op : (ℕ → M W ℕ) → (ℕ → ℕ) → M W (Unit {0})
  load_op read extend = do addr ← ds_pop; val ← read addr; ds_push (extend val)

  -- STORE with `mem_write32`
  unfoldable pub store_op : (ℕ → ℕ → M W (Unit {0})) → M W (Unit {0})
  store_op write = do addr ← ds_pop; val ← ds_pop; write addr val

  abbrev pub load8u_op : M W (Unit {0})
  load8u_op = load_op mem_read8 (λ val. val)

  abbrev pub load16u_op : M W (Unit {0})
  load16u_op = load_op mem_read16 (λ val. val)

  abbrev pub store8_op : M W (Unit {0})
  store8_op = store_op mem_write8

  abbrev pub store16_op : M W (Unit {0})
  store16_op = store_op mem_write16

  -- The low byte as an int8_t, the low half as an int16_t.
  abbrev pub load8s_op : M W (Unit {0})
  load8s_op = load_op mem_read8 (λ val. sign_extend8 (u8 val))

  abbrev pub load16s_op : M W (Unit {0})
  load16s_op = load_op mem_read16 (λ val. sign_extend16 (u16 val))

  unfoldable pub tor_op : M W (Unit {0})
  tor_op = do val ← ds_pop; rs_push val

  unfoldable pub fromr_op : M W (Unit {0})
  fromr_op = do val ← rs_pop; ds_push val

  unfoldable pub rfetch_op : M W (Unit {0})
  rfetch_op = do val ← rs_peek 0; ds_push val

  unfoldable pub jump_to : ℕ → ℕ → ℕ → M W ℕ
  unfolding jump_target
  jump_to len ip off vm = elim (jump_target len ip off) [
    | none ↦ vm_panic Err.jump_out_of_range vm
    | some t ↦ ok t vm
  ]

  unfoldable pub jmp_op : Code → ℕ → M W ℕ
  unfolding operand read_i16_le jump_to
  jmp_op code ip = do
    operand 2 Err.truncated_jump code ip
    jump_to code.len (ip + 2) (read_i16_le code ip)

  -- JZ with `wanted cond = (cond == 0)`, JNZ with its negation
  unfoldable pub branch_op : (ℕ → Bool) → Code → ℕ → M W ℕ
  unfolding operand read_i16_le jump_to
  branch_op wanted code ip = do
    operand 2 Err.truncated_jump code ip
    cond ← ds_pop
    if wanted cond then jump_to code.len (ip + 2) (read_i16_le code ip) else pure (ip + 2)

  -- A literal of `n` bytes, decoded by `value`.
  unfoldable pub literal_op : ℕ → (Code → ℕ → ℕ) → Code → ℕ → M W ℕ
  unfolding operand
  literal_op n decode code ip = do
    operand n Err.truncated_literal code ip
    ds_push (decode code ip)
    pure (ip + n)

  -- An opcode with no operand goes on at `ip`.
  unfoldable pub plain : M W (Unit {0}) → ℕ → M W ℕ
  plain m ip = do m; pure ip
