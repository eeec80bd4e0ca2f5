-- ===== src/Err.antt =====
-- include/v4/errors.def: the error codes, as the `v4_err` integers that functions return.
use v4_engine.Base.{ℕ, minus}

pub data Err : Type 0 where
  no_error truncated_literal truncated_jump jump_out_of_range fell_off_end div_by_zero : Err
  unaligned oob_memory stack_overflow stack_underflow invalid_arg dictionary_full : Err
  invalid_word_idx task_limit msg_queue_full no_message no_memory unknown_op : Err

-- V4_ERR(name): the pattern of the int.
abbrev pub v4_err : Err → ℕ
v4_err Err.no_error = 0
v4_err Err.truncated_literal = minus 1
v4_err Err.truncated_jump = minus 2
v4_err Err.jump_out_of_range = minus 3
v4_err Err.fell_off_end = minus 10
v4_err Err.div_by_zero = minus 11
v4_err Err.unaligned = minus 12
v4_err Err.oob_memory = minus 13
v4_err Err.stack_overflow = minus 14
v4_err Err.stack_underflow = minus 15
v4_err Err.invalid_arg = minus 16
v4_err Err.dictionary_full = minus 17
v4_err Err.invalid_word_idx = minus 18
v4_err Err.task_limit = minus 20
v4_err Err.msg_queue_full = minus 21
v4_err Err.no_message = minus 22
v4_err Err.no_memory = minus 23
v4_err Err.unknown_op = minus 99
