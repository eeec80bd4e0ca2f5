-- ===== src/Opcode/Kinds.antt =====
-- include/v4/opcodes.def and opcodes.hpp: the kinds of the opcodes' operands.
use v4_engine.Base.{ℕ}
use v4_engine.Opcode.{Op}

pub data PrimKind : Type 0 where
  no_imm imm8 imm16 imm32 rel16 idx16 : PrimKind

-- The third column of the table.
unfoldable pub kind : Op → PrimKind
kind Op.lit = imm32
kind Op.jmp = rel16
kind Op.jz = rel16
kind Op.jnz = rel16
kind Op.call = idx16
kind Op.lit_u8 = imm8
kind Op.lit_i8 = imm8
kind Op.lit_i16 = imm16
kind Op.lget = imm8
kind Op.lset = imm8
kind Op.ltee = imm8
kind Op.linc = imm8
kind Op.ldec = imm8
kind _ = no_imm

-- The bytes of an operand.
abbrev pub operand_size : PrimKind → ℕ
operand_size no_imm = 0
operand_size imm8 = 1
operand_size imm16 = 2
operand_size imm32 = 4
operand_size rel16 = 2
operand_size idx16 = 2
