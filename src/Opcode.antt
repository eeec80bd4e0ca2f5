-- ===== src/Opcode.antt =====
-- include/v4/opcodes.def and opcodes.hpp: the opcodes, their bytes, and the `static_cast<Op>` that the
-- interpreter's switch reads.
pub mod Table
pub mod Kinds
use v4_engine.Base.{ℕ, Option, none, some, List, [], ◌∷◌, ◌==◌, if◌then◌else◌}

-- `modulo` is MOD.
pub data Op : Type 0 where
  lit dup drop swap over add sub mul div modulo divu modu inc dec eq ne lt le gt ge ltu : Op
  leu and or xor invert shl shr sar load store load8u load16u store8 store16 load8s : Op
  load16s jmp jz jnz select call ret sys tor fromr rfetch lit0 lit1 litn1 lit_u8 lit_i8 : Op
  lit_i16 lget lset ltee lget0 lget1 lset0 lset1 linc ldec task_spawn task_exit task_sleep : Op
  task_yield critical_enter critical_exit task_send task_receive task_receive_blocking : Op
  task_self task_count : Op

unfoldable pub opcode : Op → ℕ
opcode Op.lit = 0x00
opcode Op.dup = 0x01
opcode Op.drop = 0x02
opcode Op.swap = 0x03
opcode Op.over = 0x04
opcode Op.add = 0x10
opcode Op.sub = 0x11
opcode Op.mul = 0x12
opcode Op.div = 0x13
opcode Op.modulo = 0x14
opcode Op.divu = 0x15
opcode Op.modu = 0x16
opcode Op.inc = 0x17
opcode Op.dec = 0x18
opcode Op.eq = 0x20
opcode Op.ne = 0x21
opcode Op.lt = 0x22
opcode Op.le = 0x23
opcode Op.gt = 0x24
opcode Op.ge = 0x25
opcode Op.ltu = 0x26
opcode Op.leu = 0x27
opcode Op.and = 0x28
opcode Op.or = 0x29
opcode Op.xor = 0x2a
opcode Op.invert = 0x2b
opcode Op.shl = 0x2c
opcode Op.shr = 0x2d
opcode Op.sar = 0x2e
opcode Op.load = 0x30
opcode Op.store = 0x31
opcode Op.load8u = 0x32
opcode Op.load16u = 0x33
opcode Op.store8 = 0x34
opcode Op.store16 = 0x35
opcode Op.load8s = 0x36
opcode Op.load16s = 0x37
opcode Op.jmp = 0x40
opcode Op.jz = 0x41
opcode Op.jnz = 0x42
opcode Op.select = 0x43
opcode Op.call = 0x50
opcode Op.ret = 0x51
opcode Op.sys = 0x60
opcode Op.tor = 0x70
opcode Op.fromr = 0x71
opcode Op.rfetch = 0x72
opcode Op.lit0 = 0x73
opcode Op.lit1 = 0x74
opcode Op.litn1 = 0x75
opcode Op.lit_u8 = 0x76
opcode Op.lit_i8 = 0x77
opcode Op.lit_i16 = 0x78
opcode Op.lget = 0x79
opcode Op.lset = 0x7a
opcode Op.ltee = 0x7b
opcode Op.lget0 = 0x7c
opcode Op.lget1 = 0x7d
opcode Op.lset0 = 0x7e
opcode Op.lset1 = 0x7f
opcode Op.linc = 0x80
opcode Op.ldec = 0x81
opcode Op.task_spawn = 0x90
opcode Op.task_exit = 0x91
opcode Op.task_sleep = 0x92
opcode Op.task_yield = 0x93
opcode Op.critical_enter = 0x94
opcode Op.critical_exit = 0x95
opcode Op.task_send = 0x96
opcode Op.task_receive = 0x97
opcode Op.task_receive_blocking = 0x98
opcode Op.task_self = 0x99
opcode Op.task_count = 0x9a

-- The table `kPrimitiveTable`, in the order of opcodes.def.
abbrev pub all_ops : List Op
all_ops =
    Op.lit ∷ Op.dup ∷ Op.drop ∷ Op.swap ∷ Op.over ∷ Op.add ∷ Op.sub ∷ Op.mul ∷ Op.div ∷ Op.modulo
    ∷ Op.divu ∷ Op.modu ∷ Op.inc ∷ Op.dec ∷ Op.eq ∷ Op.ne ∷ Op.lt ∷ Op.le ∷ Op.gt ∷ Op.ge ∷ Op.ltu
    ∷ Op.leu ∷ Op.and ∷ Op.or ∷ Op.xor ∷ Op.invert ∷ Op.shl ∷ Op.shr ∷ Op.sar ∷ Op.load ∷ Op.store
    ∷ Op.load8u ∷ Op.load16u ∷ Op.store8 ∷ Op.store16 ∷ Op.load8s ∷ Op.load16s ∷ Op.jmp ∷ Op.jz
    ∷ Op.jnz ∷ Op.select ∷ Op.call ∷ Op.ret ∷ Op.sys ∷ Op.tor ∷ Op.fromr ∷ Op.rfetch ∷ Op.lit0
    ∷ Op.lit1 ∷ Op.litn1 ∷ Op.lit_u8 ∷ Op.lit_i8 ∷ Op.lit_i16 ∷ Op.lget ∷ Op.lset ∷ Op.ltee
    ∷ Op.lget0 ∷ Op.lget1 ∷ Op.lset0 ∷ Op.lset1 ∷ Op.linc ∷ Op.ldec ∷ Op.task_spawn ∷ Op.task_exit
    ∷ Op.task_sleep ∷ Op.task_yield ∷ Op.critical_enter ∷ Op.critical_exit ∷ Op.task_send
    ∷ Op.task_receive ∷ Op.task_receive_blocking ∷ Op.task_self ∷ Op.task_count ∷ []

unfoldable pub find_op : ℕ → List Op → Option Op
find_op b [] = none
find_op b (o ∷ os) = if opcode o == b then some o else find_op b os

-- The opcode of a byte; `none` is the `default` of the switch.
unfoldable pub decode : ℕ → Option Op
unfolding find_op opcode
decode b = find_op b all_ops
