-- ===== src/Opcode/Table.antt =====
-- include/v4/opcodes.def: the bytes of the opcodes, there and back.
use mathlib.Core.Option.{some_inj}
use v4_engine.Base.{ℕ, ◌≡◌, ◌↔◌, refl, ap, subst, sym, ◌∙◌, some, inl, inr, List, [], ◌∷◌}
use v4_engine.Base.{◌==◌, ==→eq, Bool-cases}
use v4_engine.Opcode.{Op, opcode, all_ops, find_op, decode}

find_op_sound : (b : ℕ) (os : List Op) (o : Op) → find_op b os ≡ some o → opcode o ≡ b
unfolding find_op
find_op_sound b [] o h = cc
find_op_sound b (x ∷ os) o h = elim (Bool-cases (opcode x == b)) [
  | inl e ↦ ap opcode (sym (some_inj.0 (rw e at h))) ∙ ==→eq _ b e
  | inr e ↦ find_op_sound b os o (rw e at h)
]

decode_sound : (b : ℕ) (o : Op) → decode b ≡ some o → opcode o ≡ b
unfolding decode
decode_sound b o h = find_op_sound b all_ops o h

pub decode-opcode : (o : Op) → decode (opcode o) ≡ some o
unfolding decode
decode-opcode Op.lit = refl
decode-opcode _ = refl

-- A byte decodes to an opcode exactly when it is that opcode's byte: no two opcodes share a byte,
-- every opcode of the table is reachable, and a byte outside the table decodes to none.
pub decode-eq-some_iff : (b : ℕ) (o : Op) → (decode b ≡ some o) ↔ (opcode o ≡ b)
decode-eq-some_iff b o = (decode_sound b o, λ e. subst (λ c. decode c ≡ some o) e (decode-opcode o))
