-- ===== src/Program/Steps.antt =====
-- One instruction of placed bytecode in the loop of vm_exec_raw in src/core.cpp.
use v4_engine.Base.{
  ℕ, suc, ◌+◌, ◌-◌, ◌^◌, ◌≤◌, ◌<◌, ◌≡◌, refl, ap, ◌∙◌, subst, Bool, some, List, ◌∷◌, length, arith,
  lt→ltb, le→not_ltb, if◌then◌else◌, Bool-cases, inl, inr,
}
use v4_engine.Err.{Err}
use v4_engine.Interp.{
  Code, byte_at, read_i16_le, read_i32_le, jump_target, jump_to, operand, jmp_op, branch_op,
  literal_op,
}
use v4_engine.Interp.Loop.{exec_op, exec_byte, exec_from}
use v4_engine.Opcode.{Op, opcode}
use v4_engine.Opcode.Table.{decode-opcode}
use v4_engine.Program.{le16, le32}
use v4_engine.Program.Layout.{Placed}
use v4_engine.Stack.{ds_push, ds_pop}
use v4_engine.Vm.{Vm, Env, ok, stop, then_run, pure}

pub target_forward :
    (len ip off : ℕ) → off < 2 ^ 15 → ip + off ≤ len → jump_target len ip off ≡ some (ip + off)
unfolding jump_target
target_forward len ip off small fits = ground arith

pub target_back :
    (len ip d : ℕ)
    → 0 < d
    → d ≤ 2 ^ 15
    → d ≤ ip
    → ip ≤ len
    → jump_target len ip (2 ^ 16 - d) ≡ some (ip - d)
unfolding jump_target
target_back len ip d some_way small in_code fits = ground arith

module _ {code : Code} {ip : ℕ} where
  first_byte : (b : ℕ) (bs : List ℕ) → Placed code ip (b ∷ bs) → byte_at code ip ≡ b
  first_byte b bs h = ap (byte_at code) (omega arith) ∙ h.bytes_at 0 (omega arith)

  -- The operand of two bytes that was encoded is read.
  pub read_i16_le-le16 : (n : ℕ) → n < 2 ^ 16 → Placed code ip (le16 n) → read_i16_le code ip ≡ n
  unfolding read_i16_le
  read_i16_le-le16 n small h = rw (first_byte _ _ h, h.bytes_at 1 (omega arith)) (omega arith)

  pub read_i32_le-le32 : (n : ℕ) → n < 2 ^ 32 → Placed code ip (le32 n) → read_i32_le code ip ≡ n
  unfolding read_i32_le
  read_i32_le-le32 n small h =
      rw
        (
          first_byte _ _ h,
          h.bytes_at 1 (omega arith),
          h.bytes_at 2 (omega arith),
          h.bytes_at 3 (omega arith),
        )
        (omega arith)

  pub operand_there :
      {W : Type 0} (bs : List ℕ) (n : ℕ) (e : Err) (vm : Vm W)
      → length bs ≡ n
      → Placed code ip bs
      → operand n e code ip vm ≡ ok tt vm
  unfolding operand
  operand_there bs n e vm len h =
      rw (le→not_ltb code.len (ip + n) (subst (λ k. ip + k ≤ code.len) len h.room)) refl

module _ {W : Type 0} where
  jump_to-lands :
      (len at off t : ℕ) (vm : Vm W)
      → jump_target len at off ≡ some t
      → jump_to len at off vm ≡ ok t vm
  unfolding jump_to
  jump_to-lands len at off t vm lands = rw (lands, jump_to) refl

module _ {W : Type 0} {code : Code} {ip : ℕ} where
  -- JMP to a target within the code.
  pub jmp_op-lands :
      (off t : ℕ) (vm : Vm W)
      → off < 2 ^ 16
      → Placed code ip (le16 off)
      → jump_target code.len (ip + 2) off ≡ some t
      → jmp_op code ip vm ≡ ok t vm
  unfolding jmp_op
  jmp_op-lands off t vm small h lands =
      rw (operand_there (le16 off) 2 Err.truncated_jump vm refl h, read_i16_le-le16 off small h)
        (jump_to-lands code.len (ip + 2) off t vm lands)

  pub branch_op-lands :
      (wanted : ℕ → Bool) (off t flag : ℕ) (vm vm₁ : Vm W)
      → off < 2 ^ 16
      → Placed code ip (le16 off)
      → jump_target code.len (ip + 2) off ≡ some t
      → ds_pop vm ≡ ok flag vm₁
      → branch_op wanted code ip vm ≡ ok (if wanted flag then t else ip + 2) vm₁
  unfolding branch_op
  branch_op-lands wanted off t flag vm vm₁ small h lands popped = elim (Bool-cases (wanted flag)) [
    | inl jumps ↦
        rw (there, popped, read_i16_le-le16 off small h, jumps)
          (jump_to-lands code.len (ip + 2) off t vm₁ lands)
    | inr goes ↦ rw (there, popped, goes) refl
  ]
    where
      there : operand 2 Err.truncated_jump code ip vm ≡ ok tt vm
      there = operand_there (le16 off) 2 Err.truncated_jump vm refl h

  pub branch_op-stops :
      (wanted : ℕ → Bool) (off e : ℕ) (vm vm₁ : Vm W)
      → Placed code ip (le16 off)
      → ds_pop vm ≡ stop e vm₁
      → branch_op wanted code ip vm ≡ stop e vm₁
  unfolding branch_op
  branch_op-stops wanted off e vm vm₁ h popped =
      rw (operand_there (le16 off) 2 Err.truncated_jump vm refl h, popped) refl

  pub literal_op-pushes :
      (n : ℕ) (vm : Vm W)
      → n < 2 ^ 32
      → Placed code ip (le32 n)
      → literal_op 4 read_i32_le code ip vm ≡ then_run (ds_push n vm) (λ _. pure (ip + 4))
  unfolding literal_op
  literal_op-pushes n vm small h =
      rw (operand_there (le32 n) 4 Err.truncated_literal vm refl h, read_i32_le-le32 n small h) refl

module _ {W : Type 0} (env : Env W) {code : Code} {ip : ℕ} where
  -- The loop at an opcode.
  pub exec_from-step :
      (o : Op) (bs : List ℕ) (fuel : ℕ) (vm : Vm W)
      → Placed code ip (opcode o ∷ bs)
      → exec_from env (suc fuel) code ip vm
        ≡ then_run
            (exec_op env o (λ callee. exec_from env fuel callee 0) fuel code (ip + 1) vm)
            (exec_from env fuel code)
  unfolding exec_from exec_byte
  exec_from-step o bs fuel vm h =
      rw (lt→ltb ip code.len starts, exec_from, first_byte _ _ h, decode-opcode o, exec_byte) refl
    where
      within : (n : ℕ) → ip + suc n ≤ code.len → ip < code.len
      within n h = omega arith

      starts : ip < code.len
      starts = within (length bs) h.room
