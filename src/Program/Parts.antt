-- ===== src/Program/Parts.antt =====
-- Where the parts of a branch and of a loop stand in the bytecode, and the jumps between them in vm_exec_raw of
-- src/core.cpp.
use v4_engine.Base.{
  ℕ, ◌+◌, ◌-◌, ◌^◌, ◌≤◌, ◌<◌, ◌≡◌, ◌≢◌, refl, some, List, ◌++◌, ◌==◌, false, arith, subst,
}
use v4_engine.Interp.{Code, jump_target}
use v4_engine.Program.{Program, branch, repeat, size, jz_by, jmp_by, encode}
use v4_engine.Program.Layout.{Placed, length-encode, left_part, right_part}
use v4_engine.Program.Leads.{Leads, Leads-to, jmp-Leads, jz-Leads}
use v4_engine.Program.Steps.{target_forward, target_back}
use v4_engine.Stack.{ds_pop}
use v4_engine.Vm.{Vm, Env, ok}

non_zero : (n : ℕ) → n ≢ 0 → (n == 0) ≡ false
non_zero n h = ground arith

abbrev back : Program → Program → List ℕ
back t b = jmp_by (2 ^ 16 - size (repeat t b))

-- The four stretches of a branch at `ip`.
pub record BranchAt (code : Code) (ip : ℕ) (p q : Program) : Type 0 where
  pub jz_at : Placed code ip (jz_by (size p + 3))
  pub then_at : Placed code (ip + 3) (encode p)
  pub jmp_at : Placed code (ip + 3 + size p) (jmp_by (size q))
  pub else_at : Placed code (ip + 3 + size p + 3) (encode q)
  pub else_room : ip + 3 + size p + 3 + size q ≤ code.len

-- The four stretches of a loop at `ip`.
pub record RepeatAt (code : Code) (ip : ℕ) (t b : Program) : Type 0 where
  pub test_at : Placed code ip (encode t)
  pub jz_at : Placed code (ip + size t) (jz_by (size b + 3))
  pub body_at : Placed code (ip + size t + 3) (encode b)
  pub jmp_at : Placed code (ip + size t + 3 + size b) (back t b)
  pub end_room : ip + size t + 3 + size b + 3 ≤ code.len

module _ {code : Code} where
  pub branch_at :
      {ip : ℕ} (p q : Program) → Placed code ip (encode (branch p q)) → BranchAt code ip p q
  branch_at {ip} p q h = record {
    jz_at = left_part _ _ h;
    then_at = left_part _ _ after_jz;
    jmp_at = left_part _ _ after_then;
    else_at = after_jmp;
    else_room = subst (λ n. ip + 3 + size p + 3 + n ≤ code.len) (length-encode q) after_jmp.room;
  }
    where
      after_jz : Placed code (ip + 3) (encode p ++ (jmp_by (size q) ++ encode q))
      after_jz =
          right_part (jz_by (size p + 3)) (encode p ++ (jmp_by (size q) ++ encode q)) 3 refl h

      after_then : Placed code (ip + 3 + size p) (jmp_by (size q) ++ encode q)
      after_then =
          right_part (encode p) (jmp_by (size q) ++ encode q) (size p) (length-encode p) after_jz

      after_jmp : Placed code (ip + 3 + size p + 3) (encode q)
      after_jmp = right_part (jmp_by (size q)) (encode q) 3 refl after_then

  pub repeat_at :
      {ip : ℕ} (t b : Program) → Placed code ip (encode (repeat t b)) → RepeatAt code ip t b
  repeat_at {ip} t b h = record {
    test_at = left_part _ _ h;
    jz_at = left_part _ _ after_test;
    body_at = left_part _ _ after_jz;
    jmp_at = after_body;
    end_room = after_body.room;
  }
    where
      after_test : Placed code (ip + size t) (jz_by (size b + 3) ++ (encode b ++ back t b))
      after_test =
          right_part (encode t) (jz_by (size b + 3) ++ (encode b ++ back t b)) (size t)
            (length-encode t) h

      after_jz : Placed code (ip + size t + 3) (encode b ++ back t b)
      after_jz = right_part (jz_by (size b + 3)) (encode b ++ back t b) 3 refl after_test

      after_body : Placed code (ip + size t + 3 + size b) (back t b)
      after_body = right_part (encode b) (back t b) (size b) (length-encode b) after_jz

module _ {W : Type 0} (env : Env W) {code : Code} {ip : ℕ} where
  module _ (p q : Program) (small : size p + 3 < 2 ^ 15) (small_else : size q < 2 ^ 15)
      (at : BranchAt code ip p q) where
    jz_target : jump_target code.len (ip + 1 + 2) (size p + 3) ≡ some (ip + 1 + 2 + (size p + 3))
    jz_target = target_forward code.len (ip + 1 + 2) (size p + 3) small (in_code at.else_room)
      where
        in_code : ip + 3 + size p + 3 + size q ≤ code.len → ip + 1 + 2 + (size p + 3) ≤ code.len
        in_code h = omega arith

    pub enter_then :
        {flag : ℕ} {vm vm₁ : Vm W}
        → ds_pop vm ≡ ok flag vm₁
        → flag ≢ 0
        → Leads env code ip vm (ok tt vm₁) (ip + 3)
    enter_then {flag} popped h =
        jz-Leads env _ _ (omega arith) at.jz_at (ip + 3) jz_target popped
          (rw (non_zero flag h) (omega arith))

    pub enter_else :
        {vm vm₁ : Vm W}
        → ds_pop vm ≡ ok 0 vm₁
        → Leads env code ip vm (ok tt vm₁) (ip + 3 + size p + 3)
    enter_else popped = jz-Leads env _ _ (omega arith) at.jz_at _ jz_target popped (omega arith)

    pub leave_then :
        (vm : Vm W) → Leads env code (ip + 3 + size p) vm (ok tt vm) (ip + size (branch p q))
    leave_then vm = Leads-to arrives (
        jmp-Leads env (size q) _ vm (omega arith)
          (target_forward code.len _ (size q) small_else (in_code at.else_room)) at.jmp_at)
      where
        arrives : ip + 3 + size p + 1 + 2 + size q ≡ ip + size (branch p q)
        arrives = omega arith

        in_code :
            ip + 3 + size p + 3 + size q ≤ code.len → ip + 3 + size p + 1 + 2 + size q ≤ code.len
        in_code h = omega arith

  module _ (t b : Program) (small : size (repeat t b) ≤ 2 ^ 15) (at : RepeatAt code ip t b) where
    end_target :
        jump_target code.len (ip + size t + 1 + 2) (size b + 3)
        ≡ some (ip + size t + 1 + 2 + (size b + 3))
    end_target = target_forward code.len _ (size b + 3) (omega arith) (in_code at.end_room)
      where
        in_code :
            ip + size t + 3 + size b + 3 ≤ code.len → ip + size t + 1 + 2 + (size b + 3) ≤ code.len
        in_code h = omega arith

    pub enter_body :
        {flag : ℕ} {vm vm₁ : Vm W}
        → ds_pop vm ≡ ok flag vm₁
        → flag ≢ 0
        → Leads env code (ip + size t) vm (ok tt vm₁) (ip + size t + 3)
    enter_body {flag} popped h =
        jz-Leads env _ _ (omega arith) at.jz_at (ip + size t + 3) end_target popped
          (rw (non_zero flag h) (omega arith))

    pub leave_loop :
        {vm vm₁ : Vm W}
        → ds_pop vm ≡ ok 0 vm₁
        → Leads env code (ip + size t) vm (ok tt vm₁) (ip + size (repeat t b))
    leave_loop popped = jz-Leads env _ _ (omega arith) at.jz_at _ end_target popped (omega arith)

    pub go_back : (vm : Vm W) → Leads env code (ip + size t + 3 + size b) vm (ok tt vm) ip
    go_back vm = Leads-to arrives (
        jmp-Leads env _ _ vm (omega arith)
          (target_back code.len _ (size (repeat t b)) (omega arith) small (omega arith)
            (in_code at.end_room))
          at.jmp_at)
      where
        arrives : ip + size t + 3 + size b + 1 + 2 - size (repeat t b) ≡ ip
        arrives = omega arith

        in_code :
            ip + size t + 3 + size b + 3 ≤ code.len → ip + size t + 3 + size b + 1 + 2 ≤ code.len
        in_code h = omega arith
