-- ===== src/Interp/Local.antt =====
-- src/core.cpp: the local variables, cells of the return stack above the frame pointer.
use v4_engine.Base.{ℕ, ◌+◌, Option, none, some, leb, if◌then◌else◌, update}
use v4_engine.Err.{Err}
use v4_engine.Panic.{vm_panic}
use v4_engine.Stack.{ds_push, ds_pop, ds_peek}
use v4_engine.Vm.{ok, M, ◌>>=◌}

module _ {W : Type 0} where
  unfoldable pub frame_slot : Option ℕ → ℕ → M W ℕ
  frame_slot none idx vm = vm_panic Err.invalid_arg vm
  frame_slot (some f) idx vm =
      if leb vm.rp (f + idx) then vm_panic Err.stack_underflow vm else ok (f + idx) vm

  -- The two checks: a frame, and `fp + idx` below the return stack's top.
  unfoldable pub local_slot : ℕ → M W ℕ
  unfolding frame_slot
  local_slot idx vm = frame_slot vm.fp idx vm

  unfoldable pub rs_write : ℕ → ℕ → M W (Unit {0})
  rs_write i val vm = ok tt (record vm { rs = update vm.rs i val })

  unfoldable pub lget_op : ℕ → M W (Unit {0})
  unfolding local_slot
  lget_op idx = do i ← local_slot idx; λ vm. ds_push (vm.rs i) vm

  unfoldable pub lset_op : ℕ → M W (Unit {0})
  unfolding local_slot rs_write
  lset_op idx = do i ← local_slot idx; val ← ds_pop; rs_write i val

  unfoldable pub ltee_op : ℕ → M W (Unit {0})
  unfolding local_slot rs_write
  ltee_op idx = do i ← local_slot idx; val ← ds_peek 0; rs_write i val

  -- LINC with `f a = a + 1`, LDEC with `f a = a - 1`, in 32 bits
  unfoldable pub lmodify_op : (ℕ → ℕ) → ℕ → M W (Unit {0})
  unfolding local_slot rs_write
  lmodify_op f idx = do i ← local_slot idx; λ vm. rs_write i (f (vm.rs i)) vm
