-- ===== src/Safety.antt =====
-- The representation invariant of the machine, and the postcondition that the modules below use.
pub mod Core
pub mod Tasks
pub mod Ops
pub mod Steps
pub mod Calls
pub mod Run
pub mod Init
pub mod Api
use v4_engine.Base.{ℕ, ◌≤◌, ◌<◌, Bool, true, false, if◌then◌else◌, Option, none, some}
use v4_engine.Vm.{
  Vm, Task, Scheduler, MsgQueue, Outcome, ok, stop, fault, starved, then_run, M, ◌>>=◌, ◌>>◌,
  ds_cap, rs_cap, max_words, max_mmio, max_tasks, msg_queue_size,
}

-- A frame pointer points into the return stack or just past it.
abbrev pub FrameIn : Option ℕ → Type 0
FrameIn none = Unit
FrameIn (some f) = f ≤ rs_cap

-- Restoring a task's saved depths leaves both stack pointers in range.
pub record DepthsIn (t : Task) : Type 0 where
  pub ds_in : t.ds_depth ≤ ds_cap
  pub rs_in : t.rs_depth ≤ rs_cap

pub record SchedulerIn (s : Scheduler) : Type 0 where
  pub current_in : s.current_task < max_tasks
  pub depths_in : (i : ℕ) → DepthsIn (s.tasks i)

pub record QueueIn (q : MsgQueue) : Type 0 where
  pub count_in : q.count ≤ msg_queue_size
  pub read_in : q.read_idx < msg_queue_size
  pub write_in : q.write_idx < msg_queue_size

pub record IsValid {W : Type 0} (vm : Vm W) : Type 0 where
  pub sp_in : vm.sp ≤ ds_cap
  pub rp_in : vm.rp ≤ rs_cap
  pub fp_in : FrameIn vm.fp
  pub words_in : vm.word_count ≤ max_words
  pub mmio_in : vm.mmio_count ≤ max_mmio
  pub sched_in : SchedulerIn vm.scheduler
  pub queue_in : QueueIn vm.msg_queue

-- Whatever a function returns, the machine that it leaves is valid.
pub data Safe {W : Type 0} {A : Type 0} : Outcome W A → Type 0 where
  goes_on : {a : A} {vm : Vm W} → IsValid vm → Safe (ok a vm)
  returned : {e : ℕ} {vm : Vm W} → IsValid vm → Safe (stop e vm)
  faulted : Safe fault
  ran_out : Safe starved

abbrev pub Keeps : {W A : Type 0} → M W A → Type 0
Keeps {W} m = (vm : Vm W) → IsValid vm → Safe (m vm)

module _ {W A B : Type 0} where
  pub then_run-Safe :
      {r : Outcome W A} {f : A → M W B} → Safe r → ((a : A) → Keeps (f a)) → Safe (then_run r f)
  then_run-Safe (goes_on v) k = k _ _ v
  then_run-Safe (returned v) k = returned v
  then_run-Safe faulted k = faulted
  then_run-Safe ran_out k = ran_out

  pub Keeps-bind : {m : M W A} {f : A → M W B} → Keeps m → ((a : A) → Keeps (f a)) → Keeps (m >>= f)
  Keeps-bind h k vm v = then_run-Safe (h vm v) k

module _ {W A : Type 0} where
  pub Safe-if : (b : Bool) {x y : Outcome W A} → Safe x → Safe y → Safe (if b then x else y)
  Safe-if true hx hy = hx
  Safe-if false hx hy = hy

  pub Keeps-if : (b : Bool) {m k : M W A} → Keeps m → Keeps k → Keeps (if b then m else k)
  Keeps-if true hm hk = hm
  Keeps-if false hm hk = hk
