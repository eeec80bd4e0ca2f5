-- ===== src/Safety/Ops.antt =====
-- The invariant and the message queue, the functions of src/task_backend_custom.cpp and the SYS call.
use v4_engine.Base.{
  ℕ, zero, suc, ◌+◌, ◌*◌, ◌≡◌, refl, Bool, true, false, Option, none, some, arith, ltb,
  if◌then◌else◌, u8,
}
use v4_engine.Message.{send, receive, take_at}
use v4_engine.Safety.{
  DepthsIn, SchedulerIn, QueueIn, IsValid, Safe, goes_on, ran_out, Keeps, Safe-if, then_run-Safe,
}
use v4_engine.Safety.Core.{world-IsValid}
use v4_engine.Safety.Tasks.{scheduler-IsValid, queue-IsValid, set_task-IsValid, vm_schedule-Keeps}
use v4_engine.Stack.{malloc}
use v4_engine.Task.{
  start_task, drop_blocks, spawn_at, spawn_found, task_spawn, retire_current, task_exit,
  block_current, task_sleep, task_yield, critical_enter, critical_exit, task_send, task_receive,
  timed_out, receive_wait, task_receive_blocking, task_init, task_cleanup, retire,
}
use v4_engine.Vm.{Vm, Env, Task, Scheduler, MsgQueue, Message, blocked, max_tasks}

pub send-QueueIn :
    (current dst_task msg_type value : ℕ) (q : MsgQueue)
    → QueueIn q
    → QueueIn (send current dst_task msg_type value q).1
unfolding send
send-QueueIn current dst_task msg_type value q h = ground arith

take_at-QueueIn : (o : Option ℕ) (q : MsgQueue) → QueueIn q → QueueIn (take_at o q).1
unfolding take_at
take_at-QueueIn none q h = h
take_at-QueueIn (some i) q h = record {
  count_in = omega arith;
  read_in = h.read_in;
  write_in = h.write_in;
}

pub receive-QueueIn :
    (current msg_type : ℕ) (q : MsgQueue) → QueueIn q → QueueIn (receive current msg_type q).1
unfolding receive
receive-QueueIn current msg_type q h = take_at-QueueIn _ q h

-- Counters of the scheduler may change freely.
counters-SchedulerIn :
    {s : Scheduler} (count nesting : ℕ)
    → SchedulerIn s
    → SchedulerIn (record s { task_count = count; critical_nesting = nesting })
counters-SchedulerIn count nesting h = assumption

module _ {W : Type 0} where
  if-IsValid :
      (b : Bool) {vm vm' : Vm W} → IsValid vm → IsValid vm' → IsValid (if b then vm else vm')
  if-IsValid true v v' = v
  if-IsValid false v v' = v'

  pub if_pair-IsValid :
      {A : Type 0} (b : Bool) (p q : A × Vm W)
      → IsValid p.1
      → IsValid q.1
      → IsValid (if b then p else q).1
  if_pair-IsValid true p q v v' = v
  if_pair-IsValid false p q v v' = v'

  pub task_send-IsValid :
      (dst_task msg_type value : ℕ) (vm : Vm W)
      → IsValid vm
      → IsValid (task_send dst_task msg_type value vm).1
  unfolding task_send
  task_send-IsValid dst_task msg_type value vm v =
      queue-IsValid _
        (send-QueueIn vm.scheduler.current_task dst_task msg_type value vm.msg_queue v.queue_in) v

  pub task_receive-IsValid :
      (msg_type : ℕ) (vm : Vm W) → IsValid vm → IsValid (task_receive msg_type vm).1
  unfolding task_receive
  task_receive-IsValid msg_type vm v =
      queue-IsValid _ (receive-QueueIn vm.scheduler.current_task msg_type vm.msg_queue v.queue_in) v

  start_task-IsValid :
      (i word_idx priority ds_size rs_size : ℕ) {vm : Vm W}
      → IsValid vm
      → IsValid (start_task i word_idx priority ds_size rs_size vm)
  unfolding start_task
  start_task-IsValid i word_idx priority ds_size rs_size {vm} v =
      let v' = set_task-IsValid i _ (record { ds_in = omega arith; rs_in = omega arith }) v in
      scheduler-IsValid _
        (counters-SchedulerIn (u8 (vm.scheduler.task_count + 1)) vm.scheduler.critical_nesting
          v'.sched_in)
        v'

  drop_blocks-IsValid : (i : ℕ) {vm : Vm W} → IsValid vm → IsValid (drop_blocks i vm)
  unfolding drop_blocks
  drop_blocks-IsValid i {vm} v = set_task-IsValid i _ (cleared (v.sched_in.depths_in i)) v
    where
      cleared : {t : Task} → DepthsIn t → DepthsIn (record t { ds_base = none; rs_base = none })
      cleared h = assumption

  pub task_init-IsValid : (slice : ℕ) (vm : Vm W) → IsValid vm → IsValid (task_init slice vm)
  unfolding task_init
  task_init-IsValid slice vm v = queue-IsValid _ (omega arith) (
      scheduler-IsValid _
        (record {
          current_in = omega arith;
          depths_in = λ i. record { ds_in = omega arith; rs_in = omega arith };
        })
        v)

  pub task_cleanup-IsValid : (vm : Vm W) → IsValid vm → IsValid (task_cleanup vm)
  unfolding task_cleanup
  task_cleanup-IsValid vm v = queue-IsValid _ (omega arith) (
      scheduler-IsValid _
        (record {
          current_in = v.sched_in.current_in;
          depths_in = λ i. retired (ltb i max_tasks) (v.sched_in.depths_in i);
        })
        v)
    where
      retired : (b : Bool) {t : Task} → DepthsIn t → DepthsIn (if b then retire t else t)
      retired true h = assumption
      retired false h = h

module _ {W : Type 0} (env : Env W) where
  pub malloc-IsValid : (bytes : ℕ) {vm : Vm W} → IsValid vm → IsValid (malloc env bytes vm).1
  unfolding malloc
  malloc-IsValid bytes v = world-IsValid _ v

  spawn_at-IsValid :
      (i word_idx priority ds_size rs_size : ℕ) (vm : Vm W)
      → IsValid vm
      → IsValid (spawn_at env i word_idx priority ds_size rs_size vm).1
  unfolding spawn_at
  spawn_at-IsValid i word_idx priority ds_size rs_size vm v =
      let v' = malloc-IsValid (rs_size * 4) (malloc-IsValid (ds_size * 4) v) in
      if_pair-IsValid _ _ _ (start_task-IsValid i word_idx priority ds_size rs_size v')
        (drop_blocks-IsValid i v')

  spawn_found-IsValid :
      (o : Option ℕ) (word_idx priority ds_size rs_size : ℕ) (vm : Vm W)
      → IsValid vm
      → IsValid (spawn_found env o word_idx priority ds_size rs_size vm).1
  unfolding spawn_found
  spawn_found-IsValid none word_idx priority ds_size rs_size vm v = v
  spawn_found-IsValid (some i) word_idx priority ds_size rs_size vm v =
      spawn_at-IsValid i word_idx priority _ _ vm v

  pub task_spawn-IsValid :
      (word_idx priority ds_size rs_size : ℕ) (vm : Vm W)
      → IsValid vm
      → IsValid (task_spawn env word_idx priority ds_size rs_size vm).1
  unfolding task_spawn
  task_spawn-IsValid word_idx priority ds_size rs_size vm v =
      if_pair-IsValid _ _ _ v (spawn_found-IsValid _ word_idx priority ds_size rs_size vm v)

  retire_current-IsValid : (vm : Vm W) → IsValid vm → IsValid (retire_current env vm)
  unfolding retire_current
  retire_current-IsValid vm v =
      let v' = set_task-IsValid vm.scheduler.current_task _ (retired (v.sched_in.depths_in _)) v in
      scheduler-IsValid _
        (counters-SchedulerIn (u8 (vm.scheduler.task_count + 255)) vm.scheduler.critical_nesting
          v'.sched_in)
        v'
    where
      retired : {t : Task} → DepthsIn t → DepthsIn (retire t)
      retired h = assumption

  pub task_exit-Keeps : Keeps (task_exit env)
  unfolding task_exit
  task_exit-Keeps vm v = vm_schedule-Keeps env _ (retire_current-IsValid vm v)

  block_current-IsValid :
      (ms_delay : ℕ) (vm : Vm W) → IsValid vm → IsValid (block_current env ms_delay vm)
  unfolding block_current
  block_current-IsValid ms_delay vm v =
      world-IsValid _ (set_task-IsValid _ _ (slept _ (v.sched_in.depths_in _)) v)
    where
      slept :
          (n : ℕ) {t : Task}
          → DepthsIn t
          → DepthsIn (record t { sleep_until_tick = n; state = blocked })
      slept n h = assumption

  pub task_sleep-Keeps : (ms_delay : ℕ) → Keeps (task_sleep env ms_delay)
  unfolding task_sleep
  task_sleep-Keeps ms_delay vm v = vm_schedule-Keeps env _ (block_current-IsValid ms_delay vm v)

  pub task_yield-Keeps : Keeps (task_yield env)
  unfolding task_yield
  task_yield-Keeps = vm_schedule-Keeps env

  pub critical_enter-IsValid : (vm : Vm W) → IsValid vm → IsValid (critical_enter env vm)
  unfolding critical_enter
  critical_enter-IsValid vm v =
      world-IsValid _
        (scheduler-IsValid _ (counters-SchedulerIn vm.scheduler.task_count _ v.sched_in) v)

  pub critical_exit-IsValid : (vm : Vm W) → IsValid vm → IsValid (critical_exit env vm)
  unfolding critical_exit
  critical_exit-IsValid vm v =
      if-IsValid (ltb 0 vm.scheduler.critical_nesting)
        (world-IsValid _
          (scheduler-IsValid _ (counters-SchedulerIn vm.scheduler.task_count _ v.sched_in) v))
        v

  timed_out-IsValid :
      (start timeout : ℕ) (vm : Vm W) → IsValid vm → IsValid (timed_out env start timeout vm).1
  unfolding timed_out
  timed_out-IsValid start timeout vm v = if_pair-IsValid (ltb 0 timeout) _ _ (world-IsValid _ v) v

  receive_wait-Keeps :
      (fuel start msg_type timeout : ℕ) → Keeps (receive_wait env fuel start msg_type timeout)
  unfolding receive_wait
  receive_wait-Keeps zero start msg_type timeout vm v = ran_out
  receive_wait-Keeps (suc fuel) start msg_type timeout vm v =
      go (receive_wait-Keeps fuel start msg_type timeout) (task_receive msg_type vm).0 refl
    where
      received : IsValid (task_receive msg_type vm).1
      received = task_receive-IsValid msg_type vm v

      go :
          Keeps (receive_wait env fuel start msg_type timeout)
          → (m : Option Message) → (task_receive msg_type vm).0 ≡ m
          → Safe (receive_wait env (suc fuel) start msg_type timeout vm)
      go again (some m) e = rw (e, receive_wait) (goes_on received)
      go again none e =
          rw (e, receive_wait)
            (Safe-if _ (goes_on (timed_out-IsValid start timeout _ received)) (
              then_run-Safe (task_sleep-Keeps 10 _ (timed_out-IsValid start timeout _ received))
                (λ _. again)))

  pub task_receive_blocking-Keeps :
      (fuel msg_type timeout : ℕ) → Keeps (task_receive_blocking env fuel msg_type timeout)
  unfolding task_receive_blocking
  task_receive_blocking-Keeps fuel msg_type timeout vm v =
      receive_wait-Keeps fuel _ msg_type timeout _ (world-IsValid _ v)
