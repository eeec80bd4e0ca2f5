-- ===== src/Tests/Tasks.antt =====
-- The theorems on tasks at a table of ready tasks.
use v4_engine.Base.{ℕ, ◌+◌, ◌≡◌, ◌≤◌, true, refl, arith}
use v4_engine.Scheduler.{select_task, wake}
use v4_engine.Scheduler.Select.{
  runnable, priority_of, select_task-highest, select_task-zero_priority,
}
use v4_engine.Scheduler.Select.RoundRobin.{ComesFirst, select_task-ComesFirst}
use v4_engine.Base.{◌==◌, if◌then◌else◌}
use v4_engine.Task.{zero_task, task_spawn}
use v4_engine.Task.Spawn.{task_spawn-live}
use v4_engine.Tests.{clock_env, vm}
use v4_engine.Vm.{Vm, Task, TaskState}

-- Ready tasks, the task in slot i of priority i + least.
abbrev ready_from : ℕ → ℕ → Task
ready_from least i = record zero_task { state = TaskState.ready; priority = i + least }

select_task-highest_example :
    (runnable 0 (ready_from 1) (select_task 0 2 (ready_from 1)) ≡ true)
    × (priority_of 0 (ready_from 1) 5
        ≤ priority_of 0 (ready_from 1) (select_task 0 2 (ready_from 1)))
unfolding wake
select_task-highest_example =
    select_task-highest 0 (ready_from 1) 2 5 (omega arith) refl (omega arith)

-- Ready tasks of one priority.
abbrev ready_alike : ℕ → Task
ready_alike i = record zero_task { state = TaskState.ready; priority = 3 }

select_task-ComesFirst_example : ComesFirst 2 (select_task 0 2 ready_alike) 5
unfolding wake
select_task-ComesFirst_example =
    select_task-ComesFirst 0 ready_alike 2 5 (omega arith) refl (omega arith) refl

abbrev all_lowest : ℕ → Task
all_lowest i = record zero_task { state = TaskState.ready; priority = 0 }

select_task-zero_priority_example : select_task 0 2 all_lowest ≡ 2
unfolding wake
select_task-zero_priority_example = select_task-zero_priority 0 all_lowest 2 (λ j h run. refl)

-- Task 0 is ready, the other slots are free, and there is one word.
abbrev one_ready : Vm ℕ
one_ready = record vm {
  word_count = 1;
  scheduler = record (vm.scheduler) {
    tasks = λ i. if i == 0 then ready_from 1 0 else zero_task;
    task_count = 1;
  };
}

task_spawn-live_example :
    (task_spawn clock_env 0 5 0 0 one_ready).1.scheduler.tasks 0 ≡ ready_from 1 0
task_spawn-live_example = task_spawn-live clock_env 0 5 one_ready 0 0 0 refl
