-- ===== src/Lib.antt =====
-- Verification library for the V4 engine, a bytecode virtual machine in C++ (src/ and include/v4/).
--
-- The program is one machine, `struct Vm` (include/v4/internal/vm.h), and the functions that act on it.
-- src/core.cpp holds the dictionary, the two stacks and the interpreter loop `vm_exec_raw`, whose
-- opcodes call src/memory.cpp for RAM and memory-mapped windows, src/task.cpp and src/message.cpp for
-- tasks, and src/panic.cpp on an error. Tasks and messages are kept by src/task_backend_custom.cpp, and
-- switched by src/scheduler.cpp. src/arena.cpp is the bump allocator that dictionary names may come from.
-- A build may take src/task_backend_freertos.cpp for the tasks instead, or src/task_disabled.cpp for none.
-- src/hal_wrapper.cpp stands apart: it maps the v4_hal_* functions to a hardware library. The program of
-- bare-metal/riscv32 makes a machine and runs two words on it; tools/size/probe.cpp runs its argument.
--
-- Files and the code that they model:
--   Base, Base/Tests, Base/Word, Base/Array: shared tests, machine words and arrays
--   Err: include/v4/errors.def, errors.hpp
--   Opcode, Opcode/Table, Opcode/Kinds: include/v4/opcodes.def, the operand kinds and the `static_cast<Op>` of the interpreter's switch
--   Arena, Arena/Mask, Arena/Blocks: src/arena.cpp, include/v4/arena.h, and the blocks it hands out
--   Vm, Vm/State: the structs of include/v4/internal/vm.h, internal/task.hpp, panic.h and vm_api.h
--   Vm/Run: how a function of the engine returns early with a code
--   Panic, Panic/Print, Panic/Report: src/panic.cpp, what it prints, what it tells of the stacks
--   Stack, Stack/Snapshot: the stack functions of src/core.cpp, with snapshot and restore
--   Stack/Abstract, Stack/Steps, Stack/Ops, Stack/Exact: the data stack as a list, and the opcodes on it
--   Memory, Memory/Bytes, Memory/RoundTrip: src/memory.cpp and include/v4/internal/memory.hpp
--   Message: the message queue of src/task_backend_custom.cpp
--   Message/Window, Message/Fifo, Message/Stale: the queue as the list of its waiting messages
--   Scheduler, Scheduler/Select, Scheduler/Select/RoundRobin, Scheduler/Context: src/scheduler.cpp
--   Scheduler/Switch and below: which task has which stacks, over a whole task switch
--   Task, Task/Spawn, Task/Calls: the other functions of src/task_backend_custom.cpp, and those of src/task.cpp and
--     src/message.cpp that call them
--   Task/Sleep: the stacks of a task that goes to sleep
--   Task/Clock, Task/Timeout: the waiting loop of a blocking receive against the clock
--   Rtos, Rtos/Tasks, Rtos/Messages: src/task_backend_freertos.cpp
--   Rtos/Slots, Rtos/Queue: its slots and messages
--   Hal, Hal/Calls: src/hal_wrapper.cpp, with include/v4/hal_types.h and hal_errors.def
--   Hal/Handles, Hal/Ports, Hal/Errors: its table of UART handles
--   Dictionary, Dictionary/Lookup: the word functions of src/core.cpp
--   Alu, Alu/Exact, Alu/Division: the arithmetic of the opcodes of src/core.cpp, against what they mean on 32-bit
--     words, and DIV and MOD against the division of C
--   Interp, Interp/Local, Interp/Call, Interp/Loop, Interp/Fuel, Interp/Frames, Interp/Halts,
--     Interp/Straight, Interp/Operands: vm_exec_raw and vm_exec of src/core.cpp
--   Lifecycle: vm_create, vm_destroy and vm_register_mmio of src/memory.cpp
--   Disabled, Disabled/Agree: src/task_disabled.cpp, beside the interpreter of the same build
--   Bare, Bare/Main: bare-metal/riscv32/main.c, main_simple.c and uart.h
--   Bare/Digits, Bare/Print, Bare/Runs: print_int read back, and the run of main
--   Probe, Probe/Outcomes: tools/size/probe.cpp
--   Program: structured programs (sequences, branches, loops, calls of words), their bytes, and their runs as
--     a relation; a program is not code of the engine but what its users compile to
--   Program/Layout, Program/Steps, Program/Effects, Program/Leads, Program/Parts, Program/Simulation: the
--     loop of src/core.cpp on those bytes
--   Program/Straight, Program/Lists: programs without loops as functions
--   Api: the public functions of include/v4/vm_api.h and task.h as the calls that a program makes in turn
--   Safety and below: the invariant of the machine, and of such a sequence of calls in Safety/Api
--   Tests and below: the theorems at concrete inputs
--
-- Conventions. A C integer is its bit pattern; signed tests read the top bit. An array is a function of
-- the index, written by `update`. The stack pointers are numbers of cells. A function that returns a
-- code early is an `Outcome`: `ok` goes on, `stop e vm` is `return e`, `fault` is a step that C++ leaves
-- undefined (INT_MIN / -1, a memcpy past the end of a task's block), `starved` is a loop whose fuel has
-- run out. An opcode is executed with one unit of fuel for each instruction of the loop; CALL runs its
-- callee with the fuel that is left, and a blocking receive polls once for each unit. Signed sums,
-- differences and products wrap, which C++17 leaves undefined and the compilers in use define so.
--
-- What the engine takes from outside is a field of `Env`: the tick counter and the interrupt switch
-- of the platform, malloc, the SYS handler, the bits of local variables that a failed receive leaves
-- unset, and the build option V4_ENABLE_TASKS. `W` is the type of everything outside the machine,
-- which devices and handlers act on.
--
-- FreeRTOS and the hardware library behind include/v4/hal.h are not in the repository: they are the
-- parameters `Kernel` and `Hal`, with what is relied on of them as the laws `IsFifo` and `UartLaws`.
-- The platform's clock keeps the law `Ticks`. The C library's `free` is an argument of vm_destroy and
-- of what calls it; where the engine frees a task's blocks, a word's name or the cells of a snapshot,
-- the model drops them and the outside does not see it. What the bare-metal port sends is the list of
-- its bytes, `none` standing for a store past the end of the buffer of print_int, whose 12 bytes bound
-- its loop.
--
-- Not modelled: the scripts of the size tools, the start-up code of the bare-metal port, the text of
-- v4_hal_system_info, the error texts of errors.hpp, and the steps that other tasks take while a
-- function of the FreeRTOS back end waits. The public headers that only declare functions have nothing
-- to model.
pub mod Base
pub mod Err
pub mod Opcode
pub mod Arena
pub mod Vm
pub mod Panic
pub mod Stack
pub mod Memory
pub mod Message
pub mod Scheduler
pub mod Task
pub mod Rtos
pub mod Hal
pub mod Bare
pub mod Disabled
pub mod Dictionary
pub mod Alu
pub mod Interp
pub mod Lifecycle
pub mod Api
pub mod Program
pub mod Probe
pub mod Safety
mod Tests
