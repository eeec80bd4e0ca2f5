-- ===== src/Vm.antt =====
-- include/v4/internal/vm.h, include/v4/internal/task.hpp, include/v4/panic.h and include/v4/vm_api.h:
-- the structures. The type `W` is the state of everything outside the machine: what memory-mapped
-- devices, the panic handler, the SYS handler, the allocator and the platform timer act on.
mod State
mod Run
pub use State.*
unfoldable pub use Run.*
