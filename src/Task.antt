-- ===== src/Task.antt =====
-- bootloader/kernel/src/task: the executor of the kernel's tasks.
pub mod ArrayQueue
pub mod Map
pub mod Executor
mod Tests
