-- ===== src/Drivers.antt =====
-- The drivers of bootloader/kernel/src/drivers.
pub mod VirtioInput
pub mod VirtioGpu
mod Tests
