-- ===== src/Exec.antt =====
-- The processes that the kernel starts, kernel/exec/.
pub mod Smss
pub mod Kpcr
mod Tests
