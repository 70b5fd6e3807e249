-- ===== src/Arch.antt =====
-- The processor's tables and interrupt controller, kernel/arch/x86_64/.
pub mod Descriptors
pub mod Apic
mod Tests
