-- ===== src/Desktop.antt =====
-- The desktop of kernel/gui, without its drawing.
pub mod Anim
pub mod Windows
mod Tests
