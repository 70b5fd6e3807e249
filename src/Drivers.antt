-- ===== src/Drivers.antt =====
-- Device drivers, kernel/drivers/. The mouse and the keyboard have a module of their own, Input.
pub mod Vbe
mod Tests
