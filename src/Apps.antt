-- ===== src/Apps.antt =====
-- Programs of the desktop, kernel/apps/ and kernel/python/.
pub mod Terminal
pub mod PyRuntime
mod Tests
