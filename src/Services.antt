-- ===== src/Services.antt =====
-- The services under services/.
pub mod NetMgr
pub mod AudioSrv
pub mod SysMain
pub mod Mmcss
pub mod DrvMgr
pub mod PanelMgr
pub mod DwmProxy
mod Tests
mod PanelTests
