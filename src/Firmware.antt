-- ===== src/Firmware.antt =====
-- backend/api/modules/FirmwareUpdateRuntime.cpp: the upload of an image, its installation, and the
-- reboot behind it.
pub mod State
pub mod Upload
pub mod Install
pub mod Lines
pub mod Runs
pub mod Complete
pub mod Life
pub mod Verdict
