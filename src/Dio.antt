-- ===== src/Dio.antt =====
-- The digital I/O driver, wr-starting-kit/spec-sw/kernel/wr-nic-dio.c.
pub mod Device
pub mod Ring
pub mod Pulse
pub mod Stamp
pub mod Inout
pub mod Irq
pub mod Ioctl
pub mod Invariant
mod Tests
