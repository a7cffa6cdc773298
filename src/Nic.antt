-- ===== src/Nic.antt =====
-- The network card driver, wr-starting-kit/spec-sw/kernel/wr_nic/nic-core.c with timestamp.c, pps.c
-- and nic-mem.h: descriptors, transmission, reception and time stamps.
pub mod State
pub mod Transmit
pub mod Stamps
pub mod Receive
pub mod Interrupt
pub mod Queue
pub mod Completion
pub mod Xmit
pub mod Progress
pub mod Endpoint
pub mod Netdev
pub mod Probe
mod Tests
