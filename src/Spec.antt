-- ===== src/Spec.antt =====
-- wr-starting-kit/spec-sw/kernel, the drivers of the SPEC card that carries the mezzanine.
pub mod I2c
pub mod Eeprom
pub mod Loader
mod Tests
