-- ===== src/Chip.antt =====
-- internal/chip/driver.go: the driver of the MFi coprocessor.
pub mod Bus
pub mod Registers
pub mod Driver
pub mod Termination
pub mod Totality
pub mod Certificate
pub mod Results
pub mod Signing
