-- ===== src/Transport.antt =====
-- internal/transport: the encoder of CH341 streams, the reading of a stream, and the session.
pub mod Encoder
pub mod Decoder
pub mod Bus
pub mod Segments
pub mod Faults
pub mod Transfers
pub mod Execution
pub mod Devices
pub mod Usb
pub mod Opening
pub mod Session
pub mod Inspection
pub mod Interleaving
