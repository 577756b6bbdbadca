-- ===== src/Config.antt =====
-- internal/config/config.go: the command line. A text is the list of its bytes.
pub mod Numbers
pub mod Texts
pub mod UsbIds
pub mod Flags
