-- ===== src/Tests.antt =====
-- Runs at concrete inputs.
mod Transport
mod Chip
mod Biz
mod Httpapi
mod Config
mod Sessions
mod Stack
mod Ends
mod Answers
mod Entry
