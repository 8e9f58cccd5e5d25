-- ===== src/Log.antt =====
-- The text format of pkg/log/text.go.
pub mod Text
pub mod Encoder
mod Tests
