-- ===== src/Base.antt =====
-- native/src/base: strings, numbers and streams.
pub mod Chunks
pub mod Strings
pub mod Number
pub mod Io
pub mod Patch
mod Examples
