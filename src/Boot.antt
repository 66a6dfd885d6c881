-- ===== src/Boot.antt =====
-- The boot image tool: native/src/boot/bootimg.cpp and native/src/boot/bootimg.hpp.
pub mod Fields
pub mod Header
pub mod Image
pub mod Memory
pub mod Layout
pub mod Repack
pub mod Search
pub mod Unpack
mod Examples
