-- ===== src/Encoding.antt =====
-- The encodings of Kernel/inc/stdcxx/encoding.h: how many units a character takes.
pub mod Utf8
pub mod Utf16
mod Tests
