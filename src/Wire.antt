-- ===== src/Wire.antt =====
-- Byte buffers as the message classes use them: a buffer is the list of its bytes, a pointer into
-- it is an offset, `put_at` is a copy through that pointer and `read_at` a view of it.
-- `reinterpret_cast<intN_t*>` reads and writes little-endian words, as on x86-64 and AArch64.
pub mod Bytes
pub mod Words
pub mod Names
pub mod Fields
pub mod Buffer
