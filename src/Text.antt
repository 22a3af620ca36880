-- ===== src/Text.antt =====
-- xrbase/text: the binary encoding of values and the ring buffer of messages.
pub mod Bytes
pub mod RingBuf
