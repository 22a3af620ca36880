-- ===== src/Net.antt =====
-- xrbase/net: the message queues between threads, the framing of messages and reconnection.
pub mod CirQueue
pub mod ConnPool
pub mod MsgQueue
pub mod Message
pub mod Recv
pub mod Reconn
