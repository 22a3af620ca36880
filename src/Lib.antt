-- ===== src/Lib.antt =====
-- Verification of libev_test, a C++ server framework on libevent: its base library (xrbase), and on
-- it the gate, http and log servers and a client.
--
-- How the parts fit together. Network threads and logic threads hand each other messages through
-- `MsgQueue`s, each over one of three circular queues; a network thread cuts what a connection receives
-- into such messages, and writes those of the logic threads to their connections. A `ReconnEvent` keeps
-- an outgoing connection up. What is put in a message may be written by `ByteWrite` and read by
-- `ByteRead`. Ids of connections come from a `fix_id_alloc`; `ring_buf` carries messages between
-- processes; the word filter masks words in texts; the timer wheel calls
-- the program back at given ticks.
--
-- Where each part is modelled. A function here has the name of the C++ function in lower case with
-- underscores, a record that of the class, and the state that a method changes is an argument and a
-- result.
--
-- Base: numbers, tests, lists (C arrays are lists with native indices) and `memcpy`.
-- Net/CirQueue: xrbase/net/base/CirQueue.h, CirQueueGen.cpp, CirQueueCas.cpp and CirQueueMul.cpp.
--   A pointer is an address or null. The bodies of Gen and Mul run under a mutex and are one step;
--   those of Cas take no lock, so they are modelled as whole calls and, in Cas/Race, access by access
--   to the shared count. The counters are bounded by the capacity, an `int32_t`, and so do not wrap; an
--   `Init` with 2^31 slots or more is not modelled.
-- Net/MsgQueue: xrbase/net/base/MsgQueue.cpp. The class behind the `CirQueue*` is a constructor of
--   `AnyQueue`. What happens outside the queue (callback, release of a message, byte to the socket pair)
--   is a list of events. `Push` waits while the queue is full: its argument lists what other threads do
--   to the queue in each sleep. `Pop` takes a number of rounds; more rounds than messages are enough.
--   What the callback itself does is not modelled, nor pushes in the middle of a `Pop`.
-- Net/Message: xrbase/net/MsgHead.h and MsgParser.cpp. A message is a list of bytes, a packed head of 14
--   and a payload; `msg_alloc` and `msg_relloc` are functions from a size to a block or none, the latter
--   also with whether the block has moved. A `memcpy` past the end of a block is the outcome none of the
--   functions for several connections. The list of connections has at most 65535 entries, since its
--   length is a `uint16_t`.
-- Net/Recv: `io_recv_msg_x` of the same file and `NetConn::AddRecvSec`. libevent's buffer is the record
--   `EvBuffer` of operations and their documented behaviour. Each round has its clock, and its answers of
--   the allocator and of `MsgQueue::Push`, from an environment. The loop takes a number of rounds; a
--   round that goes on takes fourteen bytes at least, so more rounds than bytes are enough.
-- Net/ConnPool: xrbase/net/base/NetConnPool.cpp over Container/FixIdAlloc, xrbase/stl/map_list.h, and the
--   fields of a NetConn that they set. The set of ids in use is a list in the order of its iterators. The
--   clock is an argument. `remove_killed` erases the entry that its loop stands on, which is undefined
--   behaviour: the outcome none of it and of `NewConn`. The pool is one between `Init` and `Release`; the
--   latter is not modelled. Ids lie below 65535; times are not negative.
-- Net/Reconn: xrbase/net/base/ReConnEvent.cpp and `GenCount` of xrbase/time/TimeCount.cpp. What libevent
--   answers is an input; what the event does outside itself is a list of actions. The `int64_t` counters
--   are natural numbers, which leaves out intervals below zero and values near 2^63.
-- Container/FixIdAlloc: xrbase/container/fix_id_alloc.h, from which connection pools take their ids. The
--   template's type is taken wide enough for every number that occurs.
-- Container/FixQueue: xrbase/container/fix_queue.h. The capacity is the length of the array, one or more,
--   and small enough that `size_t` sums do not wrap. Iterators and destructors are not modelled.
-- Text/Bytes: xrbase/text/ByteWrite.h and ByteRead.h. Bytes are numbers below 256, the checks wrap at
--   2^32 where the code computes in `uint32_t`. The capacity that `std::string` picks is a parameter. A
--   read outside the memory is the outcome `fault`, the exception is `throws`. The loop of `_ReadLen` has
--   as many rounds as the buffer has bytes, and one more, which is enough. Floating point values are not
--   modelled.
-- Text/RingBuf: xrbase/text/ring_buf.h. The content is a list of as many bytes as the ring has; a ring has
--   at most 2^30 of them, so that the `int32_t` sums do not wrap. A `memcpy` past the end of the content
--   is the outcome none of `write`. `for_each` is not modelled.
-- Shm/MidList: xrbase/shm/shm_mid_list.cpp, over a function from ids to objects, where `mid2ptr` finds
--   them. Time/Wheel stands on its sequences.
-- Time/Wheel: xrbase/time/timer_wheel.cpp and timer_wheel.h. The 512 list heads of the five wheels are
--   numbered in memory order, and a list, kept by xrbase/shm/shm_mid_list.cpp, is the sequence of its ids.
--   Fields are bit patterns of their width. The pool of nodes is the interface `NodePool`; a callback is a
--   script of calls of `add` and `del`, which goes on after an exception. The number of ticks to run is
--   an argument. The loop of a tick takes a number of rounds; with no timer added for the running tick, one
--   more than its list is long is enough. The calls made are kept in a trace.
-- Word/Tree and Word/Filter: xrbase/trieword. A text is a list of characters, numbers. The map of a node's
--   children is a list; lower case and the conversions from and to UTF-8 are arguments. The loop of
--   `Censor` takes a number of rounds, one more than the text has characters. Loading words from a file is
--   not modelled.
pub mod Base
pub mod Container
pub mod Net
pub mod Shm
pub mod Text
pub mod Time
pub mod Word
