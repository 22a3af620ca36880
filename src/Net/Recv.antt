-- ===== src/Net/Recv.antt =====
-- xrbase/net/base/NetConn.cpp and `io_recv_msg_x` of xrbase/net/MsgParser.cpp: the network thread cuts
-- the bytes that a connection has received into messages. The buffer of bytes is libevent's, behind
-- xrbase/net/evt2/NetBufferEv.cpp; a section takes its operations with their documented behaviour.
pub mod Limit
pub mod Stream
pub mod Total
mod Tests
use libev_test.Base.{
  ℕ, zero, suc, ◌+◌, ◌/◌, ◌^◌, ◌%◌, ◌≡◌, Bool, true, false, not, ◌&&◌, ◌||◌, List, [], ◌∷◌, Option,
  none, some, ltb, leb, ◌==◌, if◌then◌else◌, length, take, drop,
}
use libev_test.Text.Bytes.{u32}
use libev_test.Net.Message.{
  MsgHead, NetMsg, net, decode_head, msg_head_size, msg_max_len, net_host_size,
}

-- `EParseResult`
pub data ParseResult : Type 0 where
  ok invalid_size buffer_error verify_failed push_failed more_failed cus_kill end : ParseResult

-- The input of a libevent `bufferevent`: `evbuffer_get_length`, `evbuffer_copyout` (what was copied)
-- and `bufferevent_read` (what was read, and the buffer without it).
pub record EvBuffer : Type 1 where
  pub Buf : Type 0
  pub contents : Buf → List ℕ
  pub get_length : Buf → ℕ
  pub copy_out : Buf → ℕ → List ℕ
  pub read : Buf → ℕ → List ℕ × Buf
  pub get_length_lem : (b : Buf) → get_length b ≡ length (contents b)
  pub copy_out_lem : (b : Buf) (n : ℕ) → copy_out b n ≡ take n (contents b)
  pub read_lem : (b : Buf) (n : ℕ) → (read b n).0 ≡ take n (contents b)
  pub contents-read : (b : Buf) (n : ℕ) → contents (read b n).1 ≡ drop n (contents b)

-- What the rest of the program does in one round of the loop: the clock, the answer of `msg_alloc`
-- and that of `MsgQueue::Push`.
pub record Round : Type 0 where
  pub now : ℕ
  pub allocated : Bool
  pub pushed : Bool

-- The counters of a `NetConn`.
pub record Counters : Type 0 where
  pub tm_last : ℕ
  pub sec_recvs : ℕ
  pub sec_recv_limit : ℕ
  pub all_recv : ℕ

-- `NetConn::AddRecvSec`
unfoldable pub add_recv_sec : ℕ → Counters → Bool × Counters
add_recv_sec now c =
    if not (now == c.tm_last) && (leb c.sec_recv_limit c.sec_recvs && not (c.sec_recv_limit == 0))
    then (false, c)
    else if now == c.tm_last
    then (true, record c { all_recv = u32 (c.all_recv + 1); sec_recvs = u32 (c.sec_recvs + 1) })
    else (true, record c { tm_last = now; all_recv = u32 (c.all_recv + 1); sec_recvs = 1 })

module _ (ev : EvBuffer) where
  open ev use {Buf, contents, get_length, copy_out, read}

  -- The state of a `NetConn` that receiving uses; `thread_id` is that of the thread of its pool.
  pub record NetConn : Type 0 where
    pub conn_id : ℕ
    pub thread_id : ℕ
    pub counters : Counters
    pub parse_code : ParseResult
    -- Whether `_pBuff` is set; `input` is its input.
    pub has_buffer : Bool
    pub input : Buf

  -- One round of the loop of `io_recv_msg_x`: it returns, or it has pushed a message.
  pub data Step : Type 0 where
    stop : ParseResult → NetConn → Step
    more : NetMsg → NetConn → Step

  abbrev is_ok : ParseResult → Bool
  is_ok ok = true
  is_ok _ = false

  -- The rest of a round once the whole message is there.
  recv_message : Round → ℕ → NetConn → Step
  recv_message round size conn =
      let (within, counters) = add_recv_sec round.now conn.counters in
      let counted = record conn { counters = counters } in
      let (body, rest) = read conn.input size in
      let taken = record counted { input = rest } in
      if within
      then if round.allocated
        then if length body == size
          then if round.pushed
            then more
                (record {
                  thread_oid = conn.thread_id;
                  conn_oid = conn.conn_id;
                  kind = net;
                  size = u32 (net_host_size + size);
                  body = body;
                })
                taken
            else stop push_failed taken
          else stop buffer_error taken
        else stop push_failed counted
      else stop more_failed counted

  recv_step : Round → NetConn → Step
  recv_step round conn =
      let head = decode_head (copy_out conn.input msg_head_size) in
      if ltb (get_length conn.input) msg_head_size
      then stop ok conn
      else if not (length (copy_out conn.input msg_head_size) == msg_head_size)
      then stop buffer_error conn
      else if not (head.flag / 2 ^ 12 == 8)
      then stop buffer_error conn
      else if ltb msg_max_len head.size || ltb head.size msg_head_size
      then stop invalid_size conn
      else if ltb (get_length conn.input) head.size
      then stop ok conn
      else if is_ok conn.parse_code
      then recv_message round head.size conn
      else stop conn.parse_code conn

  -- What the loop comes to: the answer (none if the rounds ran out), the connection, and the messages
  -- pushed to the queue.
  pub record Received : Type 0 where
    pub result : Option ParseResult
    pub conn : NetConn
    pub pushed : List NetMsg

  -- The loop of `io_recv_msg_x`. The environment gives what happens in each round.
  pub recv_loop : ℕ → (ℕ → Round) → NetConn → Received
  recv_loop zero env conn = record { result = none; conn = conn; pushed = [] }
  recv_loop (suc rounds) env conn = elim (recv_step (env 0) conn) [
    | stop result conn' ↦ record { result = some result; conn = conn'; pushed = [] }
    | more msg conn' ↦
        let rest = recv_loop rounds (λ i. env (suc i)) conn' in
        record rest { pushed = msg ∷ rest.pushed }
  ]

  pub io_recv_msg_x : ℕ → (ℕ → Round) → NetConn → Received
  unfolding recv_loop
  io_recv_msg_x rounds env conn =
      if conn.has_buffer
      then recv_loop rounds env conn
      else record { result = some buffer_error; conn = conn; pushed = [] }
