-- ===== src/Net/Recv/Stream.antt =====
-- xrbase/net/MsgParser.cpp: `io_recv_msg_x` on a stream of well-formed messages.
use libev_test.Base.{
  le→ltb, ℕ, zero, suc, ◌+◌, ◌/◌, ◌^◌, ◌≤◌, ◌<◌, ◌≡◌, refl, sym, ap, ◌∙◌, arith, true, false, List,
  [], ◌∷◌, ◌++◌, map, some, ltb, ◌==◌, length, take, drop, ==_iff, length-take, length-append,
}
use mathlib.Core.Path.{subst}
use mathlib.Core.List.{append_assoc}
use libev_test.Text.Bytes.{u32}
use libev_test.Net.Message.{
  MsgHead, NetMsg, net, decode_head, msg_head_size, msg_max_len, net_host_size,
}
use libev_test.Net.Message.Head.{
  IsMessage, message, decode_head-take, decode_head-message, take-message, drop-message,
  length-message,
}
use libev_test.Net.Recv.{
  EvBuffer, Round, ok, recv_step, recv_message, recv_loop, io_recv_msg_x, Received, NetConn, Step,
  stop, more, add_recv_sec, Counters,
}
use libev_test.Net.Recv.Total.{pending}

-- What a peer sends: heads with their payloads.
abbrev pub Packets : Type 0
Packets = List (MsgHead × List ℕ)

abbrev pub AreMessages : Packets → Type 0
AreMessages [] = Unit
AreMessages ((h, payload) ∷ ps) = IsMessage h payload × (h.flag / 2 ^ 12 ≡ 8) × AreMessages ps

abbrev pub stream : Packets → List ℕ
stream [] = []
stream ((h, payload) ∷ ps) = message h payload ++ stream ps

abbrev pub packets : Packets → List (List ℕ)
packets [] = []
packets ((h, payload) ∷ ps) = message h payload ∷ packets ps

-- The start of a message that has not arrived whole.
pub data IsPartial (bytes : List ℕ) : Type 0 where
  no_head : length bytes < msg_head_size → IsPartial bytes
  no_body :
      msg_head_size ≤ length bytes
      → (decode_head bytes).flag / 2 ^ 12 ≡ 8
      → msg_head_size ≤ (decode_head bytes).size
      → (decode_head bytes).size ≤ msg_max_len
      → length bytes < (decode_head bytes).size
      → IsPartial bytes

-- A round in which there is memory and the queue has room.
pub record IsFine (round : Round) : Type 0 where
  pub can_alloc : round.allocated ≡ true
  pub can_push : round.pushed ≡ true

module _ (ev : EvBuffer) where
  -- No error has been met, and the connection has no limit.
  pub record IsOpen (conn : NetConn ev) : Type 0 where
    pub no_error : conn.parse_code ≡ ok
    pub no_limit : conn.counters.sec_recv_limit ≡ 0

  recv_step-Partial :
      (round : Round) (conn : NetConn ev)
      → IsPartial (pending ev conn)
      → recv_step ev round conn ≡ stop ok conn
  unfolding recv_step
  recv_step-Partial round conn (no_head short) = ground (arith, ev.get_length_lem conn.input)
  recv_step-Partial round conn (no_body head flagged low high short) =
      let same =
        ap decode_head (ev.copy_out_lem conn.input msg_head_size)
        ∙ decode_head-take msg_head_size (pending ev conn) (omega arith) head in
      ground (
        arith,
        same,
        ev.get_length_lem conn.input,
        ap (length {A = ℕ}) (ev.copy_out_lem conn.input msg_head_size),
        length-take msg_head_size (pending ev conn),
      )

  -- What a round makes of the first message.
  record Takes (conn : NetConn ev) (bytes rest : List ℕ) (s : Step ev) : Type 0 where
    msg : NetMsg
    after : NetConn ev
    taken : s ≡ more msg after
    body_eq : msg.body ≡ bytes
    rest_eq : pending ev after ≡ rest
    still_open : IsOpen after

  add_recv_sec-Within :
      (now : ℕ) (c : Counters)
      → c.sec_recv_limit ≡ 0
      → ((add_recv_sec now c).0 ≡ true) × ((add_recv_sec now c).1.sec_recv_limit ≡ 0)
  unfolding add_recv_sec
  add_recv_sec-Within now c h = ground arith

  recv_message-Takes :
      (round : Round) (size : ℕ) (conn : NetConn ev)
      → IsFine round
      → IsOpen conn
      → size ≤ length (pending ev conn)
      → Takes conn
          (take size (pending ev conn))
          (drop size (pending ev conn))
          (recv_message ev round size conn)
  unfolding recv_message
  recv_message-Takes round size conn fine is_open inside =
      let (within, unlimited) = add_recv_sec-Within round.now conn.counters is_open.no_limit in
      let whole : (length (ev.read conn.input size).0 == size) ≡ true = (==_iff _ _).1 (
        omega (
          arith,
          ap (length {A = ℕ}) (ev.read_lem conn.input size),
          length-take size (pending ev conn),
        )) in
      simp (within, fine.can_alloc, fine.can_push, whole)
        record {
          msg = record {
            conn_oid = conn.conn_id;
            thread_oid = conn.thread_id;
            kind = net;
            size = u32 (net_host_size + size);
            body = (ev.read conn.input size).0;
          };
          after = record conn {
            counters = (add_recv_sec round.now conn.counters).1;
            input = (ev.read conn.input size).1;
          };
          taken = refl;
          body_eq = ev.read_lem conn.input size;
          rest_eq = ev.contents-read conn.input size;
          still_open = record { no_error = is_open.no_error; no_limit = unlimited };
        }

  recv_step-Takes :
      (round : Round) (conn : NetConn ev) (h : MsgHead) (payload rest : List ℕ)
      → IsFine round
      → IsOpen conn
      → IsMessage h payload
      → h.flag / 2 ^ 12 ≡ 8
      → pending ev conn ≡ message h payload ++ rest
      → Takes conn (message h payload) rest (recv_step ev round conn)
  unfolding recv_step
  recv_step-Takes round conn h payload rest fine is_open v flagged front =
      let long : length (pending ev conn) ≡ h.size + length rest =
        ap length front
        ∙ length-append (message h payload) rest
        ∙ ap (λ n. n + length rest) (length-message h payload v) in
      let enough : h.size ≤ length (pending ev conn) = omega (arith, long) in
      let sized : msg_head_size ≤ h.size = omega (arith, v.counted) in
      let head : decode_head (ev.copy_out conn.input msg_head_size) ≡ h =
        ap decode_head (ev.copy_out_lem conn.input msg_head_size)
        ∙ decode_head-take msg_head_size (pending ev conn) (omega arith) (omega arith)
        ∙ ap decode_head front
        ∙ decode_head-message h payload v rest in
      let copied : (length (ev.copy_out conn.input msg_head_size) == msg_head_size) ≡ true =
        (==_iff _ _).1 (
          omega (
            arith,
            ap (length {A = ℕ}) (ev.copy_out_lem conn.input msg_head_size),
            length-take msg_head_size (pending ev conn),
          )) in
      let got = ev.get_length_lem conn.input in
      let t1 : ltb (ev.get_length conn.input) msg_head_size ≡ false = le→ltb _ _ (omega arith) in
      let t2 : ltb (ev.get_length conn.input) h.size ≡ false = le→ltb _ _ (omega arith) in
      let t3 : ltb msg_max_len h.size ≡ false = le→ltb _ _ v.short in
      let t4 : ltb h.size msg_head_size ≡ false = le→ltb _ _ sized in
      let t5 : (h.flag / 2 ^ 12 == 8) ≡ true = (==_iff _ _).1 flagged in
      let body : take h.size (pending ev conn) ≡ message h payload =
        ap (take h.size) front ∙ take-message h payload v rest in
      let tail : drop h.size (pending ev conn) ≡ rest =
        ap (drop h.size) front ∙ drop-message h payload v rest in
      let takes = recv_message-Takes round h.size conn fine is_open enough in
      simp (t1, copied, head, t2, t3, t4, t5, is_open.no_error)
        record {
          msg = takes.msg;
          after = takes.after;
          taken = takes.taken;
          body_eq = takes.body_eq ∙ body;
          rest_eq = takes.rest_eq ∙ tail;
          still_open = takes.still_open;
        }

  -- What receiving a stream comes to.
  pub record Delivers (ps : Packets) (tail : List ℕ) (r : Received ev) : Type 0 where
    pub answer : r.result ≡ some ok
    pub bodies : map (λ (m : NetMsg). m.body) r.pushed ≡ packets ps
    pub remains : pending ev r.conn ≡ tail

  -- A stream of messages that ends in the start of one, with more rounds than messages, with memory
  -- and room in the queue, on an open connection without limit: each message is pushed once, in order,
  -- with its bytes; the start stays in the buffer; the answer is OK.
  pub recv_loop-Delivers :
      (rounds : ℕ) (env : ℕ → Round) (conn : NetConn ev) (ps : Packets) (tail : List ℕ)
      → ((i : ℕ) → IsFine (env i))
      → IsOpen conn
      → AreMessages ps
      → IsPartial tail
      → pending ev conn ≡ stream ps ++ tail
      → length ps < rounds
      → Delivers ps tail (recv_loop ev rounds env conn)
  unfolding recv_loop
  recv_loop-Delivers zero env conn ps tail fine is_open v partial front enough =
      absurd (omega arith)
  recv_loop-Delivers (suc rounds) env conn [] tail fine is_open v partial front enough =
      let stopped = recv_step-Partial (env 0) conn (subst IsPartial (sym front) partial) in
      rw (stopped, recv_loop) record { answer = refl; bodies = refl; remains = front }
  recv_loop-Delivers (suc rounds) env conn ((h, payload) ∷ ps) tail fine is_open v partial front
        enough =
      let first : pending ev conn ≡ message h payload ++ (stream ps ++ tail) =
        front ∙ append_assoc (message h payload) (stream ps) tail in
      let takes =
        recv_step-Takes (env 0) conn h payload (stream ps ++ tail) (fine 0) is_open v.0 v.1 first in
      let ih =
        recv_loop-Delivers rounds (λ i. env (suc i)) takes.after ps tail (λ i. fine (suc i))
          takes.still_open v.2 partial takes.rest_eq (omega arith) in
      rw (takes.taken, recv_loop)
        record {
          answer = ih.answer;
          bodies = λ i. takes.body_eq i ∷ ih.bodies i;
          remains = ih.remains;
        }

  -- `io_recv_msg_x` on a stream of messages that ends in the start of one, with more rounds than
  -- messages, with memory and room in the queue, on an open connection with a buffer and without
  -- limit: each message is pushed once, in order, with its bytes; the start stays in the buffer; the
  -- answer is OK.
  pub io_recv_msg_x-Delivers :
      (rounds : ℕ) (env : ℕ → Round) (conn : NetConn ev) (ps : Packets) (tail : List ℕ)
      → conn.has_buffer ≡ true
      → ((i : ℕ) → IsFine (env i))
      → IsOpen conn
      → AreMessages ps
      → IsPartial tail
      → pending ev conn ≡ stream ps ++ tail
      → length ps < rounds
      → Delivers ps tail (io_recv_msg_x ev rounds env conn)
  unfolding io_recv_msg_x
  io_recv_msg_x-Delivers rounds env conn ps tail has fine is_open v partial front enough =
      simp has (recv_loop-Delivers rounds env conn ps tail fine is_open v partial front enough)
