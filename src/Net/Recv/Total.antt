-- ===== src/Net/Recv/Total.antt =====
-- xrbase/net/MsgParser.cpp: `io_recv_msg_x` ends, loses nothing and pushes only framed messages.
use libev_test.Base.{
  ℕ, zero, suc, ◌+◌, ◌/◌, ◌^◌, ◌≤◌, ◌<◌, ◌≡◌, ◌≢◌, refl, sym, ap, ◌∙◌, arith, true, List, [], ◌∷◌,
  ◌++◌, none, some, length, take, drop, inl, inr, ◌⊎◌, length-take, length-append, take-append-drop,
}
use mathlib.Core.Path.{subst}
use mathlib.Core.List.{append_assoc}
use libev_test.Text.Bytes.{u32}
use libev_test.Net.Message.{
  MsgHead, NetMsg, net, decode_head, msg_head_size, msg_max_len, net_host_size,
}
use libev_test.Net.Message.Head.{decode_head-take}
use libev_test.Net.Recv
use libev_test.Net.Recv.{
  EvBuffer, Round, ParseResult, push_failed, recv_step, recv_message, recv_loop, io_recv_msg_x,
  NetConn, Step, stop, more, add_recv_sec,
}

-- A message as the protocol frames it, from that connection of that thread.
pub record IsFramed (coid toid : ℕ) (msg : NetMsg) : Type 0 where
  pub from_conn : msg.conn_oid ≡ coid
  pub from_thread : msg.thread_oid ≡ toid
  pub for_net : msg.kind ≡ net
  pub flagged : (decode_head msg.body).flag / 2 ^ 12 ≡ 8
  pub counted : (decode_head msg.body).size ≡ length msg.body
  pub at_least : msg_head_size ≤ length msg.body
  pub at_most : length msg.body ≤ msg_max_len
  pub whole : msg.size ≡ net_host_size + length msg.body

abbrev pub AllFramed : ℕ → ℕ → List NetMsg → Type 0
AllFramed coid toid [] = Unit
AllFramed coid toid (m ∷ ms) = IsFramed coid toid m × AllFramed coid toid ms

-- The bytes of some messages, one after the other.
abbrev pub bytes_of : List NetMsg → List ℕ
bytes_of [] = []
bytes_of (m ∷ ms) = m.body ++ bytes_of ms

module _ (ev : EvBuffer) where
  abbrev pub pending : NetConn ev → List ℕ
  pending conn = ev.contents conn.input

  -- What a round that pushes does to the connection.
  record Pushes (conn : NetConn ev) (msg : NetMsg) (after : NetConn ev) : Type 0 where
    framed : IsFramed conn.conn_id conn.thread_id msg
    split : pending conn ≡ msg.body ++ pending after
    same_conn : after.conn_id ≡ conn.conn_id
    same_thread : after.thread_id ≡ conn.thread_id

  -- What `recv_message` takes from the buffer when it pushes.
  record Takes (size : ℕ) (conn : NetConn ev) (msg : NetMsg) (after : NetConn ev) : Type 0 where
    from_conn : msg.conn_oid ≡ conn.conn_id
    from_thread : msg.thread_oid ≡ conn.thread_id
    for_net : msg.kind ≡ net
    sized : msg.size ≡ u32 (net_host_size + size)
    read_all : length msg.body ≡ size
    body_eq : msg.body ≡ (ev.read conn.input size).0
    rest_eq : after.input ≡ (ev.read conn.input size).1
    same_conn : after.conn_id ≡ conn.conn_id
    same_thread : after.thread_id ≡ conn.thread_id

  recv_message-Takes :
      (round : Round) (size : ℕ) (conn : NetConn ev) (msg : NetMsg) (after : NetConn ev)
      → recv_message ev round size conn ≡ more msg after
      → Takes size conn msg after
  unfolding recv_message
  recv_message-Takes round size conn msg after h = ground arith

  -- The guards of a round that pushes, and what is left to it.
  record Passes (round : Round) (conn : NetConn ev) (h : MsgHead) (msg : NetMsg)
      (after : NetConn ev) : Type 0 where
    flagged : h.flag / 2 ^ 12 ≡ 8
    at_least : msg_head_size ≤ h.size
    at_most : h.size ≤ msg_max_len
    there : h.size ≤ ev.get_length conn.input
    goes_on : recv_message ev round h.size conn ≡ more msg after

  recv_step-Passes :
      (round : Round) (conn : NetConn ev) (msg : NetMsg) (after : NetConn ev)
      → recv_step ev round conn ≡ more msg after
      → Passes round conn (decode_head (ev.copy_out conn.input msg_head_size)) msg after
  unfolding recv_step
  recv_step-Passes round conn msg after h = ground arith

  -- A round that pushes takes a framed message off the front of what is pending.
  recv_step-Pushes :
      (round : Round) (conn : NetConn ev) (msg : NetMsg) (after : NetConn ev)
      → recv_step ev round conn ≡ more msg after
      → Pushes conn msg after
  recv_step-Pushes round conn msg after h =
      let bytes = pending conn in
      let passes = recv_step-Passes round conn msg after h in
      let head = decode_head (ev.copy_out conn.input msg_head_size) in
      let takes = recv_message-Takes round head.size conn msg after passes.goes_on in
      let body : msg.body ≡ take head.size bytes =
        takes.body_eq ∙ ev.read_lem conn.input head.size in
      let rest : pending after ≡ drop head.size bytes =
        ap ev.contents takes.rest_eq ∙ ev.contents-read conn.input head.size in
      let inside : head.size ≤ length bytes =
        omega (arith, ev.get_length_lem conn.input, passes.there) in
      let same : decode_head msg.body ≡ head =
        ap decode_head body
        ∙ decode_head-take head.size bytes passes.at_least inside
        ∙ sym (
            ap decode_head (ev.copy_out_lem conn.input msg_head_size)
            ∙ decode_head-take msg_head_size bytes (omega arith)
                (omega (arith, passes.at_least))) in
      record {
        framed = record {
          from_conn = takes.from_conn;
          from_thread = takes.from_thread;
          for_net = takes.for_net;
          flagged = ap (λ (d : MsgHead). d.flag / 2 ^ 12) same ∙ passes.flagged;
          counted = ap (λ (d : MsgHead). d.size) same ∙ sym takes.read_all;
          at_least = omega (arith, takes.read_all, passes.at_least);
          at_most = omega (arith, takes.read_all, passes.at_most);
          whole = omega (arith, takes.sized, takes.read_all, passes.at_most);
        };
        split = sym (
            ap (λ b. b ++ pending after) body
            ∙ ap (λ b. take head.size bytes ++ b) rest
            ∙ take-append-drop head.size bytes);
        same_conn = takes.same_conn;
        same_thread = takes.same_thread;
      }

  recv_message-Stops :
      (round : Round) (size : ℕ) (conn : NetConn ev) (r : ParseResult) (after : NetConn ev)
      → recv_message ev round size conn ≡ stop r after
      → (after.input ≡ conn.input)
        ⊎ ((r ≡ push_failed) ⊎ (length (ev.read conn.input size).0 ≢ size))
  unfolding recv_message
  recv_message-Stops round size conn r after h = ground arith

  recv_step-Stops :
      (round : Round) (conn : NetConn ev) (r : ParseResult) (after : NetConn ev)
      → recv_step ev round conn ≡ stop r after
      → (after.input ≡ conn.input) ⊎ (r ≡ push_failed)
  unfolding recv_step
  recv_step-Stops round conn r after h =
      let size = (decode_head (ev.copy_out conn.input msg_head_size)).size in
      ground (
        arith,
        recv_message-Stops round size conn r after,
        ev.get_length_lem conn.input,
        ap (length {A = ℕ}) (ev.read_lem conn.input size),
        length-take size (pending conn),
      )

  Step-cases :
      (s : Step ev)
      → ((r : ParseResult) × (c : NetConn ev) × (s ≡ stop r c))
        ⊎ ((m : NetMsg) × (c : NetConn ev) × (s ≡ more m c))
  Step-cases (stop r c) = inl (r, c, refl)
  Step-cases (more m c) = inr (m, c, refl)

  -- What receiving comes to: an answer; framed messages from that connection; and unless a message
  -- could not be handed on, no byte is lost, added or moved.
  pub record Receives (conn : NetConn ev) (r : Recv.Received ev) : Type 0 where
    pub answers : r.result ≢ none
    pub all_framed : AllFramed conn.conn_id conn.thread_id r.pushed
    pub kept : (r.result ≡ some push_failed) ⊎ (pending conn ≡ bytes_of r.pushed ++ pending r.conn)

  pub recv_loop-Receives :
      (rounds : ℕ) (env : ℕ → Round) (conn : NetConn ev)
      → length (pending conn) < rounds
      → Receives conn (recv_loop ev rounds env conn)
  unfolding recv_loop
  recv_loop-Receives zero env conn h = absurd (omega arith)
  recv_loop-Receives (suc rounds) env conn h = elim (Step-cases (recv_step ev (env 0) conn)) [
    | inl (r, c, e) ↦
        rw (e, recv_loop)
          record {
            answers = λ (f : some r ≡ none). cc;
            all_framed = tt;
            kept = elim (recv_step-Stops (env 0) conn r c e) [
              | inl same ↦ inr (ap ev.contents (sym same))
              | inr failed ↦ inl (ap some failed)
            ];
          }
    | inr (m, c, e) ↦
        let pushes = recv_step-Pushes (env 0) conn m c e in
        let ih =
          recv_loop-Receives rounds (λ i. env (suc i)) c
            (omega (
              arith,
              h,
              ap (length {A = ℕ}) pushes.split,
              length-append m.body (pending c),
              pushes.framed.at_least,
            )) in
        rw (e, recv_loop)
          record {
            answers = ih.answers;
            all_framed = (
              pushes.framed,
              subst
                  (λ t. AllFramed conn.conn_id t (recv_loop ev rounds (λ i. env (suc i)) c).pushed)
                  pushes.same_thread
                  (subst
                    (λ k. AllFramed k c.thread_id (recv_loop ev rounds (λ i. env (suc i)) c).pushed)
                    pushes.same_conn ih.all_framed),
            );
            kept = elim ih.kept [
              | inl failed ↦ inl failed
              | inr same ↦
                  inr (pushes.split ∙ ap (λ b. m.body ++ b) same ∙ sym (append_assoc m.body _ _))
            ];
          }
  ]

  -- `io_recv_msg_x` with a buffer and more rounds than pending bytes: it answers; what it pushes are
  -- whole framed messages that name the connection and its thread; and unless a message could not be
  -- handed on, the pending bytes are those of the messages and the bytes still pending.
  pub io_recv_msg_x-Receives :
      (rounds : ℕ) (env : ℕ → Round) (conn : NetConn ev)
      → conn.has_buffer ≡ true
      → length (pending conn) < rounds
      → Receives conn (io_recv_msg_x ev rounds env conn)
  unfolding io_recv_msg_x
  io_recv_msg_x-Receives rounds env conn has enough =
      simp has (recv_loop-Receives rounds env conn enough)
