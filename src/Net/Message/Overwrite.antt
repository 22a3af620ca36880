-- ===== src/Net/Message/Overwrite.antt =====
-- xrbase/net/MsgParser.cpp: where `make_net_msg` copies the payload.
use libev_test.Base.{
  ℕ, ◌≤◌, ◌≡◌, ◌∙◌, arith, List, Option, some, length, take, drop, inl, inr, Option-cases,
  length-take,
}
use libev_test.Net.Message.{NetMsg, decode_head, msg_head_size, make_net_msg, make_net_msg_empty}
use libev_test.Net.Message.Head.{decode_head-append, decode_head-take}

-- The head of a message that `make_net_msg` makes from a payload of fourteen bytes or more is not the
-- head asked for: its bytes are the first fourteen of the payload.
pub make_net_msg-Overwrites :
    (memory : ℕ → Option (List ℕ)) (bytes : List ℕ)
    (size mod_id proto_id seq_id code coid_count : ℕ) (m : NetMsg)
    → make_net_msg memory (some bytes) size mod_id proto_id seq_id code coid_count ≡ some m
    → msg_head_size ≤ size
    → size ≤ length bytes
    → decode_head m.body ≡ decode_head bytes
unfolding make_net_msg
make_net_msg-Overwrites memory bytes size mod_id proto_id seq_id code coid_count m made long
      inside =
    let front = λ (rest : List ℕ).
      decode_head-append (take size bytes) rest (omega (arith, length-take size bytes))
      ∙ decode_head-take size bytes long inside in
    elim (Option-cases (make_net_msg_empty memory size mod_id proto_id seq_id code coid_count)) [
      | inl e ↦ absurd (ground arith)
      | inr (n, e) ↦ ground (arith, front (drop size n.body))
    ]
