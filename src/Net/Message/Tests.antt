-- ===== src/Net/Message/Tests.antt =====
-- The theorems on messages at concrete inputs.
use libev_test.Base.{
  ℕ, ◌-◌, ◌≡◌, ◌⊎◌, refl, sym, ap, arith, Bool, true, false, length, length-append,
  length-replicate, List, [], ◌∷◌, ◌++◌, map, Option, some, replicate,
}
use mathlib.Core.Option.{some-injective}
use libev_test.Net.Message.{
  MsgHead, NetMsg, mul_net, head_flag_base, make_net_msg_empty, make_net_msg, decode_head,
  encode_head, net_host_size,
}
use libev_test.Text.Bytes.{to_bytes}
use libev_test.Net.Message.Overwrite.{make_net_msg-Overwrites}
use libev_test.Net.Message.Head.{message, IsMessage}
use libev_test.Net.Message.Multicast.{make_mutil_net_msg, fill_net_msg, io_send_msg_x}
use libev_test.Net.Message.Multicast.Send.{make_mutil_net_msg-Sends}
use libev_test.Net.Message.Multicast.Fill.{
  Extends, IsBuilt, Goes, Dangles, IsRefused, fill_net_msg-Sends, make_net_msg_empty-Refused,
}

-- A message of two bytes.
abbrev ping : MsgHead
ping = record { size = 16; seq_id = 7; flag = head_flag_base; mod_id = 1; proto_id = 2; code = 0 }

abbrev payload : List ℕ
payload = 10 ∷ 20 ∷ []

ping-IsMessage : IsMessage ping payload
ping-IsMessage = omega arith

-- An allocator that always has memory, filled with zeros.
abbrev zeroed : ℕ → Option (List ℕ)
zeroed n = some (replicate n 0)

make_mutil_net_msg-Sends_example :
    (m : NetMsg) × (make_mutil_net_msg zeroed 3
        (5 ∷ 6 ∷ [])
        (some (message ping payload ++ 99 ∷ []))
      ≡ some (some m))
    × (io_send_msg_x 3 true m ≡ map (λ c. (c, message ping payload)) (5 ∷ 6 ∷ []))
make_mutil_net_msg-Sends_example =
    make_mutil_net_msg-Sends ping payload ping-IsMessage 3 zeroed (5 ∷ 6 ∷ []) (99 ∷ [])
      (λ n. (replicate n 0, refl, length-replicate n 0)) (omega arith) (omega arith)

-- An allocator that grows the block in place.
abbrev grown : List ℕ → ℕ → Option (Bool × List ℕ)
grown body n = some (false, body ++ replicate (n - net_host_size - length body) 0)

grown-Extends : Extends grown
grown-Extends n body r e enough =
    let same : r ≡ (false, body ++ replicate (n - net_host_size - length body) 0) =
      sym (some-injective _ _ e) in
    (
      replicate (n - net_host_size - length body) 0,
      ap (λ (t : Bool × List ℕ). t.1) same,
      omega (
        arith,
        ap (λ (t : Bool × List ℕ). length t.1) same,
        length-append body (replicate (n - net_host_size - length body) 0),
        length-replicate {A = ℕ} (n - net_host_size - length body) 0,
      ),
    )

-- A message built for three connections, addressed to two.
abbrev built : NetMsg
built = record {
  thread_oid = 0xffff;
  conn_oid = 3;
  kind = mul_net;
  size = 31;
  body = message ping payload ++ replicate 6 0;
}

built-IsBuilt : IsBuilt ping payload (replicate 6 0) built
unfolding encode_head to_bytes
built-IsBuilt = record { at_body = refl; sized = refl; no_wrap = omega arith; room = omega arith }

fill_net_msg-Sends_example :
    Goes ping payload ping-IsMessage 3 (5 ∷ 6 ∷ []) (fill_net_msg grown 3 (5 ∷ 6 ∷ []) built)
    ⊎ (Dangles 3 grown (5 ∷ 6 ∷ []) built ⊎ IsRefused 3 grown (5 ∷ 6 ∷ []) built)
fill_net_msg-Sends_example =
    fill_net_msg-Sends ping payload ping-IsMessage 3 grown (5 ∷ 6 ∷ []) (replicate 6 0) built
      built-IsBuilt (omega arith) (omega arith) grown-Extends

abbrev made : NetMsg
made = record {
  thread_oid = 0xffff;
  conn_oid = 2;
  kind = mul_net;
  size = 29;
  body = message ping (replicate 6 0);
}

make_net_msg_empty-Refused_example :
    fill_net_msg grown 3 (5 ∷ 6 ∷ []) made ≡ some (record { result = false; msg = some made })
unfolding make_net_msg_empty
make_net_msg_empty-Refused_example =
    make_net_msg_empty-Refused zeroed 2 1 2 7 0 grown 3 (5 ∷ 6 ∷ []) made refl (omega arith)

-- Twenty bytes that are sent by way of `make_net_msg`.
abbrev text : List ℕ
text = 16 ∷ 0 ∷ 0 ∷ 0 ∷ replicate 16 1

make_net_msg-Overwrites_example :
    decode_head (record made { body = text ++ replicate 14 0; size = 43; conn_oid = 0 }).body
    ≡ decode_head text
unfolding make_net_msg make_net_msg_empty encode_head to_bytes
make_net_msg-Overwrites_example =
    make_net_msg-Overwrites zeroed text 20 1 2 7 0 0
      (record made { body = text ++ replicate 14 0; size = 43; conn_oid = 0 }) refl (omega arith)
      (omega arith)
