-- ===== src/Net/Message/Multicast.antt =====
-- xrbase/net/MsgParser.cpp: the messages for several connections (`make_mutil_net_msg`,
-- `fill_net_msg`) and the network thread that writes them (`io_send_msg_x`).
pub mod Send
pub mod Fill
use libev_test.Base.{
  ℕ, zero, suc, ◌+◌, ◌*◌, ◌-◌, ◌^◌, ◌%◌, Bool, true, false, ◌&&◌, ◌||◌, List, [], ◌∷◌, ◌++◌, Option,
  none, some, ltb, ◌==◌, if◌then◌else◌, length, take, drop, get_or, memcpy,
}
use libev_test.Text.Bytes.{u32, to_bytes, from_bytes}
use libev_test.Net.Message.{
  NetMsg, HostType, net, mul_net, conn, decode_head, net_host_size, coid_size, msg_max_len,
}

-- `conn_oid_t`s in memory.
unfoldable pub encode_coids : List ℕ → List ℕ
encode_coids [] = []
encode_coids (c ∷ cs) = to_bytes coid_size c ++ encode_coids cs

-- A message whose body gets some bytes at its front; none if they do not fit.
abbrev pub copy_in : List ℕ → NetMsg → Option (Option NetMsg)
copy_in src msg = elim (memcpy 0 src msg.body) [
  | none ↦ none
  | some body ↦ some (some (record msg { body = body }))
]

-- The overload of `make_mutil_net_msg` without connections. The message is the memory behind
-- `pMsgHead`, none for nullptr; `memory n` is what `msg_alloc(n)` returns. The answer is none inside
-- for nullptr; the outcome is none if the block is written past its end.
unfoldable pub make_mutil_msg : (ℕ → Option (List ℕ)) → Option (List ℕ) → ℕ → Option (Option NetMsg)
make_mutil_msg memory none coid_count = some none
make_mutil_msg memory (some msg) coid_count =
    let size = (decode_head msg).size in
    let n_size = net_host_size + size in
    if coid_count == 0
    then some none
    else if ltb msg_max_len size
    then some none
    else if coid_count == 1
    then elim (memory n_size) [
      | none ↦ some none
      | some block ↦ copy_in (take size msg) (record {
        thread_oid = 0xffff;
        conn_oid = 1;
        kind = net;
        size = n_size;
        body = drop net_host_size block;
      })
    ]
    else elim (memory (n_size + coid_size * coid_count)) [
      | none ↦ some none
      | some block ↦ copy_in (take size msg) (record {
        thread_oid = 0;
        conn_oid = coid_count;
        kind = mul_net;
        size = n_size + coid_size * coid_count;
        body = drop net_host_size block;
      })
    ]

-- The host head for a list of connections, and the connections behind the message of that size; none
-- if they are written past the end of the block.
abbrev pub address_all : ℕ → List ℕ → ℕ → NetMsg → Option NetMsg
address_all toid coids size msg = elim (memcpy size (encode_coids coids) msg.body) [
  | none ↦ none
  | some body ↦
      some (record msg { kind = mul_net; thread_oid = toid; conn_oid = length coids; body = body })
]

-- The host head for one connection.
abbrev pub address_one : ℕ → ℕ → NetMsg → NetMsg
address_one toid coid msg = record msg { kind = net; thread_oid = toid; conn_oid = coid }

-- `make_mutil_net_msg`. The list holds the `coid_count` connections behind `pCoids`.
unfoldable pub make_mutil_net_msg :
    (ℕ → Option (List ℕ)) → ℕ → List ℕ → Option (List ℕ) → Option (Option NetMsg)
make_mutil_net_msg memory toid coids none = some none
make_mutil_net_msg memory toid coids (some msg) =
    elim (make_mutil_msg memory (some msg) (length coids)) [
      | none ↦ none
      | some none ↦ some none
      | some (some net_msg) ↦
          if length coids == 1
          then some (some (address_one toid (get_or coids 0 0) net_msg))
          else elim (address_all toid coids (decode_head msg).size net_msg) [
            | none ↦ none
            | some addressed ↦ some (some addressed)
          ]
    ]

-- How `fill_net_msg` ends: its answer, and the message that the caller's pointer points to then; none
-- if `msg_relloc` has moved the block, since the pointer is passed by value and is left dangling.
pub record Filled : Type 0 where
  pub result : Bool
  pub msg : Option NetMsg

abbrev pub is_net : HostType → Bool
is_net net = true
is_net mul_net = false
is_net conn = false

abbrev pub is_mul_net : HostType → Bool
is_mul_net mul_net = true
is_mul_net net = false
is_mul_net conn = false

-- The size that `fill_net_msg` asks of `msg_relloc`.
unfoldable pub wanted_size : NetMsg → ℕ → ℕ
wanted_size msg coid_count =
    if is_mul_net msg.kind
    then u32 (msg.size + (coid_count - msg.conn_oid) * coid_size)
    else u32 (msg.size + coid_count * coid_size)

-- The tests of `fill_net_msg` for a message with too little room, and with more than enough.
abbrev pub grows : NetMsg → ℕ → Bool
grows msg coid_count = is_net msg.kind || (is_mul_net msg.kind && ltb msg.conn_oid coid_count)

abbrev pub shrinks : NetMsg → ℕ → Bool
shrinks msg coid_count = is_mul_net msg.kind && ltb coid_count msg.conn_oid

-- `fill_net_msg`. `relloc body n` is what `msg_relloc` answers for `n` bytes, none for nullptr: whether
-- the block is another one, and its body. The outcome is none if a block is written past its end.
unfoldable pub fill_net_msg :
    (List ℕ → ℕ → Option (Bool × List ℕ)) → ℕ → List ℕ → NetMsg → Option Filled
unfolding wanted_size
fill_net_msg relloc toid coids msg =
    let coid_count = length coids in
    if coid_count == 1
    then some (record { result = true; msg = some (address_one toid (get_or coids 0 0) msg) })
    else if grows msg coid_count
    then elim (relloc msg.body (wanted_size msg coid_count)) [
      | none ↦ some (record { result = false; msg = some msg })
      | some (moved, body) ↦
          elim (address_all toid coids (decode_head body).size
            (record msg { size = wanted_size msg coid_count; body = body })) [
              | none ↦ none
              | some addressed ↦
                  some (record { result = true; msg = if moved then none else some addressed })
            ]
    ]
    else if shrinks msg coid_count
    then elim (address_all toid coids (decode_head msg.body).size msg) [
      | none ↦ none
      | some addressed ↦ some (record { result = true; msg = some addressed })
    ]
    else some (record { result = false; msg = some msg })

-- The loop of `io_send_msg_x`: a write of the message to each connection behind it.
send_each : List ℕ → ℕ → ℕ → ℕ → List (ℕ × List ℕ)
send_each body size i zero = []
send_each body size i (suc rest) =
    (from_bytes (take coid_size (drop (size + coid_size * i) body)), take size body)
    ∷ send_each body size (i + 1) rest

-- `io_send_msg_x` on the thread with that id: the calls of `NetConnPool::Write`, each with a
-- connection and the bytes. What the writes answer is only logged.
unfoldable pub io_send_msg_x : ℕ → Bool → NetMsg → List (ℕ × List ℕ)
unfolding send_each
io_send_msg_x thread_id has_pool msg =
    let size = (decode_head msg.body).size in
    if msg.thread_oid == thread_id
    then if has_pool
      then elim (msg.kind) [
        | conn ↦ []
        | net ↦ (msg.conn_oid, take size msg.body) ∷ []
        | mul_net ↦ send_each msg.body size 0 msg.conn_oid
      ]
      else []
    else []
