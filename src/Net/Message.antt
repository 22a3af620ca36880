-- ===== src/Net/Message.antt =====
-- xrbase/net/MsgHead.h and the builders of xrbase/net/MsgParser.cpp: the packed head of a message, and
-- the host message that carries it between threads. Memory is a list of bytes, integers in it are
-- little-endian.
pub mod Head
pub mod Multicast
pub mod Overwrite
mod Tests
use libev_test.Base.{
  ℕ, ◌+◌, ◌*◌, ◌-◌, ◌^◌, ◌%◌, Bool, true, false, ◌&&◌, ◌||◌, List, [], ◌∷◌, ◌++◌, Option, none,
  some, ltb, leb, ◌==◌, if◌then◌else◌, length, take, drop,
}
use libev_test.Text.Bytes.{u32, to_bytes, from_bytes}

-- The fields of `MsgHead` but the body: 4 + 4 + 2 + 1 + 1 + 2 bytes, packed.
pub record MsgHead : Type 0 where
  pub size : ℕ
  pub seq_id : ℕ
  pub flag : ℕ
  pub mod_id : ℕ
  pub proto_id : ℕ
  pub code : ℕ

abbrev pub msg_head_size : ℕ
msg_head_size = 14

abbrev pub msg_max_len : ℕ
msg_max_len = 64000

abbrev pub head_flag_base : ℕ
head_flag_base = 0x8000

-- The bytes of a head in memory.
unfoldable pub encode_head : MsgHead → List ℕ
encode_head h =
    to_bytes 4 h.size
    ++ (to_bytes 4 h.seq_id
        ++ (to_bytes 2 h.flag
            ++ (to_bytes 1 h.mod_id ++ (to_bytes 1 h.proto_id ++ to_bytes 2 h.code))))

unfoldable pub decode_head : List ℕ → MsgHead
decode_head bs = record {
  size = from_bytes (take 4 bs);
  seq_id = from_bytes (take 4 (drop 4 bs));
  flag = from_bytes (take 2 (drop 8 bs));
  mod_id = from_bytes (take 1 (drop 10 bs));
  proto_id = from_bytes (take 1 (drop 11 bs));
  code = from_bytes (take 2 (drop 12 bs));
}

-- `EHostMtType`
pub data HostType : Type 0 where
  conn net mul_net : HostType

-- `HostHd` and `NetMsg`: 5 and 9 bytes before the body.
pub record NetMsg : Type 0 where
  pub thread_oid : ℕ
  pub conn_oid : ℕ
  pub kind : HostType
  pub size : ℕ
  pub body : List ℕ

abbrev pub net_host_size : ℕ
net_host_size = 9

-- `sizeof(conn_oid_t)`
abbrev pub coid_size : ℕ
coid_size = 2

-- `make_head_msg_to_buf`: the buffer afterwards, or none for nullptr. The length is a `uint32_t`.
unfoldable pub make_head_msg_to_buf : Option (List ℕ) → ℕ → List ℕ → ℕ → ℕ → ℕ → ℕ → Option (List ℕ)
make_head_msg_to_buf buf size arr_buffer mod_id proto_id seq_id code =
    let len = u32 (msg_head_size + size) in
    let head = encode_head (record {
      size = len;
      seq_id = seq_id;
      flag = head_flag_base;
      mod_id = mod_id;
      proto_id = proto_id;
      code = code;
    }) in
    if ltb msg_max_len len then none else elim buf [
      | none ↦ some (head ++ drop msg_head_size arr_buffer)
      | some bytes ↦
          if size == 0
          then some (head ++ drop msg_head_size arr_buffer)
          else some (head ++ (take size bytes ++ drop (msg_head_size + size) arr_buffer))
    ]

-- `make_net_msg` without a payload. `memory n` is what `msg_alloc(n)` returns, none if it fails: the
-- body's bytes are what stands behind the nine of the host head.
unfoldable pub make_net_msg_empty : (ℕ → Option (List ℕ)) → ℕ → ℕ → ℕ → ℕ → ℕ → ℕ → Option NetMsg
make_net_msg_empty memory size mod_id proto_id seq_id code coid_count =
    let len = u32 (msg_head_size + size) in
    let len_alloc = u32 (len + coid_size * coid_count + net_host_size) in
    if ltb msg_max_len len then none else elim (memory len_alloc) [
      | none ↦ none
      | some bytes ↦ some (record {
        thread_oid = 0xffff;
        conn_oid = coid_count;
        kind = mul_net;
        size = len_alloc;
        body =
            encode_head (record {
              size = len;
              seq_id = seq_id;
              flag = head_flag_base;
              mod_id = mod_id;
              proto_id = proto_id;
              code = code;
            })
            ++ drop (net_host_size + msg_head_size) bytes;
      })
    ]

-- `make_net_msg` with a payload: it is copied to the start of the body, where the head stands.
unfoldable pub make_net_msg :
    (ℕ → Option (List ℕ)) → Option (List ℕ) → ℕ → ℕ → ℕ → ℕ → ℕ → ℕ → Option NetMsg
make_net_msg memory buf size mod_id proto_id seq_id code coid_count =
    elim (make_net_msg_empty memory size mod_id proto_id seq_id code coid_count) [
      | none ↦ none
      | some msg ↦ elim buf [
        | none ↦ some msg
        | some bytes ↦
            if size == 0
            then some msg
            else some (record msg { body = take size bytes ++ drop size msg.body })
      ]
    ]
