-- ===== src/Net/Message/Head.antt =====
-- The head of a message in memory: what is written is read back, whatever stands behind it.
use libev_test.Base.{
  ℕ, ◌+◌, ◌^◌, ◌≤◌, ◌<◌, ◌≡◌, refl, ap, ◌∙◌, arith, List, ◌++◌, length, take, drop, length-append,
  sym, drop-append, take-append, length-drop, length-take, take-append-drop, take-append_self,
  drop-append_self,
}
use mathlib.Core.List.{append_assoc}
use libev_test.Text.Bytes.{to_bytes, from_bytes}
use libev_test.Net.Message.{MsgHead, encode_head, decode_head, msg_head_size, msg_max_len}

-- Each field holds a value of its C++ type.
pub record IsHead (h : MsgHead) : Type 0 where
  pub size_u32 : h.size < 2 ^ 32
  pub seq_id_u32 : h.seq_id < 2 ^ 32
  pub flag_u16 : h.flag < 2 ^ 16
  pub mod_id_u8 : h.mod_id < 2 ^ 8
  pub proto_id_u8 : h.proto_id < 2 ^ 8
  pub code_u16 : h.code < 2 ^ 16

pub length-encode_head : (h : MsgHead) → length (encode_head h) ≡ msg_head_size
unfolding encode_head to_bytes
length-encode_head h = refl

pub decode_head-encode_head :
    (h : MsgHead) (rest : List ℕ) → IsHead h → decode_head (encode_head h ++ rest) ≡ h
unfolding encode_head decode_head to_bytes from_bytes
decode_head-encode_head h rest v = λ i. record {
  size = size_eq i;
  seq_id = seq_eq i;
  flag = flag_eq i;
  mod_id = mod_eq i;
  proto_id = proto_eq i;
  code = code_eq i;
}
  where
    size_eq : (decode_head (encode_head h ++ rest)).size ≡ h.size
    size_eq = omega (arith, v.size_u32)

    seq_eq : (decode_head (encode_head h ++ rest)).seq_id ≡ h.seq_id
    seq_eq = omega (arith, v.seq_id_u32)

    flag_eq : (decode_head (encode_head h ++ rest)).flag ≡ h.flag
    flag_eq = omega (arith, v.flag_u16)

    mod_eq : (decode_head (encode_head h ++ rest)).mod_id ≡ h.mod_id
    mod_eq = omega (arith, v.mod_id_u8)

    proto_eq : (decode_head (encode_head h ++ rest)).proto_id ≡ h.proto_id
    proto_eq = omega (arith, v.proto_id_u8)

    code_eq : (decode_head (encode_head h ++ rest)).code ≡ h.code
    code_eq = omega (arith, v.code_u16)

-- A message in memory: the head, and a payload that the head's size counts.
pub record IsMessage (h : MsgHead) (payload : List ℕ) : Type 0 where
  pub is_head : IsHead h
  pub counted : h.size ≡ msg_head_size + length payload
  pub short : h.size ≤ msg_max_len

abbrev pub message : MsgHead → List ℕ → List ℕ
message h payload = encode_head h ++ payload

module _ (h : MsgHead) (payload : List ℕ) (v : IsMessage h payload) where
  pub length-message : length (message h payload) ≡ h.size
  length-message =
      omega (arith, length-append (encode_head h) payload, length-encode_head h, v.counted)

  pub decode_head-message : (rest : List ℕ) → decode_head (message h payload ++ rest) ≡ h
  decode_head-message rest =
      rw (append_assoc (encode_head h) payload rest)
        (decode_head-encode_head h (payload ++ rest) v.is_head)

  pub take-message : (rest : List ℕ) → take h.size (message h payload ++ rest) ≡ message h payload
  take-message rest =
      ap (λ n. take n (message h payload ++ rest)) (sym length-message)
      ∙ take-append_self (message h payload) rest

  pub drop-message : (rest : List ℕ) → drop h.size (message h payload ++ rest) ≡ rest
  drop-message rest =
      ap (λ n. drop n (message h payload ++ rest)) (sym length-message)
      ∙ drop-append_self (message h payload) rest

take-drop-append :
    (k j : ℕ) (bs rest : List ℕ)
    → j + k ≤ length bs
    → take k (drop j (bs ++ rest)) ≡ take k (drop j bs)
take-drop-append k j bs rest h =
    ap (take k) (drop-append j bs rest (omega arith))
    ∙ take-append k (drop j bs) rest (omega (arith, length-drop j bs))

-- Only the first fourteen bytes count.
pub decode_head-append :
    (bs rest : List ℕ) → msg_head_size ≤ length bs → decode_head (bs ++ rest) ≡ decode_head bs
unfolding decode_head
decode_head-append bs rest h = λ i. record {
  size = from_bytes (take-drop-append 4 0 bs rest (omega arith) i);
  seq_id = from_bytes (take-drop-append 4 4 bs rest (omega arith) i);
  flag = from_bytes (take-drop-append 2 8 bs rest (omega arith) i);
  mod_id = from_bytes (take-drop-append 1 10 bs rest (omega arith) i);
  proto_id = from_bytes (take-drop-append 1 11 bs rest (omega arith) i);
  code = from_bytes (take-drop-append 2 12 bs rest (omega arith) i);
}

pub decode_head-take :
    (n : ℕ) (bs : List ℕ)
    → msg_head_size ≤ n
    → n ≤ length bs
    → decode_head (take n bs) ≡ decode_head bs
decode_head-take n bs enough inside =
    sym (decode_head-append (take n bs) (drop n bs) (omega (arith, length-take n bs)))
    ∙ ap decode_head (take-append-drop n bs)
