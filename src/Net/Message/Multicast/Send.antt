-- ===== src/Net/Message/Multicast/Send.antt =====
-- xrbase/net/MsgParser.cpp: what the network thread writes for a message made for many connections.
use libev_test.Base.{
  ℕ, ◌+◌, ◌*◌, ◌^◌, ◌≤◌, ◌<◌, ◌≡◌, refl, sym, ap, ◌∙◌, arith, true, false, List, [], ◌∷◌, ◌++◌, map,
  Option, some, ◌==◌, if◌then◌else◌, length, take, drop, get_or, drop-drop, length-append,
  length-drop, inl, inr, Bool-cases, ==_iff, le→ltb, overwrite, memcpy_inside,
}
use mathlib.Core.List.{append_assoc}
use libev_test.Text.Bytes.{to_bytes, from_bytes}
use libev_test.Net.Message.{MsgHead, NetMsg, decode_head, net_host_size, coid_size, msg_max_len}
use libev_test.Net.Message.Head.{
  IsMessage, message, length-message, decode_head-message, take-message, drop-message,
}
use libev_test.Net.Message.Multicast.{
  copy_in, encode_coids, make_mutil_msg, make_mutil_net_msg, send_each, io_send_msg_x, address_all,
  address_one,
}

-- Each number is a `conn_oid_t`.
abbrev pub AreCoids : List ℕ → Type 0
AreCoids [] = Unit
AreCoids (c ∷ cs) = (c < 2 ^ 16) × AreCoids cs

take_coid :
    (c : ℕ) (bs : List ℕ)
    → c < 2 ^ 16
    → from_bytes (take coid_size (to_bytes coid_size c ++ bs)) ≡ c
unfolding to_bytes from_bytes
take_coid c bs h = omega arith

drop_coid : (c : ℕ) (bs : List ℕ) → drop coid_size (to_bytes coid_size c ++ bs) ≡ bs
unfolding to_bytes
drop_coid c bs = refl

pub length-encode_coids : (cs : List ℕ) → length (encode_coids cs) ≡ coid_size * length cs
unfolding encode_coids to_bytes
length-encode_coids [] = omega arith
length-encode_coids (c ∷ cs) = omega (arith, length-encode_coids cs)

module _ (body : List ℕ) (size : ℕ) where
  -- From where the connections stand, the loop writes to each of them.
  send_each-coids :
      (i : ℕ) (cs rest : List ℕ)
      → AreCoids cs
      → drop (size + coid_size * i) body ≡ encode_coids cs ++ rest
      → send_each body size i (length cs) ≡ map (λ c. (c, take size body)) cs
  unfolding send_each encode_coids
  send_each-coids i [] rest v h = refl
  send_each-coids i (c ∷ cs) rest v h =
      let here : drop (size + coid_size * i) body
          ≡ to_bytes coid_size c ++ (encode_coids cs ++ rest) =
        h ∙ append_assoc (to_bytes coid_size c) (encode_coids cs) rest in
      let next : drop (size + coid_size * (i + 1)) body ≡ encode_coids cs ++ rest =
        ap (λ k. drop k body) {y = size + coid_size * i + coid_size} (omega arith)
        ∙ sym (drop-drop coid_size (size + coid_size * i) body)
        ∙ ap (drop coid_size) here
        ∙ drop_coid c (encode_coids cs ++ rest) in
      rw (here, take_coid c (encode_coids cs ++ rest) v.0, send_each-coids (i + 1) cs rest v.1 next)
        refl

module _ (h : MsgHead) (payload : List ℕ) (v : IsMessage h payload) (toid : ℕ) where
  -- A message with room behind it that is addressed to a list of connections is written to each.
  pub address_all-Sends :
      (msg : NetMsg) (cs rest : List ℕ)
      → AreCoids cs
      → msg.body ≡ message h payload ++ rest
      → coid_size * length cs ≤ length rest
      → (m : NetMsg) × (address_all toid cs h.size msg ≡ some m)
        × (io_send_msg_x toid true m ≡ map (λ c. (c, message h payload)) cs)
  unfolding io_send_msg_x
  address_all-Sends msg cs rest coids at_body room =
      let coids_at = encode_coids cs in
      let whole : length msg.body ≡ h.size + length rest =
        ap (length {A = ℕ}) at_body
        ∙ length-append (message h payload) rest
        ∙ ap (λ n. n + length rest) (length-message h payload v) in
      let inside : h.size + length coids_at ≤ length msg.body =
        omega (arith, length-encode_coids cs, whole) in
      let tail = drop (h.size + length coids_at) msg.body in
      let filled : overwrite h.size coids_at msg.body ≡ message h payload ++ (coids_at ++ tail) =
        ap (λ b. b ++ (coids_at ++ tail))
          (ap (take h.size) at_body ∙ take-message h payload v rest) in
      let head : decode_head (overwrite h.size coids_at msg.body) ≡ h =
        ap decode_head filled ∙ decode_head-message h payload v (coids_at ++ tail) in
      let taken : take h.size (overwrite h.size coids_at msg.body) ≡ message h payload =
        ap (take h.size) filled ∙ take-message h payload v (coids_at ++ tail) in
      let behind : drop (h.size + coid_size * 0) (overwrite h.size coids_at msg.body)
          ≡ coids_at ++ tail =
        ap (λ k. drop k (overwrite h.size coids_at msg.body)) (omega arith)
        ∙ ap (drop h.size) filled
        ∙ drop-message h payload v (coids_at ++ tail) in
      rw (memcpy_inside h.size coids_at msg.body inside, address_all)
        (
          _,
          refl,
          rw ((==_iff toid toid).1 refl, head)
              (send_each-coids (overwrite h.size coids_at msg.body) h.size 0 cs tail coids behind
                ∙ ap (λ b. map (λ c. (c, b)) cs) taken),
        )

  -- A message addressed to one connection is written to it.
  pub address_one-Sends :
      (msg : NetMsg) (c : ℕ) (rest : List ℕ)
      → msg.body ≡ message h payload ++ rest
      → io_send_msg_x toid true (address_one toid c msg) ≡ (c, message h payload) ∷ []
  unfolding io_send_msg_x
  address_one-Sends msg c rest at_body =
      let head : decode_head msg.body ≡ h =
        ap decode_head at_body ∙ decode_head-message h payload v rest in
      let taken : take h.size msg.body ≡ message h payload =
        ap (take h.size) at_body ∙ take-message h payload v rest in
      rw ((==_iff toid toid).1 refl, head, taken) refl

  -- One connection has the short form, any other number of them the list.
  pub singleton_or : (cs : List ℕ) → (length cs ≡ 1) → cs ≡ get_or cs 0 0 ∷ []
  singleton_or [] e = absurd (omega arith)
  singleton_or (c ∷ []) e = refl
  singleton_or (c ∷ d ∷ cs) e = absurd (omega arith)

  -- A copy of the message into a body that is long enough.
  copy_in-message :
      (rest : List ℕ) (msg : NetMsg)
      → h.size ≤ length msg.body
      → copy_in (take h.size (message h payload ++ rest)) msg
        ≡ some (some (record msg { body = message h payload ++ drop h.size msg.body }))
  copy_in-message rest msg fits =
      ap (λ src. copy_in src msg) (take-message h payload v rest)
      ∙ rw
          (
            memcpy_inside 0 (message h payload) msg.body
                (omega (arith, length-message h payload v)),
            copy_in,
          )
          (ap (λ n. some (some (record msg { body = message h payload ++ drop n msg.body })))
            {x = 0 + length (message h payload)} {y = h.size}
            (omega (arith, length-message h payload v)))

  -- A block of the allocator has the size asked for.
  module _ (memory : ℕ → Option (List ℕ)) (count : ℕ) (rest : List ℕ)
      (allocates : (n : ℕ) → (block : List ℕ) × (memory n ≡ some block) × (length block ≡ n))
      (some_coid : 0 < count) where
    -- A message for at least one connection is built, and holds the message with room for the
    -- connections behind it, if there are several.
    make_mutil_msg-Holds :
        (m : NetMsg) × (tail : List ℕ) × (make_mutil_msg memory
            (some (message h payload ++ rest))
            count
          ≡ some (some m))
        × (m.body ≡ message h payload ++ tail)
        × ((if count == 1 then 0 else coid_size * count) ≤ length tail)
    unfolding make_mutil_msg
    make_mutil_msg-Holds =
        let head : (decode_head (message h payload ++ rest)).size ≡ h.size =
          ap (λ (d : MsgHead). d.size) (decode_head-message h payload v rest) in
        let not_none : (count == 0) ≡ false = ground arith in
        rw (head, not_none, le→ltb msg_max_len h.size v.short)
          elim (Bool-cases (count == 1)) [
            | inl one ↦
                let (block, e, sized) = allocates (net_host_size + h.size) in
                let body = drop net_host_size block in
                let fits : h.size ≤ length body =
                  omega (arith, length-drop net_host_size block, sized) in
                rw (one, e, head)
                  (_, drop h.size body, copy_in-message rest _ fits, refl, omega arith)
            | inr more ↦
                let (block, e, sized) = allocates (net_host_size + h.size + coid_size * count) in
                let body = drop net_host_size block in
                let long : length body ≡ h.size + coid_size * count =
                  omega (arith, length-drop net_host_size block, sized) in
                rw (more, e, head)
                  (
                    _,
                    drop h.size body,
                    copy_in-message rest _ (omega (arith, long)),
                    refl,
                    omega (arith, length-drop h.size body, long),
                  )
          ]

  -- A message made for some connections, with memory in blocks of the size asked for, is built without
  -- a write past its block, and then written, on their thread, to each of them once and in order: the
  -- bytes of the message, whatever stood behind them.
  pub make_mutil_net_msg-Sends :
      (memory : ℕ → Option (List ℕ)) (cs rest : List ℕ)
      → ((n : ℕ) → (block : List ℕ) × (memory n ≡ some block) × (length block ≡ n))
      → AreCoids cs
      → 0 < length cs
      → (m : NetMsg) × (make_mutil_net_msg memory toid cs (some (message h payload ++ rest))
          ≡ some (some m))
        × (io_send_msg_x toid true m ≡ map (λ c. (c, message h payload)) cs)
  unfolding make_mutil_net_msg
  make_mutil_net_msg-Sends memory cs rest allocates coids some_coid =
      let (m, tail, made, holds, room) =
        make_mutil_msg-Holds memory (length cs) rest allocates some_coid in
      let head : (decode_head (message h payload ++ rest)).size ≡ h.size =
        ap (λ (d : MsgHead). d.size) (decode_head-message h payload v rest) in
      elim (Bool-cases (length cs == 1)) [
        | inl one ↦
            rw (made, make_mutil_net_msg, one)
              (
                address_one toid (get_or cs 0 0) m,
                refl,
                address_one-Sends m (get_or cs 0 0) tail holds
                    ∙ ap (map (λ c. (c, message h payload)))
                        (sym (singleton_or cs ((==_iff _ _).0 one))),
              )
        | inr more ↦
            let behind : coid_size * length cs ≤ length tail = rw more at room in
            let (addressed, e, sends) = address_all-Sends m cs tail coids holds behind in
            (addressed, rw (made, make_mutil_net_msg, more, head, e) refl, sends)
      ]
