-- ===== src/Net/Message/Multicast/Fill.antt =====
-- xrbase/net/MsgParser.cpp: `fill_net_msg`, which addresses a message that is already built.
use libev_test.Base.{
  ℕ, ◌+◌, ◌*◌, ◌^◌, ◌≤◌, ◌<◌, ◌≡◌, ◌≢◌, ◌⊎◌, refl, sym, ap, ◌∙◌, arith, Bool, true, false, List,
  ◌++◌, map, Option, none, some, ◌==◌, if◌then◌else◌, length, length-append, inl, inr, Bool-cases,
  Option-cases, ==_iff, get_or,
}
use libev_test.Net.Message.{
  MsgHead, NetMsg, decode_head, make_net_msg_empty, net_host_size, coid_size,
}
use mathlib.Core.List.{append_assoc}
use libev_test.Net.Message.Head.{IsMessage, message, decode_head-message}
use libev_test.Net.Message.Multicast.{
  Filled, fill_net_msg, io_send_msg_x, address_all, address_one, wanted_size, is_mul_net, grows,
  shrinks,
}
use libev_test.Net.Message.Multicast.Send.{
  AreCoids, address_all-Sends, address_one-Sends, singleton_or,
}

-- A message that `make_net_msg` made for several connections is refused by `fill_net_msg` for just
-- that many connections, and stays as it was.
pub make_net_msg_empty-Refused :
    (memory : ℕ → Option (List ℕ)) (size mod_id proto_id seq_id code : ℕ)
    (relloc : List ℕ → ℕ → Option (Bool × List ℕ)) (toid : ℕ) (cs : List ℕ) (m : NetMsg)
    → make_net_msg_empty memory size mod_id proto_id seq_id code (length cs) ≡ some m
    → length cs ≢ 1
    → fill_net_msg relloc toid cs m ≡ some (record { result = false; msg = some m })
unfolding make_net_msg_empty fill_net_msg
make_net_msg_empty-Refused memory size mod_id proto_id seq_id code relloc toid cs m made many =
    ground arith

-- `msg_relloc` answers blocks of the size asked for that begin with the bytes of the old one, if they
-- are no shorter.
abbrev pub Extends : (List ℕ → ℕ → Option (Bool × List ℕ)) → Type 0
Extends relloc =
    (n : ℕ) (body : List ℕ) (r : Bool × List ℕ)
    → relloc body n ≡ some r
    → net_host_size + length body ≤ n
    → (tail : List ℕ) × (r.1 ≡ body ++ tail) × (net_host_size + length r.1 ≡ n)

-- A message to send: its bytes, room for the connections that it is made for, and its size.
pub record IsBuilt (h : MsgHead) (payload rest : List ℕ) (msg : NetMsg) : Type 0 where
  pub at_body : msg.body ≡ message h payload ++ rest
  pub sized : msg.size ≡ net_host_size + length msg.body
  pub no_wrap : msg.size < 2 ^ 31
  pub room : (if is_mul_net msg.kind then coid_size * msg.conn_oid else 0) ≤ length rest

module _ (toid : ℕ) (relloc : List ℕ → ℕ → Option (Bool × List ℕ)) (cs : List ℕ)
    (msg : NetMsg) where
  -- `msg_relloc` has moved the block, and the caller's pointer is left dangling.
  abbrev pub Dangles : Type 0
  Dangles =
      (grows msg (length cs) ≡ true)
      × ((body : List ℕ) × (relloc msg.body (wanted_size msg (length cs)) ≡ some (true, body)))
      × (fill_net_msg relloc toid cs msg ≡ some (record { result = true; msg = none }))

  -- There is no memory, or the message is for just as many connections, or for none.
  abbrev pub IsRefused : Type 0
  IsRefused =
      (((grows msg (length cs) ≡ true) × (relloc msg.body (wanted_size msg (length cs)) ≡ none))
        ⊎ ((grows msg (length cs) ≡ false) × (shrinks msg (length cs) ≡ false)))
      × (fill_net_msg relloc toid cs msg ≡ some (record { result = false; msg = some msg }))

-- A block of the size that is asked for has room for all connections.
wanted_size-room :
    (msg : NetMsg) (count spare : ℕ)
    → msg.size < 2 ^ 31
    → count < 2 ^ 16
    → (if is_mul_net msg.kind then coid_size * msg.conn_oid else 0) ≤ spare
    → grows msg count ≡ true
    → (msg.size ≤ wanted_size msg count)
      × (msg.size + coid_size * count ≤ wanted_size msg count + spare)
unfolding wanted_size
wanted_size-room msg count spare small few room more = elim (Bool-cases (is_mul_net msg.kind)) [
  | inl e ↦ ground arith
  | inr e ↦ ground arith
]

module _ (h : MsgHead) (payload : List ℕ) (v : IsMessage h payload) (toid : ℕ) where
  -- The message that the caller holds goes to each connection once, in their order.
  abbrev pub Goes : List ℕ → Option Filled → Type 0
  Goes cs o =
      (m : NetMsg) × (o ≡ some (record { result = true; msg = some m }))
      × (io_send_msg_x toid true m ≡ map (λ c. (c, message h payload)) cs)

  addressed :
      (cs tail : List ℕ) (m : NetMsg)
      → AreCoids cs
      → m.body ≡ message h payload ++ tail
      → coid_size * length cs ≤ length tail
      → (a : NetMsg) × (address_all toid cs (decode_head m.body).size m ≡ some a)
        × (io_send_msg_x toid true a ≡ map (λ c. (c, message h payload)) cs)
  addressed cs tail m coids holds room =
      let head : (decode_head m.body).size ≡ h.size =
        ap (λ b. (decode_head b).size) holds
        ∙ ap (λ (d : MsgHead). d.size) (decode_head-message h payload v tail) in
      let (a, e, sends) = address_all-Sends h payload v toid m cs tail coids holds room in
      (a, ap (λ n. address_all toid cs n m) head ∙ e, sends)

  module _ (relloc : List ℕ → ℕ → Option (Bool × List ℕ)) (cs rest : List ℕ) (msg : NetMsg)
      (built : IsBuilt h payload rest msg) (coids : AreCoids cs) where
    one-Goes : (length cs == 1) ≡ true → Goes cs (fill_net_msg relloc toid cs msg)
    unfolding fill_net_msg
    one-Goes one = (
      address_one toid (get_or cs 0 0) msg,
      rw (one, fill_net_msg) refl,
      address_one-Sends h payload v toid msg (get_or cs 0 0) rest built.at_body
          ∙ ap (map (λ c. (c, message h payload)))
              (sym (singleton_or h payload v toid cs ((==_iff _ _).0 one))),
    )

    module _ (several : (length cs == 1) ≡ false) where
      shrinks-Goes :
          grows msg (length cs) ≡ false
          → shrinks msg (length cs) ≡ true
          → Goes cs (fill_net_msg relloc toid cs msg)
      unfolding fill_net_msg
      shrinks-Goes few many =
          let (a, e, sends) =
            addressed cs rest msg coids built.at_body (ground (arith, built.room)) in
          (a, rw (several, few, many, e, fill_net_msg) refl, sends)

      grown :
          (moved : Bool) (body tail : List ℕ)
          → grows msg (length cs) ≡ true
          → relloc msg.body (wanted_size msg (length cs)) ≡ some (moved, body)
          → body ≡ msg.body ++ tail
          → coid_size * length cs ≤ length (rest ++ tail)
          → (a : NetMsg) × (fill_net_msg relloc toid cs msg
              ≡ some (record { result = true; msg = if moved then none else some a }))
            × (io_send_msg_x toid true a ≡ map (λ c. (c, message h payload)) cs)
      unfolding fill_net_msg
      grown moved body tail more e longer room =
          let wlen = wanted_size msg (length cs) in
          let holds : body ≡ message h payload ++ (rest ++ tail) =
            longer
            ∙ ap (λ b. b ++ tail) built.at_body
            ∙ append_assoc (message h payload) rest tail in
          let (a, f, sends) =
            addressed cs (rest ++ tail) (record msg { size = wlen; body = body }) coids holds
              room in
          (a, rw (several, more, e, f, fill_net_msg) refl, sends)

      grows-Goes :
          length cs < 2 ^ 16
          → Extends relloc
          → grows msg (length cs) ≡ true
          → Goes cs (fill_net_msg relloc toid cs msg)
            ⊎ (Dangles toid relloc cs msg ⊎ IsRefused toid relloc cs msg)
      unfolding fill_net_msg
      grows-Goes few extends more =
          let wlen = wanted_size msg (length cs) in
          let enough =
            wanted_size-room msg (length cs) (length rest) built.no_wrap few built.room more in
          elim (Option-cases (relloc msg.body wlen)) [
            | inl e ↦ inr (inr (inl (more, e), rw (several, more, e, fill_net_msg) refl))
            | inr ((moved, body), e) ↦
                let (tail, longer, sized) =
                  extends wlen msg.body (moved, body) e (omega (arith, enough.0, built.sized)) in
                let room : coid_size * length cs ≤ length (rest ++ tail) = omega (
                  arith,
                  enough.1,
                  built.sized,
                  sized,
                  ap (length {A = ℕ}) longer,
                  length-append msg.body tail,
                  length-append rest tail,
                ) in
                let (a, f, sends) = grown moved body tail more e longer room in
                elim (Bool-cases moved) [
                  | inl m ↦ inr (
                      inl (
                        more,
                        (body, e ∙ ap (λ b. some (b, body)) m),
                        f
                            ∙ ap
                                (λ b.
                                  some (record { result = true; msg = if b then none else some a }))
                                m,
                      ))
                  | inr m ↦ inl (
                    a,
                    f
                        ∙ ap
                            (λ b. some (record { result = true; msg = if b then none else some a }))
                            m,
                    sends,
                  )
                ]
          ]

  -- `fill_net_msg` of a message with room for as many connections as it is made for, below 2^31 bytes,
  -- writes past no block. Either it answers true and the message that the caller holds is then written
  -- to each connection once, in their order; or the message is made for fewer connections, `msg_relloc`
  -- moves the block, and it answers true but the caller's pointer is left dangling; or it answers false
  -- and leaves the message, if there is no memory, or if the message is made for several connections and
  -- neither for fewer nor for more, or is none that is sent to connections.
  pub fill_net_msg-Sends :
      (relloc : List ℕ → ℕ → Option (Bool × List ℕ)) (cs rest : List ℕ) (msg : NetMsg)
      → IsBuilt h payload rest msg
      → AreCoids cs
      → length cs < 2 ^ 16
      → Extends relloc
      → Goes cs (fill_net_msg relloc toid cs msg)
        ⊎ (Dangles toid relloc cs msg ⊎ IsRefused toid relloc cs msg)
  unfolding fill_net_msg
  fill_net_msg-Sends relloc cs rest msg built coids few extends =
      let count = length cs in
      elim (Bool-cases (count == 1)) [
        | inl one ↦ inl (one-Goes relloc cs rest msg built coids one)
        | inr several ↦ elim (Bool-cases (grows msg count)) [
          | inl more ↦ grows-Goes relloc cs rest msg built coids several few extends more
          | inr stays ↦ elim (Bool-cases (shrinks msg count)) [
            | inl less ↦ inl (shrinks-Goes relloc cs rest msg built coids several stays less)
            | inr e ↦ inr (inr (inr (stays, e), rw (several, stays, e, fill_net_msg) refl))
          ]
        ]
      ]
