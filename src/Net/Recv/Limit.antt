-- ===== src/Net/Recv/Limit.antt =====
-- xrbase/net/base/NetConn.cpp: what the limit on messages a second does over many calls of
-- `AddRecvSec`.
use libev_test.Base.{
  ℕ, zero, suc, ◌+◌, ◌^◌, ◌≤◌, ◌<◌, ◌≡◌, ◌≢◌, refl, arith, Bool, true, false, List, [], ◌∷◌, ◌++◌,
  map, replicate,
}
use libev_test.Text.Bytes.{u32}
use libev_test.Net.Recv.{Counters, add_recv_sec}

-- Calls at these times: the answers.
pub recvs : List ℕ → Counters → List Bool
recvs [] c = []
recvs (now ∷ times) c = let (answer, after) = add_recv_sec now c in answer ∷ recvs times after

-- None of the times is in that second.
abbrev pub Outside : ℕ → List ℕ → Type 0
Outside second [] = Unit
Outside second (t ∷ ts) = (t ≢ second) × Outside second ts

-- A second that has used up the limit ends the connection's traffic: no later call is accepted.
recvs-Refused :
    (times : List ℕ) (c : Counters)
    → c.sec_recv_limit ≢ 0
    → c.sec_recv_limit ≤ c.sec_recvs
    → Outside c.tm_last times
    → recvs times c ≡ map (λ _. false) times
unfolding recvs add_recv_sec
recvs-Refused [] c limited full outside = refl
recvs-Refused (t ∷ ts) c limited full outside = ground (arith, recvs-Refused ts c, outside.0)

-- Within one second every call is accepted, however many; if they come to the limit or more, no call
-- in any other second is accepted after them. The counter of the second does not wrap.
pub recvs-Late :
    (burst : ℕ) (later : List ℕ) (c : Counters)
    → c.sec_recv_limit ≢ 0
    → c.sec_recv_limit ≤ c.sec_recvs + burst
    → c.sec_recvs + burst < 2 ^ 32
    → Outside c.tm_last later
    → recvs (replicate burst c.tm_last ++ later) c ≡ replicate burst true ++ map (λ _. false) later
unfolding recvs add_recv_sec
recvs-Late zero later c limited full small outside =
    recvs-Refused later c limited (omega arith) outside
recvs-Late (suc n) later c limited full small outside =
    let after : Counters = record c {
      all_recv = u32 (c.all_recv + 1);
      sec_recvs = u32 (c.sec_recvs + 1);
    } in
    ground (arith, recvs-Late n later after)
