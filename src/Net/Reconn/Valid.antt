-- ===== src/Net/Reconn/Valid.antt =====
-- xrbase/net/base/ReConnEvent.cpp: what holds after every sequence of calls, callbacks and ticks.
use libev_test.Base.{
  not, ℕ, ◌+◌, ◌≡◌, ◌≢◌, arith, Bool, true, false, ◌&&◌, List, [], ◌∷◌, ◌++◌, none, some,
  if◌then◌else◌,
}
use libev_test.Net.Reconn.{
  ReconnEvent, Action, Answers, create, connect, on, on_connect, on_disconnect, stop_timer,
  set_owner, on_timer, new_buffer, free_buffer,
}

-- One call of the event, with what it did outside. libevent reports success to a buffer that is
-- connecting, and failure (or the end) to any buffer.
pub data Step : ReconnEvent → List Action → ReconnEvent → Type 0 where
  connects :
      (e : ReconnEvent) (answers : Answers) → Step e (connect answers e).1 (connect answers e).0
  succeeds :
      (e e' : ReconnEvent) (has_fd : Bool) (actions : List Action)
      → e.connecting ≡ true
      → on_connect true has_fd e ≡ some (e', actions)
      → Step e actions e'
  fails :
      (e e' : ReconnEvent) (has_fd : Bool) (actions : List Action)
      → e.has_buffer ≡ true
      → on_connect false has_fd e ≡ some (e', actions)
      → Step e actions e'
  disconnects : (e : ReconnEvent) → Step e (on_disconnect e).1 (on_disconnect e).0
  ticks :
      (e : ReconnEvent) (tm : ℕ) (answers : Answers)
      → Step e (on_timer tm answers e).1 (on_timer tm answers e).0
  stops : (e : ReconnEvent) → Step e [] (stop_timer e)
  owns : (e : ReconnEvent) (owner : Bool) → Step e [] (set_owner owner e)

-- A history from the constructor on, with everything it did outside.
pub data Reach (conn_secs : ℕ) : List Action → ReconnEvent → Type 0 where
  here : Reach conn_secs [] (create conn_secs)
  next :
      {before actions : List Action} {e e' : ReconnEvent}
      → Reach conn_secs before e
      → Step e actions e'
      → Reach conn_secs (before ++ actions) e'

pub record IsValid (e : ReconnEvent) : Type 0 where
  pub exclusive : (e.connected && e.connecting) ≡ false
  pub connecting_has : (e.connecting && not e.has_buffer) ≡ false
  pub connected_has : (e.connected && not e.has_buffer) ≡ false

-- How many buffers were made, and how many freed.
pub made : List Action → ℕ
made [] = 0
made (new_buffer ∷ xs) = made xs + 1
made (_ ∷ xs) = made xs

pub freed : List Action → ℕ
freed [] = 0
freed (free_buffer ∷ xs) = freed xs + 1
freed (_ ∷ xs) = freed xs

abbrev pub held : ReconnEvent → ℕ
held e = if e.has_buffer then 1 else 0

-- The state is consistent, and each buffer made is freed or the one held.
pub record Balances (actions : List Action) (e : ReconnEvent) : Type 0 where
  pub valid : IsValid e
  pub balance : made actions ≡ freed actions + held e

made-append : (xs bs : List Action) → made (xs ++ bs) ≡ made xs + made bs
unfolding made
made-append [] bs = omega arith
made-append (a ∷ xs) bs = ground (arith, made-append xs bs)

freed-append : (xs bs : List Action) → freed (xs ++ bs) ≡ freed xs + freed bs
unfolding freed
freed-append [] bs = omega arith
freed-append (a ∷ xs) bs = ground (arith, freed-append xs bs)

-- What one step keeps.
record Keeps (e : ReconnEvent) (actions : List Action) (e' : ReconnEvent) : Type 0 where
  valid : IsValid e'
  balance : made actions + held e ≡ freed actions + held e'

connect-Keeps :
    (e : ReconnEvent) (answers : Answers)
    → IsValid e
    → Keeps e (connect answers e).1 (connect answers e).0
unfolding connect made freed
connect-Keeps e answers v = ground arith

on_timer-Keeps :
    (e : ReconnEvent) (tm : ℕ) (answers : Answers)
    → IsValid e
    → Keeps e (on_timer tm answers e).1 (on_timer tm answers e).0
unfolding on_timer made freed
on_timer-Keeps e tm answers v =
    let ticked = record e {
      tmr_ping = (on 1 e.tmr_ping).1;
      tmr_connect = (on tm e.tmr_connect).1;
    } in
    ground (arith, connect-Keeps ticked answers)

Step-Keeps :
    {e e' : ReconnEvent} {actions : List Action}
    → Step e actions e'
    → IsValid e
    → Keeps e actions e'
unfolding on_connect on_disconnect stop_timer set_owner made freed
Step-Keeps (connects e answers) v = connect-Keeps e answers v
Step-Keeps (succeeds e e' has_fd actions c h) v = ground arith
Step-Keeps (fails e e' has_fd actions c h) v = ground arith
Step-Keeps (disconnects e) v = ground arith
Step-Keeps (ticks e tm answers) v = on_timer-Keeps e tm answers v
Step-Keeps (stops e) v = ground arith
Step-Keeps (owns e owner) v = ground arith

-- After every history of calls, callbacks and ticks: the event is never connected and connecting at
-- once, it has a buffer whenever it is either, and each buffer it made is freed or still held.
pub Reach-Balances :
    {conn_secs : ℕ} {actions : List Action} {e : ReconnEvent}
    → Reach conn_secs actions e
    → Balances actions e
unfolding create made freed
Reach-Balances here = ground arith
Reach-Balances (next {before} {actions} {e} {e'} r step) =
    let ih = Reach-Balances r in
    let keeps = Step-Keeps step ih.valid in
    record {
      valid = keeps.valid;
      balance = omega (
        arith,
        made-append before actions,
        freed-append before actions,
        ih.balance,
        keeps.balance,
      );
    }

-- A success that libevent reports while the event is connecting never meets a null buffer.
pub on_connect-Safe :
    {conn_secs : ℕ} {actions : List Action} {e : ReconnEvent} (has_fd : Bool)
    → Reach conn_secs actions e
    → e.connecting ≡ true
    → on_connect true has_fd e ≢ none
unfolding on_connect
on_connect-Safe has_fd r c = let v = (Reach-Balances r).valid in ground arith
