-- ===== src/Net/Reconn/Timer.antt =====
-- xrbase/net/base/ReConnEvent.cpp: the ticks of the timer, which tries again and sends pings.
use libev_test.Base.{
  ℕ, ◌+◌, ◌/◌, ◌<◌, ◌≤◌, ◌≡◌, refl, ap, ◌∙◌, arith, true, false, List, [], ◌∷◌, ◌++◌, length,
}
use mathlib.Core.List.{append-nil}
use libev_test.Text.Bytes.{u32}
use libev_test.Net.Reconn.{ReconnEvent, Action, Answers, connect, on, on_timer, set_ip, send_ping}

-- Ticks, each with its milliseconds and the answers to an attempt.
pub ticks : List (ℕ × Answers) → ReconnEvent → ReconnEvent × List Action
ticks [] e = (e, [])
ticks ((tm, answers) ∷ ts) e =
    let (e', now) = on_timer tm answers e in let (e'', later) = ticks ts e' in (e'', now ++ later)

abbrev pub total : List (ℕ × Answers) → ℕ
total [] = 0
total ((tm, answers) ∷ ts) = tm + total ts

-- How often the event set out to connect, and how often it sent a ping.
pub attempts : List Action → ℕ
attempts [] = 0
attempts (set_ip ∷ xs) = attempts xs + 1
attempts (_ ∷ xs) = attempts xs

pub pings : List Action → ℕ
pings [] = 0
pings (send_ping n ∷ xs) = pings xs + 1
pings (_ ∷ xs) = pings xs

-- Not connected, nor on the way, with an owner and the timer running.
pub record IsIdle (e : ReconnEvent) : Type 0 where
  pub runs : e.timer_stop ≡ false
  pub not_connected : e.connected ≡ false
  pub not_connecting : e.connecting ≡ false
  pub owned : e.has_owner ≡ true

pub record Retries (e : ReconnEvent) (r : ReconnEvent × List Action) : Type 0 where
  pub once : attempts r.1 ≡ 1
  pub counted : r.0.connect_all ≡ u32 (e.connect_all + 1)
  pub restarted : r.0.tmr_connect.value ≡ 0

-- The event after a tick that does not reach the interval.
abbrev waited : ℕ → ReconnEvent → ReconnEvent
waited tm e = record e {
  tmr_ping = (on 1 e.tmr_ping).1;
  tmr_connect = record { value = e.tmr_connect.value + tm; interval = e.tmr_connect.interval };
}

on_timer-waits :
    (tm : ℕ) (answers : Answers) (e : ReconnEvent)
    → IsIdle e
    → e.tmr_connect.value + tm < e.tmr_connect.interval
    → on_timer tm answers e ≡ (waited tm e, [])
unfolding on_timer on
on_timer-waits tm answers e idle early = ground arith

on_timer-Retries :
    (tm : ℕ) (answers : Answers) (e : ReconnEvent)
    → IsIdle e
    → e.tmr_connect.interval ≤ e.tmr_connect.value + tm
    → Retries e (on_timer tm answers e)
unfolding on_timer on connect attempts
on_timer-Retries tm answers e idle due = ground arith

-- An idle event sets out to connect exactly once while its timer runs up to the interval, at the tick
-- that reaches it: not before, whatever the single ticks are, and then the timer starts anew.
pub ticks-Retries :
    (ts : List (ℕ × Answers)) (tm : ℕ) (answers : Answers) (e : ReconnEvent)
    → IsIdle e
    → e.tmr_connect.value + total ts < e.tmr_connect.interval
    → e.tmr_connect.interval ≤ e.tmr_connect.value + total ts + tm
    → (attempts (ticks ts e).1 ≡ 0) × Retries e (ticks (ts ++ (tm, answers) ∷ []) e)
unfolding ticks attempts
ticks-Retries [] tm answers e idle early due =
    let r = on_timer-Retries tm answers e idle (omega arith) in
    (
      refl,
      record {
        once = ap attempts (append-nil (on_timer tm answers e).1) ∙ r.once;
        counted = r.counted;
        restarted = r.restarted;
      },
    )
ticks-Retries ((t, a) ∷ ts) tm answers e idle early due =
    let waits = on_timer-waits t a e idle (omega arith) in
    let still : IsIdle (waited t e) = record {
      runs = idle.runs;
      not_connected = idle.not_connected;
      not_connecting = idle.not_connecting;
      owned = idle.owned;
    } in
    let ih = ticks-Retries ts tm answers (waited t e) still (omega arith) (omega arith) in
    rw waits
      ((ih.0, record { once = ih.1.once; counted = ih.1.counted; restarted = ih.1.restarted }))

-- Connected, with an owner and the timer running.
pub record IsUp (e : ReconnEvent) : Type 0 where
  pub runs : e.timer_stop ≡ false
  pub is_connected : e.connected ≡ true
  pub owned : e.has_owner ≡ true

-- While it is connected, and the ping timer's interval is the 5 of the constructor, the event sends a
-- ping at every fifth tick, counted from where the timer stands, and does not set out to connect.
pub ticks-Pings :
    (ts : List (ℕ × Answers)) (e : ReconnEvent)
    → IsUp e
    → e.tmr_ping.interval ≡ 5
    → e.tmr_ping.value < 5
    → (pings (ticks ts e).1 ≡ (e.tmr_ping.value + length ts) / 5) × (attempts (ticks ts e).1 ≡ 0)
unfolding ticks pings attempts on_timer on
ticks-Pings [] e up interval below = omega arith
ticks-Pings ((t, a) ∷ ts) e up interval below =
    let e' = (on_timer t a e).0 in ground (arith, ticks-Pings ts e')
