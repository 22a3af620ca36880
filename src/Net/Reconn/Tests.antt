-- ===== src/Net/Reconn/Tests.antt =====
-- The theorems on reconnecting at concrete inputs.
use libev_test.Base.{◌≡◌, ◌≢◌, refl, arith, true, false, [], ◌∷◌, none, ◌/◌}
use libev_test.Net.Reconn.{
  ReconnEvent, Answers, init_count, create, connect, on_connect, set_owner, set_ip, new_buffer,
  start_connect,
}
use libev_test.Net.Reconn.Valid.{
  Reach, here, next, owns, connects, Balances, Reach-Balances, on_connect-Safe,
}
use libev_test.Net.Reconn.Timer.{ticks, attempts, pings, Retries, ticks-Retries, ticks-Pings}

abbrev yes_yes : Answers
yes_yes = record { created = true; started = true }

abbrev owned : ReconnEvent
owned = record {
  has_owner = true;
  has_buffer = false;
  connected = false;
  connecting = false;
  connect_num = 0;
  connect_all = 0;
  tmr_connect = init_count 2000;
  tmr_ping = init_count 5;
  timer_stop = false;
}

started : Reach 2 (set_ip ∷ new_buffer ∷ start_connect ∷ []) (connect yes_yes owned).0
unfolding create set_owner connect
started = next (next here (owns (create 2) true)) (connects (set_owner true (create 2)) yes_yes)

Reach-Balances_example :
    Balances (set_ip ∷ new_buffer ∷ start_connect ∷ []) (connect yes_yes owned).0
Reach-Balances_example = Reach-Balances started

on_connect-Safe_example : on_connect true true (connect yes_yes owned).0 ≢ none
unfolding connect
on_connect-Safe_example = on_connect-Safe true started refl

ticks-Retries_example :
    (attempts (ticks ((900, yes_yes) ∷ (900, yes_yes) ∷ []) owned).1 ≡ 0)
    × Retries owned (ticks ((900, yes_yes) ∷ (900, yes_yes) ∷ (900, yes_yes) ∷ []) owned)
ticks-Retries_example =
    ticks-Retries ((900, yes_yes) ∷ (900, yes_yes) ∷ []) 900 yes_yes owned
      (record { runs = refl; not_connected = refl; not_connecting = refl; owned = refl })
      (omega arith) (omega arith)

abbrev up : ReconnEvent
up = record owned { connected = true; has_buffer = true }

ticks-Pings_example :
    (pings (ticks ((100, yes_yes) ∷ (100, yes_yes) ∷ []) up).1 ≡ 2 / 5)
    × (attempts (ticks ((100, yes_yes) ∷ (100, yes_yes) ∷ []) up).1 ≡ 0)
ticks-Pings_example =
    ticks-Pings ((100, yes_yes) ∷ (100, yes_yes) ∷ []) up
      (record { runs = refl; is_connected = refl; owned = refl }) refl (omega arith)
