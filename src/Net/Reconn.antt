-- ===== src/Net/Reconn.antt =====
-- xrbase/net/base/ReConnEvent.cpp and the counter of xrbase/time/TimeCount.cpp: one outgoing connection
-- that is tried again by a timer until it stands.
pub mod Valid
pub mod Timer
mod Tests
use libev_test.Base.{
  ℕ, ◌+◌, ◌*◌, ◌^◌, ◌%◌, Bool, true, false, not, ◌&&◌, ◌||◌, List, [], ◌∷◌, ◌++◌, Option, none,
  some, leb, if◌then◌else◌,
}
use libev_test.Text.Bytes.{u32}

-- `GenCount`. The values are `int64_t`, not negative here, and far from 2^63.
pub record GenCount : Type 0 where
  pub value : ℕ
  pub interval : ℕ

-- `GenCount::Init`
abbrev pub init_count : ℕ → GenCount
init_count interval = record { value = 0; interval = interval }

-- `GenCount::On`
unfoldable pub on : ℕ → GenCount → Bool × GenCount
on add c =
    if leb c.interval (c.value + add)
    then (true, record c { value = 0 })
    else (false, record c { value = c.value + add })

-- The state of a `ReconnEvent` but the address, which it only hands on.
pub record ReconnEvent : Type 0 where
  pub has_owner : Bool
  pub has_buffer : Bool
  pub connected : Bool
  pub connecting : Bool
  pub connect_num : ℕ
  pub connect_all : ℕ
  pub tmr_connect : GenCount
  pub tmr_ping : GenCount
  pub timer_stop : Bool

-- What the event does outside itself.
pub data Action : Type 0 where
  set_ip new_buffer start_connect free_buffer dispatch_connect : Action
  send_ping connect_times : ℕ → Action

-- The answers of libevent to one attempt: `net_socket_new` and `NetBufferEv::Connect`.
pub record Answers : Type 0 where
  pub created : Bool
  pub started : Bool

-- The constructor, with `iConnSecs`.
unfoldable pub create : ℕ → ReconnEvent
create conn_secs = record {
  has_owner = false;
  has_buffer = false;
  connected = false;
  connecting = false;
  connect_num = 0;
  connect_all = 0;
  tmr_connect = init_count (conn_secs * 1000);
  tmr_ping = init_count 5;
  timer_stop = false;
}

-- `_FreeBufferEvent`; freeing a null buffer does nothing.
free_buffer_event : ReconnEvent → ReconnEvent × List Action
free_buffer_event e =
    (record e { has_buffer = false }, if e.has_buffer then free_buffer ∷ [] else [])

-- `Connect` from the call of `SetCb` on, with a buffer.
attempt : Answers → ReconnEvent → ReconnEvent × List Action
unfolding free_buffer_event
attempt answers e =
    if answers.started
    then (record e { connecting = true }, start_connect ∷ [])
    else let (freed, actions) = free_buffer_event e in (freed, start_connect ∷ actions)

unfoldable pub connect : Answers → ReconnEvent → ReconnEvent × List Action
unfolding attempt
connect answers e =
    let counted = record e {
      connect_all = u32 (e.connect_all + 1);
      connect_num = u32 (e.connect_num + 1);
    } in
    let reused = attempt answers counted in
    let fresh = attempt answers (record counted { has_buffer = true }) in
    if e.connected || e.connecting
    then (e, [])
    else if not e.has_owner
    then (e, [])
    else if e.has_buffer
    then (reused.0, set_ip ∷ reused.1)
    else if answers.created
    then (fresh.0, set_ip ∷ (new_buffer ∷ fresh.1))
    else (counted, set_ip ∷ [])

-- `OnConnect`: whether the events say connected, and whether the buffer has a descriptor. None is the
-- use of a null buffer.
unfoldable pub on_connect : Bool → Bool → ReconnEvent → Option (ReconnEvent × List Action)
unfolding free_buffer_event
on_connect success has_fd e =
    let ended = record e { connecting = false; connected = success } in
    if success
    then if e.has_buffer
      then if has_fd && e.has_owner
        then some (record ended { connect_num = 0 }, dispatch_connect ∷ [])
        else some (record ended { connect_num = 0; connected = false }, [])
      else none
    else some (free_buffer_event ended)

unfoldable pub on_disconnect : ReconnEvent → ReconnEvent × List Action
unfolding free_buffer_event
on_disconnect e = free_buffer_event (record e { connected = false; connecting = false })

-- `StopTimer`, `SetOwner` and `Init`.
unfoldable pub stop_timer : ReconnEvent → ReconnEvent
stop_timer e = record e { timer_stop = true }

unfoldable pub set_owner : Bool → ReconnEvent → ReconnEvent
set_owner owner e = record e { has_owner = owner }

unfoldable pub init : Answers → ReconnEvent → ReconnEvent × List Action
unfolding connect
init answers e = connect answers e

-- `OnTimer` after `dwTM` milliseconds.
unfoldable pub on_timer : ℕ → Answers → ReconnEvent → ReconnEvent × List Action
unfolding connect
on_timer tm answers e =
    let (ping_on, tmr_ping) = on 1 e.tmr_ping in
    let (connect_on, tmr_connect) = on tm e.tmr_connect in
    let ticked = record e { tmr_ping = tmr_ping; tmr_connect = tmr_connect } in
    let pings =
      if ping_on && (e.connected && e.has_owner) then send_ping e.tmr_ping.interval ∷ [] else [] in
    let told = if e.has_owner then connect_times e.connect_num ∷ [] else [] in
    let (after, actions) = connect answers ticked in
    if e.timer_stop
    then (e, [])
    else if connect_on && (not e.connected && not e.connecting)
    then (after, pings ++ (told ++ actions))
    else (ticked, pings)
