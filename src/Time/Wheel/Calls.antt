-- ===== src/Time/Wheel/Calls.antt =====
-- `add` and `del` of timer_wheel.cpp as the program sees them between two ticks.
use libev_test.Base.{
  occurs, ℕ, ◌+◌, ◌%◌, ◌<◌, ◌≤◌, ◌≡◌, ◌≢◌, ◌⊎◌, inl, inr, refl, sym, ◌∙◌, arith, Bool, true, false,
  ◌&&◌, Option, none, some, ltb, leb, ◌==◌, if◌then◌else◌, ==_iff, Bool-cases, Option-cases, length,
}
use libev_test.Time.Wheel.{
  TimerNode, TimerMgr, NodePool, Request, store, file, drop_timer, add, new_node,
}
use libev_test.Time.Wheel.Place.{find_handle_list-Fits}
use libev_test.Time.Wheel.Valid.{IsSmall, at_tick}
use libev_test.Time.Wheel.Edit.{file-IsValid, drop_timer-IsValid, rewrite-IsValid}
use libev_test.Time.Wheel.Run.{del, del_node, is_finish}
use libev_test.Time.Wheel.Fire.{IsPending}
use libev_test.Time.Wheel.Ready.{IsReady}

-- What `add` asks of a request: little data, a type with a callback, an end or an interval, and a
-- node of the pool.
abbrev pub IsWanted : NodePool → Request → TimerMgr → Type 0
IsWanted pool r w =
    (length r.bytes % 0x100000000 ≤ 256)
    × (0 < r.timer_type)
    × (r.timer_type < 1023)
    × ((0 < r.interval) ⊎ (0 < r.num))
    × (w.timeout_funcs r.timer_type ≡ true)
    × (mid : ℕ) × (pool.alloc w.nodes ≡ some mid)

nonzero_of : (a b : ℕ) → (a == 0 && b == 0) ≡ false → (0 < a) ⊎ (0 < b)
nonzero_of a b h = elim (Bool-cases (a == 0)) [
  | inl e ↦ inr (ground arith)
  | inr e ↦ inl (ground arith)
]

abbrev IsChecked : NodePool → Request → Bool → TimerMgr → Type 0
IsChecked pool r to_head w =
    ((¬ IsWanted pool r w) × (add pool r to_head w ≡ (none, w)))
    ⊎ ((wanted : IsWanted pool r w) × (add pool r to_head w
          ≡ (some wanted.5, file to_head wanted.5 (new_node w.cur_tick r) w)))

add-IsChecked :
    (pool : NodePool) (r : Request) (to_head : Bool) (w : TimerMgr) → IsChecked pool r to_head w
unfolding add
add-IsChecked pool r to_head w = elim (Bool-cases (leb (length r.bytes % 0x100000000) 256)) [
  | inr b ↦ inl (λ wanted. ground arith, rw b refl)
  | inl b ↦ elim (Bool-cases (ltb 0 r.timer_type && ltb r.timer_type 1023)) [
    | inr c ↦ inl (λ wanted. ground arith, rw (b, c) refl)
    | inl c ↦ elim (Bool-cases (r.interval == 0 && r.num == 0)) [
      | inl d ↦ inl (λ wanted. ground arith, rw (b, c, d) refl)
      | inr d ↦ elim (Bool-cases (w.timeout_funcs r.timer_type)) [
        | inr f ↦
            inl (λ wanted. (let no : true ≡ false = sym wanted.4 ∙ f in cc), rw (b, c, d, f) refl)
        | inl f ↦ elim (Option-cases (pool.alloc w.nodes)) [
          | inl e ↦ inl (λ wanted. (let no = sym wanted.6 ∙ e in cc), rw (b, c, d, f, e) refl)
          | inr (mid, e) ↦ inr (
            (ground arith, ground arith, ground arith, nonzero_of r.interval r.num d, f, mid, e),
            rw (b, c, d, f, e) refl,
          )
        ]
      ]
    ]
  ]
]

-- The wheel before and after a call that may change the timer `mid`.
abbrev pub IsLocal : ℕ → TimerMgr → TimerMgr → Type 0
IsLocal mid w w' =
    IsReady w'
    × ((m : ℕ) → m ≢ mid → w'.nodes m ≡ w.nodes m)
    × (w'.calls ≡ w.calls)
    × (w'.cur_tick ≡ w.cur_tick)

store_other :
    (nodes : ℕ → Option TimerNode) (mid m : ℕ) (o : Option TimerNode)
    → m ≢ mid
    → store nodes mid o m ≡ nodes m
store_other nodes mid m o ne = ground arith

-- On a wheel that is ready, below tick 2^63, with a delay below 2^32 and an interval below 2^31:
-- `add` throws and changes nothing if the data, the type, the repetition, the callback or the pool
-- forbids it, and else answers with the id of a node that was free and now waits for the current
-- tick plus the delay; the wheel stays ready, and the other timers, the trace and the tick are as
-- they were.
pub add_lem :
    (pool : NodePool) (r : Request) (to_head : Bool) (w : TimerMgr)
    → IsReady w
    → w.cur_tick < 0x8000000000000000
    → IsSmall r
    → let added = add pool r to_head w in
      ((¬ IsWanted pool r w) × (added ≡ (none, w)))
      ⊎ ((wanted : IsWanted pool r w) × (added.0 ≡ some wanted.5)
          × (w.nodes wanted.5 ≡ none)
          × IsPending (w.cur_tick + r.first) (added.1.nodes wanted.5)
          × IsLocal wanted.5 w added.1)
unfolding file
add_lem pool r to_head w ready low small = elim (add-IsChecked pool r to_head w) [
  | inl no_timer ↦ inl no_timer
  | inr (wanted, made) ↦
      let fresh = pool.alloc_fresh w.nodes wanted.5 wanted.6 in
      let new = new_node w.cur_tick r in
      let due : new.expires ≡ w.cur_tick + r.first = omega arith in
      inr (
        wanted,
        rw made refl,
        fresh.0,
        rw (made, (==_iff wanted.5 wanted.5).1 refl) (refl, due),
        rw made (
          record {
            valid =
                file-IsValid (at_tick w.cur_tick) w wanted.5 new to_head ready.valid fresh.0 fresh.1
                  (find_handle_list-Fits w.cur_tick new.expires (omega arith) (omega arith) low
                    (at_tick w.cur_tick) (omega arith))
                  small.1;
            punctual = ready.punctual;
          },
          λ m ne. store_other w.nodes wanted.5 m (some _) ne,
          refl,
          refl,
        ),
      )
]

-- What `del` does to a timer: a running one is to finish, another one leaves every list.
abbrev pub IsDeleted : ℕ → TimerNode → TimerMgr → Type 0
IsDeleted mid node w' =
    ((node.is_running ≡ true) × (is_finish mid w' ≡ true))
    ⊎ ((node.is_running ≡ false)
        × (w'.nodes mid ≡ none)
        × ((list : ℕ) → occurs mid (w'.vec list) ≡ 0))

del_node-IsDeleted :
    (mid : ℕ) (node : TimerNode) (w : TimerMgr)
    → IsReady w
    → w.nodes mid ≡ some node
    → IsDeleted mid node (del_node mid node w) × IsLocal mid w (del_node mid node w)
unfolding del_node drop_timer is_finish
del_node-IsDeleted mid node w ready here =
    let self = (==_iff mid mid).1 refl in
    elim (Bool-cases node.is_running) [
      | inl e ↦
          rw (e, if◌then◌else◌)
            (
              inl (refl, rw (self, is_finish) refl),
              (
                record {
                  valid =
                      rewrite-IsValid (at_tick w.cur_tick) w mid node _ w.calls ready.valid here
                        refl refl refl;
                  punctual = ready.punctual;
                },
                λ m ne. store_other w.nodes mid m (some _) ne,
                refl,
                refl,
              ),
            )
      | inr e ↦
          let valid = drop_timer-IsValid (at_tick w.cur_tick) w mid node ready.valid here in
          rw (e, if◌then◌else◌)
            (
              inr (refl, rw self refl, λ list. rw self at (valid.listed mid list)),
              (
                record { valid = valid; punctual = ready.punctual },
                λ m ne. store_other w.nodes mid m none ne,
                refl,
                refl,
              ),
            )
    ]

-- On a wheel that is ready, `del` answers 0 for id 0 and -1 for an id not in use, changing nothing.
-- For a timer in use it answers 0: a running one counts as finished from then on, and any other is
-- in no list and not in use any more. The wheel stays ready, and the other timers, the trace and
-- the tick are as they were.
pub del_lem :
    (mid : ℕ) (w : TimerMgr)
    → IsReady w
    → ((mid ≡ 0) × (del mid w ≡ (true, w)))
      ⊎ ((0 < mid) × (w.nodes mid ≡ none) × (del mid w ≡ (false, w)))
      ⊎ ((node : TimerNode) × (w.nodes mid ≡ some node)
          × ((del mid w).0 ≡ true)
          × IsDeleted mid node (del mid w).1
          × IsLocal mid w (del mid w).1)
unfolding del
del_lem mid w ready = elim (Bool-cases (mid == 0)) [
  | inl e ↦ inl ((==_iff mid 0).0 e, rw e refl)
  | inr e ↦ elim (Option-cases (w.nodes mid)) [
    | inl gone ↦ inr (inl (ground arith, gone, rw (e, gone) refl))
    | inr (node, here) ↦
        let d = del_node-IsDeleted mid node w ready here in
        inr (inr (node, here, rw (e, here) refl, rw (e, here) d.0, rw (e, here) d.1))
  ]
]

pub add-IsReady :
    (pool : NodePool) (r : Request) (to_head : Bool) (w : TimerMgr)
    → IsReady w
    → w.cur_tick < 0x8000000000000000
    → IsSmall r
    → IsReady (add pool r to_head w).1
add-IsReady pool r to_head w ready low small = elim (add_lem pool r to_head w ready low small) [
  | inl h ↦ rw h.1 ready
  | inr h ↦ h.4.0
]
