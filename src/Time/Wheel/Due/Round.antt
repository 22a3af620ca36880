-- ===== src/Time/Wheel/Due/Round.antt =====
-- Round by round, a timer waits or has been called.
use libev_test.Base.{
  ℕ, ◌%◌, ◌<◌, ◌≡◌, ◌≢◌, ◌⊎◌, inl, inr, refl, sym, ◌∙◌, ◌&&◌, List, [], ◌∷◌, ◌++◌, none, some, ◌==◌,
  if◌then◌else◌, ==_iff, Bool-cases, Option-cases,
}
use libev_test.Time.Wheel.{
  TimerNode, TimerMgr, NodePool, Request, Script, finish, add_timer, del_timer, file, drop_timer,
  spent,
}
use libev_test.Time.Wheel.Valid.{Placed, IsSmall, Allowed, Anything}
use libev_test.Time.Wheel.Run.{call_back, renew, fire_one, run_script}
use libev_test.Time.Wheel.Fire.{IsPending, run_script_inv}
use libev_test.Time.Wheel.Ready.{IsMid, due_now}
use libev_test.Time.Wheel.Tick.{call_back-IsOngoing, renew-IsValid}
use libev_test.Time.Wheel.Due.{
  WasCalled, WasCalled-append_old, WasCalled-append_new, IsPending-store, add-IsPending,
  del-IsPending,
}
use libev_test.Time.Wheel.Cascade.Move.{in_tick}

abbrev Whatever : Request → Type 0
Whatever r = Unit

-- The timer waits for its tick, or has been called at it.
abbrev pub IsTracked : ℕ → ℕ → TimerMgr → Type 0
IsTracked due m w = IsPending due (w.nodes m) ⊎ WasCalled m due w.calls

-- A weaker permission.
pub Allowed-map :
    {MayDel MayDel' : ℕ → Type 0} (MayAdd MayAdd' : Request → Type 0)
    → ((r : Request) → MayAdd r → MayAdd' r)
    → ((mid : ℕ) → MayDel mid → MayDel' mid)
    → (script : Script) → Allowed MayAdd MayDel script
    → Allowed MayAdd' MayDel' script
Allowed-map MayAdd MayAdd' f g finish a = tt
Allowed-map MayAdd MayAdd' f g (add_timer r to_head next) a =
    (f r a.0, λ mid. Allowed-map MayAdd MayAdd' f g (next mid) (a.1 mid))
Allowed-map MayAdd MayAdd' f g (del_timer mid next) a =
    (g mid a.0, λ done. Allowed-map MayAdd MayAdd' f g (next done) (a.1 done))

module _ (pool : NodePool) (react : ℕ → ℕ → List ℕ → Script) (due m : ℕ)
    (spares : (mid type : ℕ) (bytes : List ℕ)
      → Allowed IsSmall (λ d. d ≢ m) (react mid type bytes)) where
  pub react-Allowed :
      (mid type : ℕ) (bytes : List ℕ) → Allowed IsSmall Anything (react mid type bytes)
  react-Allowed mid type bytes =
      Allowed-map IsSmall IsSmall (λ r h. h) (λ d h. tt) (react mid type bytes)
        (spares mid type bytes)

  run_script-IsPending :
      (mid type : ℕ) (bytes : List ℕ) (w : TimerMgr)
      → IsPending due (w.nodes m)
      → IsPending due ((run_script pool (react mid type bytes) w).nodes m)
  run_script-IsPending mid type bytes w p =
      run_script_inv pool (λ w'. IsPending due (w'.nodes m)) IsSmall (λ d. d ≢ m)
        (λ r to_head w' _ p'. add-IsPending due m pool r to_head w' p')
        (λ d w' ne p'. del-IsPending due m d w' ne p') (react mid type bytes) w
        (spares mid type bytes) p

  -- The callback of another timer leaves it waiting.
  call_back-IsPending :
      (mid : ℕ) (node : TimerNode) (w : TimerMgr)
      → mid ≢ m
      → IsPending due (w.nodes m)
      → IsPending due ((call_back pool react mid node w).nodes m)
  unfolding call_back
  call_back-IsPending mid node w ne p =
      run_script-IsPending mid node.timer_type node.bytes _
        (IsPending-store due m w.nodes mid _ ne p)

  drop-IsPending :
      (list mid : ℕ) (w : TimerMgr)
      → mid ≢ m
      → IsPending due (w.nodes m)
      → IsPending due ((drop_timer list mid w).nodes m)
  unfolding drop_timer
  drop-IsPending list mid w ne p = IsPending-store due m w.nodes mid none ne p

  renew-IsPending :
      (list mid : ℕ) (node : TimerNode) (w : TimerMgr)
      → mid ≢ m
      → IsPending due (w.nodes m)
      → IsPending due ((renew list mid node w).nodes m)
  unfolding renew file
  renew-IsPending list mid node w ne p = elim (Bool-cases (spent node)) [
    | inl e ↦ rw e (drop-IsPending list mid w ne p)
    | inr e ↦ rw e (
        IsPending-store due m (drop_timer list mid w).nodes mid _ ne
          (drop-IsPending list mid w ne p))
  ]

  fire_one-IsPending :
      (list mid : ℕ) (node : TimerNode) (w : TimerMgr)
      → mid ≢ m
      → IsPending due (w.nodes m)
      → IsPending due ((fire_one pool react list mid node w).nodes m)
  unfolding fire_one
  fire_one-IsPending list mid node w ne p =
      let called = call_back pool react mid node w in
      let q = call_back-IsPending mid node w ne p in
      elim (Bool-cases (node.is_running && spent node)) [
        | inl e ↦ rw e (drop-IsPending list mid w ne p)
        | inr e ↦ elim (Option-cases (called.nodes mid)) [
          | inl gone ↦ rw (e, gone) q
          | inr (after, stays) ↦ rw (e, stays) (renew-IsPending list mid after called ne q)
        ]
      ]

  module _ (t : ℕ) (small : t < 0x8000000000000000) where
    -- What a round adds to the trace.
    fire_one-calls :
        (mid : ℕ) (node : TimerNode) (w : TimerMgr)
        → IsMid t w
        → w.nodes mid ≡ some node
        → node.lst_offset ≡ t % 256
        → (fire_one pool react (t % 256) mid node w).calls ≡ (
            if node.is_running && spent node
            then w.calls
            else w.calls ++ record { tick = t; mid = mid; due = node.expires } ∷ [])
    unfolding fire_one drop_timer
    fire_one-calls mid node w i here in_list =
        let called = call_back pool react mid node w in
        let o =
          call_back-IsOngoing pool react react-Allowed t small mid node w i.valid i.clock here in
        elim (Bool-cases (node.is_running && spent node)) [
          | inl e ↦ rw e refl
          | inr e ↦ elim (Option-cases (called.nodes mid)) [
            | inl gone ↦ absurd (rw gone at o.running)
            | inr (after, stays) ↦
                let same : after.lst_offset ≡ t % 256 = (rw stays at o.running).1 ∙ in_list in
                let r =
                  renew-IsValid pool react react-Allowed t small mid after called o.valid o.clock
                    stays in
                rw (e, stays, sym same) (r.2 ∙ o.trace)
          ]
        ]

    old_call :
        (mid : ℕ) (node : TimerNode) (w : TimerMgr)
        → IsMid t w
        → w.nodes mid ≡ some node
        → node.lst_offset ≡ t % 256
        → WasCalled m due w.calls
        → WasCalled m due (fire_one pool react (t % 256) mid node w).calls
    old_call mid node w i here in_list c =
        rw (fire_one-calls mid node w i here in_list)
          (elim (Bool-cases (node.is_running && spent node)) [
            | inl e ↦ rw e c
            | inr e ↦ rw e (WasCalled-append_old m due w.calls _ c)
          ])

    new_call :
        (node : TimerNode) (w : TimerMgr)
        → IsMid t w
        → w.nodes m ≡ some node
        → node.lst_offset ≡ t % 256
        → IsPending due (some node)
        → WasCalled m due (fire_one pool react (t % 256) m node w).calls
    new_call node w i here in_list p =
        let place : Placed (in_tick t) (some node) = rw here at (i.valid.placed m) in
        let now = due_now t node.expires (rw in_list at place.0) in
        rw (fire_one-calls m node w i here in_list, p.0)
          (WasCalled-append_new m due w.calls _ (refl, p.1, sym now ∙ p.1))

    pub fire_one-IsTracked :
        (mid : ℕ) (node : TimerNode) (w : TimerMgr)
        → IsMid t w
        → w.nodes mid ≡ some node
        → node.lst_offset ≡ t % 256
        → IsTracked due m w
        → IsTracked due m (fire_one pool react (t % 256) mid node w)
    fire_one-IsTracked mid node w i here in_list tracked = elim tracked [
      | inr c ↦ inr (old_call mid node w i here in_list c)
      | inl p ↦ elim (Bool-cases (mid == m)) [
        | inr other ↦
            inl (
              fire_one-IsPending (t % 256) mid node w (λ same. cc (other, (==_iff mid m).1 same)) p)
        | inl same ↦
            let e = (==_iff mid m).0 same in
            let here_m : w.nodes m ≡ some node = rw (sym e) here in
            rw e (inr (new_call node w i here_m in_list (rw here_m at p)))
      ]
    ]
