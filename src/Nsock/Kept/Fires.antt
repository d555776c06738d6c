-- ===== src/Nsock/Kept/Fires.antt =====
-- A round of the loop of wnr-nsock/src/pool.rs at the deadline of an event.
use we_nmap_in_rust.Prelude.{
  ℕ, ◌≡◌, refl, sym, ap, ◌∙◌, List, [], ◌∷◌, Option, none, some, Bool, true, false, not, ◌||◌, ◌⊎◌,
  inl, inr, ◌==◌, ==_iff, if◌then◌else◌, All, arith, Bool-cases, if_both, if_cases, length, ◌<◌,
  ◌≤◌, ◌^◌,
}
use mathlib.Core.Path.{subst}
use mathlib.Core.Option.{some-injective}
use mathlib.Core.List.{Memᴰ}
use mathlib.Core.List.Memᴰ
use we_nmap_in_rust.Nsock.{
  is_read, new, EventStatus, LoopStatus, no_events, timed_out, Pending, Pool, find_event,
  has_pending,
}
use we_nmap_in_rust.Nsock.Loop.{
  due_events, mentions, deliver_found, deliver, Round, live_ids, collect, drain, round, past_limit,
  rounds, run,
}
use we_nmap_in_rust.Nsock.Connects.{All-Memᴰ, find-Memᴰ}
use we_nmap_in_rust.Nsock.Preserve.{drain-keeps}
use we_nmap_in_rust.Nsock.Preserve.Runs.{collect-keeps, deliver-keeps, round-keeps, rounds-keeps}
use we_nmap_in_rust.Nsock.Kept.{Marked, is_live, live}
use we_nmap_in_rust.Nsock.Operations.{Op, perform_all}
use we_nmap_in_rust.Nsock.Kept.Accounted.{Notifies, all-Accounted}
use we_nmap_in_rust.Nsock.Kept.Moves.{InPool, InPool-Keeps}
use we_nmap_in_rust.Nsock.Kept.Deadlines.{
  HasFired, HasFired-Keeps, Timed, Timed-Keeps, due_events-mentions, try_events-mentions,
}

module _ (id : ℕ) where
  -- The event has fired or waits.
  abbrev pub Lives : Pool → Type 0
  Lives p = InPool Unit id p

  -- An event that waits is fired by its delivery.
  deliver_found-fires :
      (status : EventStatus) (o : Option Pending) (p : Pool)
      → find_event id p.pending ≡ o
      → Lives p
      → mentions id p.fired ≡ false
      → HasFired id (deliver_found id status o p)
  deliver_found-fires status none p e h unfired =
      absurd (ground (arith, h.here tt, unfired, ap is_live e))
  deliver_found-fires status (some t) p e h unfired =
      let open_event : t.done ≡ false = ground (arith, h.here tt, unfired, ap is_live e) in
      let (m, at) = find-Memᴰ (λ (y : Pending). y.id == id) p.pending t e in
      let same : t.cancelled ≡ false = All-Memᴰ Marked p.pending h.marked m ∙ open_event in
      let self : (id == id) ≡ true = ground arith in
      elim (Bool-cases (is_read t.kind)) [
        | inl r ↦ rw (open_event, same, r, self) refl
        | inr r ↦ rw (open_event, same, r, self) refl
      ]

  deliver-fires :
      (ds : List (ℕ × EventStatus)) (p : Pool)
      → Lives p
      → mentions id ds ≡ true
      → HasFired id (deliver ds p)
  unfolding deliver
  deliver-fires [] p h m = absurd (ground (arith, m))
  deliver-fires ((i, status) ∷ ds) p h m = elim (Bool-cases (i == id)) [
    | inl same ↦
        deliver-keeps (HasFired id) (HasFired-Keeps id) ds
          (deliver_found i status (find_event i p.pending) p)
          (subst (λ j. HasFired id (deliver_found j status (find_event j p.pending) p))
            (sym ((==_iff i id).0 same)) now_fired)
    | inr other ↦
        deliver-fires ds (deliver_found i status (find_event i p.pending) p)
          ((InPool-Keeps Unit id).delivered i status p h) (rw other at m)
  ]
    where
      now_fired : HasFired id (deliver_found id status (find_event id p.pending) p)
      now_fired = elim (Bool-cases (mentions id p.fired)) [
        | inl fired ↦ (HasFired-Keeps id).delivered id status p fired
        | inr unfired ↦ deliver_found-fires status (find_event id p.pending) p refl h unfired
      ]

  collect-mentions :
      (r : Round) (p : Pool)
      → live id p.pending ≡ true
      → Timed id r.now p
      → mentions id (collect r p).0 ≡ true
  unfolding collect
  collect-mentions r p l t =
      try_events-mentions id r.answers (live_ids p) (due_events r.now p.pending) p
        (due_events-mentions id r.now p.pending l t)

  round-fires : (r : Round) (p : Pool) → Lives p → Timed id r.now p → HasFired id (round r p)
  unfolding round
  round-fires r p h t = elim (Bool-cases (mentions id (drain r p).fired)) [
    | inl fired ↦
        deliver-keeps (HasFired id) (HasFired-Keeps id) (collect r (drain r p)).0
          (collect r (drain r p)).1
          (collect-keeps (HasFired id) (HasFired-Keeps id) r (drain r p) fired)
    | inr unfired ↦
        deliver-fires (collect r (drain r p)).0 (collect r (drain r p)).1
          (collect-keeps Lives (InPool-Keeps Unit id) r (drain r p) after)
          (collect-mentions r (drain r p)
            (waits (mentions id (drain r p).fired) (live id (drain r p).pending) unfired
              (after.here tt))
            (drain-keeps (Timed id r.now) (Timed-Keeps id r.now) r p t))
  ]
    where
      after : Lives (drain r p)
      after = drain-keeps Lives (InPool-Keeps Unit id) r p h

      waits : (a b : Bool) → a ≡ false → (a || b) ≡ true → b ≡ true
      waits a b e h = ground (arith, e, h)

  live-has_pending :
      (xs : List Pending) (p : Pool)
      → live id xs ≡ true
      → has_pending (record p { pending = xs }) ≡ true
  unfolding has_pending
  live-has_pending [] p h = absurd (ground (arith, h))
  live-has_pending (e ∷ xs) p h = elim (Bool-cases e.done) [
    | inl over ↦ rw over (live-has_pending xs p (rest (e.id == id) over h))
    | inr open_event ↦ rw open_event refl
  ]
    where
      rest :
          (hit : Bool)
          → e.done ≡ true
          → is_live (if hit then some e else find_event id xs) ≡ true
          → live id xs ≡ true
      rest true over h = absurd (ground (arith, over, h))
      rest false over h = h

  idle-HasFired : (p : Pool) → Lives p → has_pending p ≡ false → HasFired id p
  idle-HasFired p h idle = elim (Bool-cases (live id p.pending)) [
    | inl l ↦ absurd (ground (arith, idle, live-has_pending p.pending p l))
    | inr dead ↦ ground (arith, dead, h.here tt)
  ]

  -- The run came to the end of its rounds, or of the events.
  abbrev pub RanOn : Option LoopStatus → Type 0
  RanOn o = (o ≡ none) ⊎ (o ≡ some no_events)

  stopped : (s : LoopStatus) → (s ≡ no_events → ⊥) → RanOn (some s) → ⊥
  stopped s ne (inl e) = absurd (ground (arith, e))
  stopped s ne (inr e) = ne (some-injective _ _ e)

  rounds-fires :
      (limit : Option ℕ) (r : Round) (rs : List Round) (p : Pool)
      → Memᴰ r rs
      → Lives p
      → Timed id r.now p
      → RanOn (rounds limit rs p).0
      → HasFired id (rounds limit rs p).1
  unfolding rounds
  rounds-fires limit r [] p m h t = elim m [ ]
  rounds-fires limit r (s ∷ rs) p m h t =
      if_cases Q (not (has_pending (round s p)))
        (λ idle _. idle-HasFired (round s p) after (flip (has_pending (round s p)) idle))
        (λ _.
          if_both Q ((round s p).quit) (λ o. absurd (stopped LoopStatus.quit (λ e. cc) o))
            (if_both Q (past_limit limit s.elapsed) (λ o. absurd (stopped timed_out (λ e. cc) o))
              (elim (Memᴰ.cases_cons m) [
                | inl same ↦ λ _.
                    rounds-keeps (HasFired id) (HasFired-Keeps id) limit rs (round s p)
                      (round-fires s p h (subst (λ (x : Round). Timed id x.now p) same t))
                | inr later ↦
                    rounds-fires limit r rs (round s p) later after
                      (round-keeps (Timed id r.now) (Timed-Keeps id r.now) s p t)
              ])))
    where
      Q : Option LoopStatus × Pool → Type 0
      Q x = RanOn x.0 → HasFired id x.1

      after : Lives (round s p)
      after = round-keeps Lives (InPool-Keeps Unit id) s p h

      flip : (b : Bool) → not b ≡ true → b ≡ false
      flip true e = absurd (ground (arith, e))
      flip false e = refl

-- An event that was started from a new pool, by fewer than 2 ^ 64 operations without a cancellation
-- that is not notified: if every entry under its number is due at the time of a round of a run, and
-- that run is not ended by a command to quit or by its limit, its handler has been called after the
-- run.
pub run-HasFired :
    (udata : ℕ) (ops : List Op) (id : ℕ) (limit : Option ℕ) (r : Round) (rs : List Round)
    → length ops < 2 ^ 64
    → All Notifies ops
    → 1 ≤ id
    → id ≤ (perform_all ops (new udata)).event_counter
    → Timed id r.now (perform_all ops (new udata))
    → Memᴰ r rs
    → RanOn id (run limit rs (perform_all ops (new udata))).0
    → HasFired id (run limit rs (perform_all ops (new udata))).1
unfolding run
run-HasFired udata ops id limit r rs room n positive issued t m o =
    let p = perform_all ops (new udata) in
    let kept = all-Accounted udata ops room n id in
    rounds-fires id limit r rs (record p { quit = false }) m
      (record { marked = kept.marked; here = λ _. kept.here (positive, issued) }) t o
