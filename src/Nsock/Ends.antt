-- ===== src/Nsock/Ends.antt =====
-- How the event loop ends, and what `delete` leaves.
use we_nmap_in_rust.Prelude.{
  ℕ, ◌≤◌, ◌≡◌, refl, ap, List, [], ◌∷◌, Option, some, Bool, true, false, not, ◌&&◌, leb, eq→==,
  ◌==◌, if◌then◌else◌, All, arith, if_cases, if_both, Bool-cases, inl, inr, map, Option-cases,
}
use mathlib.Core.List.{Memᴰ}
use mathlib.Core.List.Memᴰ
use we_nmap_in_rust.Nsock.{
  LoopStatus, no_events, timed_out, Pending, Pool, find_event, remove_event, has_pending,
}
use we_nmap_in_rust.Nsock.Close.{kill_event, kill_events, event_ids, iod_ids, delete_iods, delete}
use we_nmap_in_rust.Nsock.Loop.{Round, round, past_limit, rounds, run}

-- A result of the loop that is not a lack of further rounds.
abbrev pub Returned : Option LoopStatus × Pool → Type 0
Returned x = (status : LoopStatus) × (x.0 ≡ some status)

rounds-Returned :
    (limit : ℕ) (rs : List Round) (r : Round) (p : Pool)
    → Memᴰ r rs
    → limit ≤ r.elapsed
    → Returned (rounds (some limit) rs p)
unfolding rounds
rounds-Returned limit [] r p m h = elim m [ ]
rounds-Returned limit (x ∷ rs) r p m h =
    if_both Returned (not (has_pending (round x p))) (no_events, refl)
      (if_both Returned ((round x p).quit) (LoopStatus.quit, refl)
        (if_cases Returned (leb limit x.elapsed) (λ _. (timed_out, refl))
          (λ e. elim (Memᴰ.cases_cons m) [
            | inl same ↦ absurd (ground (arith, e, h, ap (λ (r : Round). r.elapsed) same))
            | inr later ↦ rounds-Returned limit rs r (round x p) later h
          ])))

-- A run with a limit returns, with one of its statuses, once a round ends after the limit, whatever
-- the events, the commands and the sockets do.
pub run-Returned :
    (limit : ℕ) (rs : List Round) (r : Round) (p : Pool)
    → Memᴰ r rs
    → limit ≤ r.elapsed
    → Returned (run (some limit) rs p)
unfolding run
run-Returned limit rs r p m h = rounds-Returned limit rs r (record p { quit = false }) m h

rounds-no_events :
    (limit : Option ℕ) (rs : List Round) (p : Pool)
    → (rounds limit rs p).0 ≡ some no_events
    → has_pending (rounds limit rs p).1 ≡ false
unfolding rounds
rounds-no_events limit [] p e = absurd (ground (arith, e))
rounds-no_events limit (r ∷ rs) p e =
    if_cases P (not (has_pending (round r p))) (λ t _. idle (has_pending (round r p)) t)
      (λ _.
        if_both P ((round r p).quit) (λ e. absurd (ground (arith, e)))
          (if_both P (past_limit limit r.elapsed) (λ e. absurd (ground (arith, e)))
            (rounds-no_events limit rs (round r p))))
      e
  where
    P : Option LoopStatus × Pool → Type 0
    P x = x.0 ≡ some no_events → has_pending x.1 ≡ false

    idle : (b : Bool) → not b ≡ true → b ≡ false
    idle true e = absurd (ground (arith, e))
    idle false e = refl

-- Where a run says that there are no events, none is left that is not done.
pub run-no_events :
    (limit : Option ℕ) (rs : List Round) (p : Pool)
    → (run limit rs p).0 ≡ some no_events
    → has_pending (run limit rs p).1 ≡ false
unfolding run
run-no_events limit rs p e = rounds-no_events limit rs (record p { quit = false }) e

-- Whether a number is in a list.
abbrev has : ℕ → List ℕ → Bool
has id [] = false
has id (i ∷ ids) = if id == i then true else has id ids

abbrev Covered : List ℕ → List Pending → Type 0
Covered ids xs = All (λ (e : Pending). has e.id ids ≡ true) xs

Covered-remove :
    (id : ℕ) (ids : List ℕ) (xs : List Pending)
    → Covered (id ∷ ids) xs
    → Covered ids (remove_event id xs)
Covered-remove id ids [] h = tt
Covered-remove id ids (e ∷ xs) h = elim (Bool-cases (e.id == id)) [
  | inl same ↦ rw same (Covered-remove id ids xs h.1)
  | inr differ ↦ rw differ (rw differ at h.0, Covered-remove id ids xs h.1)
]

kill_event-pending : (id : ℕ) (p : Pool) → (kill_event id p).pending ≡ remove_event id p.pending
kill_event-pending id p = elim (Option-cases (find_event id p.pending)) [
  | inl gone ↦ rw gone refl
  | inr (e, is) ↦ rw is (
      if_both (λ (q : Pool). remove_event id q.pending ≡ remove_event id p.pending)
        (not e.done && not e.cancelled) refl refl)
]

kill_events-pending :
    (ids : List ℕ) (p : Pool) → Covered ids p.pending → (kill_events ids p).pending ≡ []
kill_events-pending [] p h = none_left p.pending h
  where
    none_left : (xs : List Pending) → Covered [] xs → xs ≡ []
    none_left [] h = refl
    none_left (e ∷ xs) h = absurd (ground (arith, h.0))
kill_events-pending (id ∷ ids) p h =
    kill_events-pending ids (kill_event id p)
      (rw (kill_event-pending id p) (Covered-remove id ids p.pending h))

Covered-self : (xs : List Pending) → Covered (map (λ (e : Pending). e.id) xs) xs
Covered-self [] = tt
Covered-self (e ∷ xs) = (
  rw (eq→== e.id e.id refl) refl,
  wider e.id (map (λ (e : Pending). e.id) xs) xs (Covered-self xs),
)
  where
    wider : (id : ℕ) (ids : List ℕ) (xs : List Pending) → Covered ids xs → Covered (id ∷ ids) xs
    wider id ids [] h = tt
    wider id ids (e ∷ xs) h =
        (if_cases (λ b. b ≡ true) (e.id == id) (λ _. refl) (λ _. h.0), wider id ids xs h.1)

-- After `delete` the pool has no event, and the loop is told to end.
pub delete-pending : (p : Pool) → ((delete p).pending ≡ []) × ((delete p).quit ≡ true)
unfolding delete
delete-pending p = (
  kill_events-pending (event_ids (delete_iods (iod_ids p) p)) (delete_iods (iod_ids p) p)
      (Covered-self (delete_iods (iod_ids p) p).pending),
  refl,
)
