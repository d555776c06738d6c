-- ===== src/Nsock/Connects/Ended.antt =====
-- The end of a loop on connects, and the answers to them.
use we_nmap_in_rust.Prelude.{
  ℕ, ◌≡◌, refl, sym, ap, List, [], ◌∷◌, ◌++◌, Option, none, some, true, false, ◌==◌, length, All,
  arith, Bool-cases, inl, inr, if_both,
}
use mathlib.Core.Path.{subst}
use mathlib.Core.List.{Memᴰ}
use we_nmap_in_rust.Nsock.{
  EventStatus, LoopStatus, no_events, Pending, Pool, Cmd, connect_result, quit_cmd, find_event,
  remove_event, has_pending,
}
use we_nmap_in_rust.Nsock.Loop.{
  deliver_found, deliver, due_events, is_due, due_status, mentions, Round, drain, round, rounds,
  run,
}
use we_nmap_in_rust.Nsock.Connects.{Plain, All-Memᴰ, find-Memᴰ}
use we_nmap_in_rust.Nsock.Connects.Finish.{
  NoQuit, Waits, drain_commands-Waits, deliver_found-Waits, deliver-Waits, collect-connect,
}

abbrev pub Due : ℕ → Pending → Type 0
Due now e = is_due now e.deadline ≡ true

abbrev Mentioned : List (ℕ × EventStatus) → List Pending → Type 0
Mentioned ds xs = All (λ (e : Pending). mentions e.id ds ≡ true) xs

Mentioned-more :
    (d : ℕ × EventStatus) (ds : List (ℕ × EventStatus)) (xs : List Pending)
    → Mentioned ds xs
    → Mentioned (d ∷ ds) xs
Mentioned-more d ds [] h = tt
Mentioned-more d ds (e ∷ xs) h =
    (if_both (λ b. b ≡ true) (d.0 == e.id) refl h.0, Mentioned-more d ds xs h.1)

due_events-first :
    (now : ℕ) (e : Pending) (xs : List Pending)
    → Plain e
    → Due now e
    → due_events now (e ∷ xs) ≡ (e.id, due_status e.kind) ∷ due_events now xs
unfolding due_events
due_events-first now e xs h d = rw (h.1, d) refl

due_events-Mentioned :
    (now : ℕ) (xs : List Pending)
    → All Plain xs
    → All (Due now) xs
    → Mentioned (due_events now xs) xs
due_events-Mentioned now [] h d = tt
due_events-Mentioned now (e ∷ xs) h d =
    subst (λ ds. Mentioned ds (e ∷ xs)) (sym (due_events-first now e xs h.0 d.0))
      (
        ground arith,
        Mentioned-more (e.id, due_status e.kind) (due_events now xs) xs
            (due_events-Mentioned now xs h.1 d.1),
      )

Mentioned-remove :
    (id : ℕ) (status : EventStatus) (ds : List (ℕ × EventStatus)) (xs : List Pending)
    → Mentioned ((id, status) ∷ ds) xs
    → Mentioned ds (remove_event id xs)
Mentioned-remove id status ds [] h = tt
Mentioned-remove id status ds (e ∷ xs) h = elim (Bool-cases (e.id == id)) [
  | inl same ↦ rw same (Mentioned-remove id status ds xs h.1)
  | inr differ ↦ rw differ (ground (arith, h.0, differ), Mentioned-remove id status ds xs h.1)
]

deliver_found-pending :
    (id : ℕ) (status : EventStatus) (o : Option Pending) (p : Pool)
    → All Plain p.pending
    → find_event id p.pending ≡ o
    → (deliver_found id status o p).pending ≡ remove_event id p.pending
deliver_found-pending id status none p h e = refl
deliver_found-pending id status (some found) p h e =
    let (m, at) = find-Memᴰ (λ (y : Pending). y.id == id) p.pending found e in
    let (kind, done, kept) = All-Memᴰ Plain p.pending h m in rw (kind, done, kept) refl

NoQuit-append : (xs ys : List Cmd) → NoQuit xs → NoQuit ys → NoQuit (xs ++ ys)
NoQuit-append [] ys h k = k
NoQuit-append (connect_result iod_id res ∷ xs) ys h k = NoQuit-append xs ys h k
NoQuit-append (quit_cmd ∷ xs) ys h k = absurd h

none-Mentioned : (xs : List Pending) → Mentioned [] xs → xs ≡ []
none-Mentioned [] h = refl
none-Mentioned (e ∷ xs) h = absurd (ground (arith, h.0))

module _ (total : ℕ) (P : Pending → Type 0) where
  deliver-all :
      (ds : List (ℕ × EventStatus)) (p : Pool)
      → Waits total P p
      → Mentioned ds p.pending
      → (deliver ds p).pending ≡ []
  unfolding deliver
  deliver-all [] p h m = none-Mentioned p.pending m
  deliver-all ((id, status) ∷ ds) p h m =
      deliver-all ds (deliver_found id status (find_event id p.pending) p)
        (deliver_found-Waits total P id status (find_event id p.pending) p refl h)
        (subst (λ xs. Mentioned ds xs)
          (sym
            (deliver_found-pending id status (find_event id p.pending) p h.connecting.plain refl))
          (Mentioned-remove id status ds p.pending m))

  drain-Waits :
      (r : Round) (p : Pool) → NoQuit r.arrived → Waits total P p → Waits total P (drain r p)
  unfolding drain
  drain-Waits r p q h =
      drain_commands-Waits total P (p.queue ++ r.arrived) (record p { queue = [] })
        (NoQuit-append p.queue r.arrived h.queued q)
        (record { connecting = h.connecting; all = h.all; open_loop = h.open_loop; queued = tt })

  round-Waits :
      (r : Round) (p : Pool) → NoQuit r.arrived → Waits total P p → Waits total P (round r p)
  unfolding round
  round-Waits r p q h =
      let d = drain-Waits r p q h in
      rw (collect-connect r (drain r p) d.connecting.plain)
        (deliver-Waits total P (due_events r.now (drain r p).pending) (drain r p) d)

round-last :
    (total : ℕ) (r : Round) (p : Pool)
    → NoQuit r.arrived
    → Waits total (Due r.now) p
    → (round r p).pending ≡ []
unfolding round
round-last total r p q h =
    let d = drain-Waits total (Due r.now) r p q h in
    rw (collect-connect r (drain r p) d.connecting.plain) (
      deliver-all total (Due r.now) (due_events r.now (drain r p).pending) (drain r p) d
        (due_events-Mentioned r.now (drain r p).pending d.connecting.plain d.all))

has_pending-live :
    (e : Pending) (xs : List Pending) (p : Pool)
    → e.done ≡ false
    → has_pending (record p { pending = e ∷ xs }) ≡ true
unfolding has_pending
has_pending-live e xs p h = rw h refl

has_pending-none :
    (xs : List Pending) (p : Pool)
    → p.pending ≡ xs
    → All Plain xs
    → has_pending p ≡ false
    → p.pending ≡ []
has_pending-none [] p e h n = e
has_pending-none (x ∷ xs) p e h n = absurd (
    ground
      (arith, n, ap (λ l. has_pending (record p { pending = l })) e, has_pending-live x xs p h.0.1))

no_pending : (p : Pool) → p.pending ≡ [] → has_pending p ≡ false
unfolding has_pending
no_pending p e = ap (λ l. has_pending (record p { pending = l })) e

-- The pool after the loop: nothing waits, and as many handlers were called as events were started.
abbrev pub Answered : ℕ → Option LoopStatus × Pool → Type 0
Answered total (status, p) = (status ≡ some no_events) × (p.pending ≡ []) × (length p.fired ≡ total)

answered :
    (total : ℕ) (P : Pending → Type 0) (p : Pool)
    → Waits total P p
    → p.pending ≡ []
    → Answered total (some no_events, p)
answered total P p h e = (refl, e, omega (arith, ap length e, h.connecting.count))

rounds-Answered :
    (total : ℕ) (r : Round) (rs : List Round) (p : Pool)
    → All (λ (s : Round). NoQuit s.arrived) rs
    → Memᴰ r rs
    → Waits total (Due r.now) p
    → Answered total (rounds none rs p)
unfolding rounds
rounds-Answered total r [] p q m h = elim m [ ]
rounds-Answered total r (s ∷ rs) p q (Memᴰ.head e) h =
    let last = round-last total s p q.0 (subst (λ (x : Round). Waits total (Due x.now) p) e h) in
    rw (no_pending (round s p) last)
      (answered total (Due r.now) (round s p) (round-Waits total (Due r.now) s p q.0 h) last)
rounds-Answered total r (s ∷ rs) p q (Memᴰ.tail m) h =
    let after = round-Waits total (Due r.now) s p q.0 h in
    elim (Bool-cases (has_pending (round s p))) [
      | inl live ↦ rw (live, after.open_loop) (rounds-Answered total r rs (round s p) q.1 m after)
      | inr idle ↦ rw idle (
          answered total (Due r.now) (round s p) after
            (has_pending-none (round s p).pending (round s p) refl after.connecting.plain idle))
    ]

-- A pool of connects only, none done or cancelled, under a run without a limit to which no command to
-- quit is sent: once a round comes after all deadlines the run says that there are no events, nothing
-- waits, and as many handlers were called as events were started.
pub run-Answered :
    (total : ℕ) (r : Round) (rs : List Round) (p : Pool)
    → All (λ (s : Round). NoQuit s.arrived) rs
    → Memᴰ r rs
    → Waits total (Due r.now) p
    → Answered total (run none rs p)
unfolding run
run-Answered total r rs p q m h =
    rounds-Answered total r rs (record p { quit = false }) q m
      (record { connecting = h.connecting; all = h.all; open_loop = refl; queued = h.queued })
