-- ===== src/Nsock/Kept/Deadlines.antt =====
-- An event with a deadline during a run, and the list of what a round has to deliver.
use we_nmap_in_rust.Prelude.{
  ℕ, ◌≡◌, refl, List, [], ◌∷◌, ◌++◌, Option, none, some, true, false, not, ◌&&◌, ◌||◌, inl, inr,
  ◌==◌, All, arith, Bool-cases, if_both,
}
use we_nmap_in_rust.Nsock.{
  is_read, EventStatus, Pending, Pool, find_event, remove_event, modify_event,
}
use we_nmap_in_rust.Nsock.Io.{Answers}
use we_nmap_in_rust.Nsock.Loop.{
  is_due, due_events, mentions, try_found, try_events, appended, deliver_found,
}
use we_nmap_in_rust.Nsock.Once.{All-filter_list}
use we_nmap_in_rust.Nsock.Preserve.{Keeps}
use we_nmap_in_rust.Nsock.Kept.{live}

module _ (id : ℕ) where
  -- The handler has been called.
  abbrev pub HasFired : Pool → Type 0
  HasFired p = mentions id p.fired ≡ true

  pub fire-HasFired :
      (i : ℕ) (status : EventStatus) (fired : List (ℕ × EventStatus))
      → mentions id fired ≡ true
      → mentions id ((i, status) ∷ fired) ≡ true
  fire-HasFired i status fired h = if_both (λ b. b ≡ true) (i == id) refl h

  delivered-HasFired :
      (i : ℕ) (status : EventStatus) (o : Option Pending) (p : Pool)
      → HasFired p
      → HasFired (deliver_found i status o p)
  delivered-HasFired i status none p h = h
  delivered-HasFired i status (some t) p h =
      if_both HasFired (t.done || t.cancelled) h (elim (Bool-cases (is_read t.kind)) [
        | inl r ↦ rw r (fire-HasFired i status p.fired h)
        | inr r ↦ rw r (fire-HasFired i status p.fired h)
      ])

  pub HasFired-Keeps : Keeps HasFired
  HasFired-Keeps = record {
    iods = λ p iods h. h;
    queue = λ p cmds h. h;
    quit = λ p b h. h;
    buf = λ i buf p h. h;
    wbuf = λ i wbuf p h. h;
    finished =
        λ status e p m live h. if_both HasFired e.cancelled h (fire-HasFired e.id status p.fired h);
    delivered = λ i status p h. delivered-HasFired i status (find_event i p.pending) p h;
  }

  -- Every entry under the number is due at a time.
  abbrev pub Timed : ℕ → Pool → Type 0
  Timed now p = All (λ (e : Pending). (e.id == id) ≡ true → is_due now e.deadline ≡ true) p.pending

  module _ (now : ℕ) where
    abbrev TimedEvent : Pending → Type 0
    TimedEvent e = (e.id == id) ≡ true → is_due now e.deadline ≡ true

    modify-Timed :
        (i : ℕ) (f : Pending → Pending)
        → ((e : Pending) → TimedEvent e → TimedEvent (f e))
        → (xs : List Pending) → All TimedEvent xs
        → All TimedEvent (modify_event i f xs)
    modify-Timed i f keeps [] h = tt
    modify-Timed i f keeps (e ∷ xs) h =
        (if_both TimedEvent (e.id == i) (keeps e h.0) h.0, modify-Timed i f keeps xs h.1)

    remove-Timed :
        (i : ℕ) (xs : List Pending) → All TimedEvent xs → All TimedEvent (remove_event i xs)
    remove-Timed i xs h = All-filter_list TimedEvent (λ (e : Pending). not (e.id == i)) xs h

    delivered-Timed :
        (i : ℕ) (status : EventStatus) (o : Option Pending) (p : Pool)
        → Timed now p
        → Timed now (deliver_found i status o p)
    delivered-Timed i status none p h = remove-Timed i p.pending h
    delivered-Timed i status (some t) p h =
        if_both (Timed now) (t.done || t.cancelled) h (remove-Timed i p.pending h)

    pub Timed-Keeps : Keeps (Timed now)
    Timed-Keeps = record {
      iods = λ p iods h. h;
      queue = λ p cmds h. h;
      quit = λ p b h. h;
      buf = λ i buf p h.
          modify-Timed i (λ (e : Pending). record e { buf = buf }) (λ e t. t) p.pending h;
      wbuf = λ i wbuf p h.
          modify-Timed i (λ (e : Pending). record e { wbuf = wbuf }) (λ e t. t) p.pending h;
      finished = λ status e p m live h.
          if_both (Timed now) e.cancelled (remove-Timed e.id p.pending h)
            (remove-Timed e.id p.pending h);
      delivered = λ i status p h. delivered-Timed i status (find_event i p.pending) p h;
    }

    -- The first loop of a round finds an event that is due.
    pub due_events-mentions :
        (xs : List Pending)
        → live id xs ≡ true
        → All TimedEvent xs
        → mentions id (due_events now xs) ≡ true
    unfolding due_events
    due_events-mentions [] l h = absurd (ground (arith, l))
    due_events-mentions (e ∷ xs) l h = elim (Bool-cases (e.id == id)) [
      | inl same ↦
          let open_event : e.done ≡ false = ground (arith, same, l) in
          rw (open_event, h.0 same, same) refl
      | inr other ↦
          let later = due_events-mentions xs (rw other at l) h.1 in
          if_both (λ ds. mentions id ds ≡ true) (not e.done && is_due now e.deadline)
            (rw other later) later
    ]

  append-mentions :
      (ds more : List (ℕ × EventStatus)) → mentions id ds ≡ true → mentions id (ds ++ more) ≡ true
  append-mentions [] more h = absurd (ground (arith, h))
  append-mentions (d ∷ ds) more h = elim (Bool-cases (d.0 == id)) [
    | inl same ↦ rw same refl
    | inr other ↦ rw other (append-mentions ds more (rw other at h))
  ]

  appended-mentions :
      (ds : List (ℕ × EventStatus)) (i : ℕ) (status : Option EventStatus)
      → mentions id ds ≡ true
      → mentions id (appended ds i status) ≡ true
  appended-mentions ds i none h = h
  appended-mentions ds i (some status) h = append-mentions ds ((i, status) ∷ []) h

  pub try_events-mentions :
      (io : Answers) (ids : List ℕ) (ds : List (ℕ × EventStatus)) (p : Pool)
      → mentions id ds ≡ true
      → mentions id (try_events io ids ds p).0 ≡ true
  unfolding try_events
  try_events-mentions io [] ds p h = h
  try_events-mentions io (i ∷ ids) ds p h =
      let (status, tried) = try_found (find_event i p.pending) io i p in
      if_both (λ (x : List (ℕ × EventStatus) × Pool). mentions id x.0 ≡ true) (mentions i ds)
        (try_events-mentions io ids ds p h)
        (try_events-mentions io ids (appended ds i status) tried (appended-mentions ds i status h))
