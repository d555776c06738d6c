-- ===== src/Nsock/Kept/Cancelled.antt =====
-- The entry of a cancelled event in the map of wnr-nsock/src/pool.rs.
use we_nmap_in_rust.Prelude.{
  ℕ, ◌≡◌, refl, ap, ◌∙◌, List, [], ◌∷◌, Option, none, some, Bool, true, false, not, ◌&&◌, ◌||◌,
  ◌==◌, ==_iff, All, arith, Bool-cases, inl, inr, if_both, if_cases, Option-cases,
}
use mathlib.Core.Path.{subst}
use we_nmap_in_rust.Nsock.{EventStatus, Pending, Pool, find_event, remove_event, modify_event}
use we_nmap_in_rust.Nsock.Loop.{deliver_found, Round, run}
use we_nmap_in_rust.Nsock.Close.{cancel}
use we_nmap_in_rust.Nsock.Once.{All-filter_list}
use we_nmap_in_rust.Nsock.Connects.{All-Memᴰ, find-Memᴰ}
use we_nmap_in_rust.Nsock.Preserve.{Keeps}
use we_nmap_in_rust.Nsock.Preserve.Runs.{run-keeps}
use we_nmap_in_rust.Nsock.Kept.{mark, find_event-remove}

abbrev is_found : Option Pending → Bool
is_found none = false
is_found (some e) = true

module _ (id : ℕ) where
  -- An entry under the number that is done.
  abbrev Over : Pending → Type 0
  Over e = (e.id == id) ≡ true → e.done ≡ true

  record Stays (xs : List Pending) : Type 0 where
    over : All Over xs
    found : is_found (find_event id xs) ≡ true

  Stays-remove :
      (i : ℕ) (xs : List Pending) → (i == id) ≡ false → Stays xs → Stays (remove_event i xs)
  Stays-remove i xs other h = record {
    over = All-filter_list Over (λ (e : Pending). not (e.id == i)) xs h.over;
    found = ap is_found (find_event-remove id i xs other) ∙ h.found;
  }

  modify-found :
      (i : ℕ) (f : Pending → Pending)
      → ((e : Pending) → (f e).id ≡ e.id)
      → (xs : List Pending)
      → is_found (find_event id (modify_event i f xs)) ≡ is_found (find_event id xs)
  modify-found i f same [] = refl
  modify-found i f same (e ∷ xs) = elim (Bool-cases (e.id == i)) [
    | inl at ↦ elim (Bool-cases (e.id == id)) [
      | inl hit ↦ rw (at, same e, hit) refl
      | inr miss ↦ rw (at, same e, miss) (modify-found i f same xs)
    ]
    | inr other ↦ elim (Bool-cases (e.id == id)) [
      | inl hit ↦ rw (other, hit) refl
      | inr miss ↦ rw (other, miss) (modify-found i f same xs)
    ]
  ]

  modify-Over :
      (i : ℕ) (f : Pending → Pending)
      → ((e : Pending) → Over e → Over (f e))
      → (xs : List Pending) → All Over xs
      → All Over (modify_event i f xs)
  modify-Over i f keeps [] h = tt
  modify-Over i f keeps (e ∷ xs) h =
      (if_both Over (e.id == i) (keeps e h.0) h.0, modify-Over i f keeps xs h.1)

  delivered-Stays :
      (i : ℕ) (status : EventStatus) (o : Option Pending) (p : Pool)
      → find_event i p.pending ≡ o
      → Stays p.pending
      → Stays (deliver_found i status o p).pending
  delivered-Stays i status none p e h = elim (Bool-cases (i == id)) [
    | inl same ↦
        let gone : is_found (find_event id p.pending) ≡ false =
          ap is_found (subst (λ j. find_event j p.pending ≡ none) ((==_iff i id).0 same) e) in
        absurd (ground (arith, gone, h.found))
    | inr other ↦ Stays-remove i p.pending other h
  ]
  delivered-Stays i status (some t) p e h =
      if_cases (λ (q : Pool). Stays q.pending) (t.done || t.cancelled) (λ _. h)
        (λ live. Stays-remove i p.pending (another live) h)
    where
      not_over : (a b : Bool) → (a || b) ≡ false → a ≡ true → ⊥
      not_over a b e h = ground (arith, e, h)

      another : (t.done || t.cancelled) ≡ false → (i == id) ≡ false
      another live = elim (Bool-cases (i == id)) [
        | inr other ↦ other
        | inl same ↦
            let (m, at) = find-Memᴰ (λ (y : Pending). y.id == i) p.pending t e in
            absurd (
              not_over t.done t.cancelled live (
                All-Memᴰ Over p.pending h.over m
                  (subst (λ j. (t.id == j) ≡ true) ((==_iff i id).0 same) at)))
      ]

  Stays-Keeps : Keeps (λ (p : Pool). Stays p.pending)
  Stays-Keeps = record {
    iods = λ p iods h. h;
    queue = λ p cmds h. h;
    quit = λ p b h. h;
    buf = λ i buf p h. record {
      over = modify-Over i (λ (e : Pending). record e { buf = buf }) (λ e o. o) p.pending h.over;
      found =
          modify-found i (λ (e : Pending). record e { buf = buf }) (λ e. refl) p.pending ∙ h.found;
    };
    wbuf = λ i wbuf p h. record {
      over = modify-Over i (λ (e : Pending). record e { wbuf = wbuf }) (λ e o. o) p.pending h.over;
      found =
          modify-found i (λ (e : Pending). record e { wbuf = wbuf }) (λ e. refl) p.pending
          ∙ h.found;
    };
    finished = λ status e p m live h.
        let other : (e.id == id) ≡ false = still e live (All-Memᴰ Over p.pending h.over m) in
        if_both (λ (q : Pool). Stays q.pending) e.cancelled (Stays-remove e.id p.pending other h)
          (Stays-remove e.id p.pending other h);
    delivered = λ i status p h. delivered-Stays i status (find_event i p.pending) p refl h;
  }
    where
      still : (e : Pending) → e.done ≡ false → Over e → (e.id == id) ≡ false
      still e live o = elim (Bool-cases (e.id == id)) [
        | inl same ↦ absurd (ground (arith, live, o same))
        | inr other ↦ other
      ]

-- The event is in the map, and done.
abbrev pub HasDone : ℕ → Pool → Type 0
HasDone id p = (e : Pending) × (find_event id p.pending ≡ some e) × (e.done ≡ true)

module _ (id : ℕ) where
  marked-Over : (xs : List Pending) → All (Over id) (modify_event id mark xs)
  marked-Over [] = tt
  marked-Over (e ∷ xs) = (
    if_cases (Over id) (e.id == id) (λ _ _. refl)
        (λ other same. absurd (ground (arith, other, same))),
    marked-Over xs,
  )

  cancelled-Stays :
      (notify : Bool) (p : Pool) (e : Pending)
      → find_event id p.pending ≡ some e
      → Stays id (cancel id notify p).1.pending
  unfolding cancel
  cancelled-Stays notify p e is =
      let marked : Stays id (modify_event id mark p.pending) = record {
        over = marked-Over p.pending;
        found = modify-found id id mark (λ e. refl) p.pending ∙ ap is_found is;
      } in
      rw is (if_both (λ (q : Pool). Stays id q.pending) (notify && not e.done) marked marked)

  Stays-HasDone : (p : Pool) → Stays id p.pending → HasDone id p
  Stays-HasDone p h = elim (Option-cases (find_event id p.pending)) [
    | inl gone ↦ absurd (ground (arith, h.found, ap is_found gone))
    | inr (e, is) ↦
        let (m, at) = find-Memᴰ (λ (y : Pending). y.id == id) p.pending e is in
        (e, is, All-Memᴰ (Over id) p.pending h.over m at)
  ]

  -- An event that is cancelled, with or without a notification, stays in the map after any run of the
  -- loop, done, whatever the commands, the times and the sockets do.
  pub cancel-HasDone :
      (notify : Bool) (limit : Option ℕ) (rs : List Round) (p : Pool) {e : Pending}
      → find_event id p.pending ≡ some e
      → HasDone id (run limit rs (cancel id notify p).1).1
  cancel-HasDone notify limit rs p {e} is = Stays-HasDone (run limit rs (cancel id notify p).1).1 (
      run-keeps (λ (p : Pool). Stays id p.pending) (Stays-Keeps id) limit rs (cancel id notify p).1
        (cancelled-Stays notify p e is))
