-- ===== src/Nsock/Kept.antt =====
-- The events of wnr-nsock/src/pool.rs that have fired or wait, over its single moves.
pub mod Moves
pub mod Accounted
pub mod Deadlines
pub mod Fires
pub mod Cancelled
use we_nmap_in_rust.Prelude.{
  ℕ, ◌≡◌, refl, sym, ap, ◌∙◌, List, [], ◌∷◌, Option, none, some, Bool, true, false, not, ◌||◌, ◌==◌,
  if◌then◌else◌, All, arith, ◌⊎◌, Bool-cases, inl, inr, if_both,
}
use mathlib.Core.Path.{subst}
use we_nmap_in_rust.Nsock.{
  EventStatus, Pending, find_event, remove_event, modify_event, insert_event,
}
use we_nmap_in_rust.Nsock.Loop.{mentions}
use we_nmap_in_rust.Nsock.Once.{All-filter_list}

-- An event that was cancelled is done, and no other one is.
abbrev pub Marked : Pending → Type 0
Marked e = e.cancelled ≡ e.done

abbrev pub is_live : Option Pending → Bool
is_live none = false
is_live (some e) = not e.done

-- The event waits for its handler to be called.
abbrev pub live : ℕ → List Pending → Bool
live id xs = is_live (find_event id xs)

abbrev pub mark : Pending → Pending
mark e = record e { cancelled = true; done = true }

==→≡ : (a b : ℕ) → (a == b) ≡ true → a ≡ b
==→≡ a b h = ground (arith, h)

or_true : (b : Bool) → (b || true) ≡ true
or_true true = refl
or_true false = refl

module _ (id : ℕ) where
  -- The removal of another event.
  pub find_event-remove :
      (i : ℕ) (xs : List Pending)
      → (i == id) ≡ false
      → find_event id (remove_event i xs) ≡ find_event id xs
  find_event-remove i [] h = refl
  find_event-remove i (e ∷ xs) h = elim (Bool-cases (e.id == i)) [
    | inl same ↦
        let differ : (e.id == id) ≡ false = ground (arith, same, h) in
        rw (same, differ) (find_event-remove i xs h)
    | inr other ↦ elim (Bool-cases (e.id == id)) [
      | inl hit ↦ rw (other, hit) refl
      | inr miss ↦ rw (other, miss) (find_event-remove i xs h)
    ]
  ]

  live-remove :
      (i : ℕ) (xs : List Pending) → (i == id) ≡ false → live id (remove_event i xs) ≡ live id xs
  live-remove i xs h = ap is_live (find_event-remove i xs h)

  live-modify :
      (i : ℕ) (f : Pending → Pending)
      → ((e : Pending) → ((f e).id ≡ e.id) × ((f e).done ≡ e.done))
      → (xs : List Pending) → live id (modify_event i f xs) ≡ live id xs
  live-modify i f same [] = refl
  live-modify i f same (e ∷ xs) = elim (Bool-cases (e.id == i)) [
    | inl at ↦ elim (Bool-cases (e.id == id)) [
      | inl hit ↦ rw (at, (same e).0, hit, (same e).1) refl
      | inr miss ↦ rw (at, (same e).0, miss) (live-modify i f same xs)
    ]
    | inr other ↦ elim (Bool-cases (e.id == id)) [
      | inl hit ↦ rw (other, hit) refl
      | inr miss ↦ rw (other, miss) (live-modify i f same xs)
    ]
  ]

  live-mark :
      (i : ℕ) (xs : List Pending)
      → (i == id) ≡ false
      → live id (modify_event i mark xs) ≡ live id xs
  live-mark i [] h = refl
  live-mark i (e ∷ xs) h = elim (Bool-cases (e.id == i)) [
    | inl same ↦
        let differ : (e.id == id) ≡ false = ground (arith, same, h) in
        rw (same, differ) (live-mark i xs h)
    | inr other ↦ elim (Bool-cases (e.id == id)) [
      | inl hit ↦ rw (other, hit) refl
      | inr miss ↦ rw (other, miss) (live-mark i xs h)
    ]
  ]

  All-modify :
      (i : ℕ) (f : Pending → Pending)
      → ((e : Pending) → Marked e → Marked (f e))
      → (xs : List Pending) → All Marked xs
      → All Marked (modify_event i f xs)
  All-modify i f keeps [] h = tt
  All-modify i f keeps (e ∷ xs) h =
      (if_both Marked (e.id == i) (keeps e h.0) h.0, All-modify i f keeps xs h.1)

-- `Issued` is what is known of the number where it has been given out.
module _ (Issued : Type 0) (id : ℕ) where
  pub record Kept (xs : List Pending) (fired : List (ℕ × EventStatus)) : Type 0 where
    pub marked : All Marked xs
    pub here : Issued → (mentions id fired || live id xs) ≡ true

  module _ (xs : List Pending) (fired : List (ℕ × EventStatus)) (h : Kept xs fired) where
    removed : (i : ℕ) → All Marked (remove_event i xs)
    removed i = All-filter_list Marked (λ (e : Pending). not (e.id == i)) xs h.marked

    -- An event that does not wait is removed.
    pub Kept-drop : (i : ℕ) → live i xs ≡ false → Kept (remove_event i xs) fired
    Kept-drop i gone = record {
      marked = removed i;
      here = λ issued. elim (Bool-cases (i == id)) [
        | inl same ↦
            let at : live id xs ≡ false = subst (λ j. live j xs ≡ false) (==→≡ i id same) gone in
            ground (arith, at, h.here issued)
        | inr other ↦ rw (live-remove id i xs other) (h.here issued)
      ];
    }

    -- Its handler is called, and it is removed or marked.
    pub Kept-fire : (i : ℕ) (status : EventStatus) → Kept (remove_event i xs) ((i, status) ∷ fired)
    Kept-fire i status = record {
      marked = removed i;
      here = λ issued. elim (Bool-cases (i == id)) [
        | inl same ↦ rw same refl
        | inr other ↦ rw (other, live-remove id i xs other) (h.here issued)
      ];
    }

    pub Kept-mark :
        (i : ℕ) (status : EventStatus) → Kept (modify_event i mark xs) ((i, status) ∷ fired)
    Kept-mark i status = record {
      marked = All-modify id i mark (λ e m. refl) xs h.marked;
      here = λ issued. elim (Bool-cases (i == id)) [
        | inl same ↦ rw same refl
        | inr other ↦ rw (other, live-mark id i xs other) (h.here issued)
      ];
    }

    -- An event that does not wait is marked.
    pub Kept-mark_done : (i : ℕ) → live i xs ≡ false → Kept (modify_event i mark xs) fired
    Kept-mark_done i gone = record {
      marked = All-modify id i mark (λ e m. refl) xs h.marked;
      here = λ issued. elim (Bool-cases (i == id)) [
        | inl same ↦
            let at : live id xs ≡ false = subst (λ j. live j xs ≡ false) (==→≡ i id same) gone in
            ground (arith, at, h.here issued)
        | inr other ↦ rw (live-mark id i xs other) (h.here issued)
      ];
    }

    pub Kept-modify :
        (i : ℕ) (f : Pending → Pending)
        → ((e : Pending) → ((f e).id ≡ e.id) × ((f e).done ≡ e.done))
        → ((e : Pending) → Marked e → Marked (f e))
        → Kept (modify_event i f xs) fired
    Kept-modify i f same keeps = record {
      marked = All-modify id i f keeps xs h.marked;
      here = λ issued. rw (live-modify id i f same xs) (h.here issued);
    }

    -- An event that is not done comes in, under a number that was given out before or not.
    pub Kept-insert :
        (New : Type 0) (e : Pending)
        → (New → Issued ⊎ ((e.id == id) ≡ true))
        → e.done ≡ false
        → e.cancelled ≡ false
        → All Marked (insert_event e xs)
          × (New → (mentions id fired || live id (insert_event e xs)) ≡ true)
    Kept-insert New e older fresh open_event = (
      (open_event ∙ sym fresh, removed e.id),
      λ new. elim (Bool-cases (e.id == id)) [
        | inl same ↦ rw (same, fresh) (or_true (mentions id fired))
        | inr other ↦
            rw (other, live-remove id e.id xs other)
              (elim (older new) [
                | inl issued ↦ h.here issued
                | inr same ↦ absurd (ground (arith, same, other))
              ])
      ],
    )
