-- ===== src/Nsock/Nap.antt =====
-- `nearest_deadline` of wnr-nsock/src/pool.rs and the sleep between two rounds of its loop.
use we_nmap_in_rust.Prelude.{
  ℕ, ◌-◌, ◌≤◌, ◌↔◌, min, List, [], ◌∷◌, Option, none, some, not, All, arith, Bool-cases,
  Option-cases, inl, inr, IfSome, if◌then◌else◌,
}
use we_nmap_in_rust.Prelude.Search.{filter_list}
use we_nmap_in_rust.Nsock.{Pending, Pool}

-- `Iterator::filter_map` with the deadline.
abbrev pub deadlines : List Pending → List ℕ
deadlines [] = []
deadlines (e ∷ es) = let rest = deadlines es in elim e.deadline [ none ↦ rest | some d ↦ d ∷ rest ]

-- `Iterator::min`.
abbrev pub least : List ℕ → Option ℕ
least [] = none
least (d ∷ ds) = elim (least ds) [ none ↦ some d | some other ↦ some (min d other) ]

-- `min(Duration::from_millis(5))` of the time that is left, or five milliseconds.
abbrev pub within : ℕ → Option ℕ → ℕ
within now none = 5
within now (some d) = min (d - now) 5

unfoldable pub nearest_deadline : Pool → Option ℕ
nearest_deadline p = least (deadlines (filter_list (λ (e : Pending). not e.done) p.pending))

-- The milliseconds of the sleep at a time.
unfoldable pub nap : ℕ → Pool → ℕ
nap now p = within now (nearest_deadline p)

-- A sleep that ends by the deadline of an event, if the event is open and has one, and at once if the
-- deadline has passed.
abbrev pub EndsBy : ℕ → ℕ → Pending → Type 0
EndsBy now k e = if e.done then Unit else IfSome (λ d. k ≤ d - now) e.deadline

within-least :
    (now k : ℕ) (ds : List ℕ) → (k ≤ within now (least ds)) ↔ ((k ≤ 5) × All (λ d. k ≤ d - now) ds)
within-least now k [] = ((λ h. (h, tt)), (λ h. h.0))
within-least now k (d ∷ ds) = joined (least ds) (within-least now k ds)
  where
    Rest : Type 0
    Rest = All (λ d. k ≤ d - now) ds

    joined :
        (o : Option ℕ)
        → (k ≤ within now o) ↔ ((k ≤ 5) × Rest)
        → (k ≤ within now (elim o [ none ↦ some d | some other ↦ some (min d other) ]))
          ↔ ((k ≤ 5) × All (λ d. k ≤ d - now) (d ∷ ds))
    joined none ih = (
      (λ h. (omega (arith, h), (omega (arith, h), (ih.0 (omega (arith, h))).1))),
      (λ h. omega (arith, h.0, h.1.0)),
    )
    joined (some other) ih = (
      (λ h. (omega (arith, h), (omega (arith, h), (ih.0 (omega (arith, h))).1))),
      (λ h. let rest = ih.1 (h.0, h.1.1) in omega (arith, h.0, h.1.0, rest)),
    )

-- The open events with a deadline.
abbrev open_deadlines : List Pending → List ℕ
open_deadlines es = deadlines (filter_list (λ (e : Pending). not e.done) es)

module _ (now k : ℕ) where
  deadlines-EndsBy :
      (es : List Pending) → All (λ d. k ≤ d - now) (open_deadlines es) ↔ All (EndsBy now k) es
  deadlines-EndsBy [] = ((λ h. tt), (λ h. tt))
  deadlines-EndsBy (e ∷ es) =
      let (to, from) = deadlines-EndsBy es in
      elim (Bool-cases e.done) [
        | inl over ↦ rw over ((λ h. (tt, to h)), (λ h. from h.1))
        | inr live ↦ elim (Option-cases e.deadline) [
          | inl never ↦ rw (live, never) ((λ h. (tt, to h)), (λ h. from h.1))
          | inr (d, at) ↦ rw (live, at) ((λ h. (h.0, to h.1)), (λ h. (h.0, from h.1)))
        ]
      ]

  -- The loop sleeps as long as it may: at most five milliseconds, and by the deadline of every open
  -- event.
  pub nap_lem : (p : Pool) → (k ≤ nap now p) ↔ ((k ≤ 5) × All (EndsBy now k) p.pending)
  unfolding nap nearest_deadline
  nap_lem p =
      let (to, from) = within-least now k (open_deadlines p.pending) in
      let (ends, meets) = deadlines-EndsBy p.pending in
      ((λ h. ((to h).0, ends (to h).1)), (λ h. from (h.0, meets h.1)))
