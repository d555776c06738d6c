-- ===== src/Nsock/Once.antt =====
-- How often a handler of wnr-nsock/src/pool.rs is called: the invariant of the pool.
pub mod Operations
pub mod Steps
use we_nmap_in_rust.Prelude.{
  ℕ, ◌+◌, ◌%◌, ◌^◌, ◌≤◌, ◌<◌, ◌≡◌, ◌≢◌, refl, sym, ap, ◌∙◌, List, [], ◌∷◌, Option, none, some, Bool,
  true, false, not, ◌==◌, ==_iff, if◌then◌else◌, All, arith, if_cases, if_both, Bool-cases, inl,
  inr,
}
use mathlib.Core.Path.{subst}
use mathlib.Core.Option.{some-injective}
use we_nmap_in_rust.Prelude.Search.{find, filter_list}
use we_nmap_in_rust.Nsock.{
  EventStatus, Pending, Pool, next_id, find_event, remove_event, modify_event, insert_event,
}

abbrev pub Firing : Type 0
Firing = ℕ × EventStatus

-- The handler of an event has not been called.
abbrev pub Unfired : ℕ → List Firing → Type 0
Unfired id fired = All (λ (f : Firing). f.0 ≢ id) fired

-- No two calls for one event.
abbrev pub FiredOnce : List Firing → Type 0
FiredOnce [] = Unit
FiredOnce (f ∷ fired) = Unfired f.0 fired × FiredOnce fired

-- An event that is not done has a number given out before, and its handler has not been called.
abbrev pub Waiting : ℕ → List Firing → Pending → Type 0
Waiting counter fired e = (e.id ≤ counter) × (e.done ≡ false → Unfired e.id fired)

pub record Once (counter : ℕ) (pending : List Pending) (fired : List Firing) : Type 0 where
  pub waiting : All (Waiting counter fired) pending
  pub given_out : All (λ (f : Firing). f.0 ≤ counter) fired
  pub once : FiredOnce fired

abbrev pub IsPool : Pool → Type 0
IsPool p = Once p.event_counter p.pending p.fired

module _ {A : Type 0} where
  pub All-filter_list :
      (P : A → Type 0) (p : A → Bool) (xs : List A) → All P xs → All P (filter_list p xs)
  All-filter_list P p [] h = tt
  All-filter_list P p (x ∷ xs) h =
      if_both (All P) (p x) (h.0, All-filter_list P p xs h.1) (All-filter_list P p xs h.1)

  pub All-find :
      (P : A → Type 0) (p : A → Bool) (xs : List A) (a : A)
      → All P xs
      → find p xs ≡ some a
      → P a × (p a ≡ true)
  All-find P p [] a h e = absurd (ground (arith, e))
  All-find P p (x ∷ xs) a h found =
      if_cases (λ o. o ≡ some a → P a × (p a ≡ true)) (p x)
        (λ t e. (subst P (some-injective _ _ e) h.0, ap p (sym (some-injective _ _ e)) ∙ t))
        (λ t e. All-find P p xs a h.1 e) found

  pub All-filtered :
      (P : A → Type 0) (p : A → Bool) (xs : List A)
      → All P xs
      → All (λ a. P a × (p a ≡ true)) (filter_list p xs)
  All-filtered P p [] h = tt
  All-filtered P p (x ∷ xs) h =
      if_cases (All (λ a. P a × (p a ≡ true))) (p x) (λ t. ((h.0, t), All-filtered P p xs h.1))
        (λ _. All-filtered P p xs h.1)

module _ (counter : ℕ) (fired : List Firing) where
  -- A change of an event that keeps its number and does not revive it.
  pub modify-Waiting :
      (id : ℕ) (f : Pending → Pending)
      → ((e : Pending) → Waiting counter fired e → Waiting counter fired (f e))
      → (xs : List Pending) → All (Waiting counter fired) xs
      → All (Waiting counter fired) (modify_event id f xs)
  modify-Waiting id f keeps [] h = tt
  modify-Waiting id f keeps (e ∷ xs) h = (
    if_both (Waiting counter fired) (e.id == id) (keeps e h.0) h.0,
    modify-Waiting id f keeps xs h.1,
  )

  -- The others still wait once the handler of `id` is called, and the event is removed or done.
  module _ (id : ℕ) (status : EventStatus) where
    other :
        (e : Pending)
        → e.id ≢ id
        → Waiting counter fired e
        → Waiting counter ((id, status) ∷ fired) e
    other e ne h = (h.0, λ live. (λ same. ne (sym same), h.1 live))

    pub remove-Waiting :
        (xs : List Pending)
        → All (Waiting counter fired) xs
        → All (Waiting counter ((id, status) ∷ fired)) (remove_event id xs)
    remove-Waiting [] h = tt
    remove-Waiting (e ∷ xs) h = elim (Bool-cases (e.id == id)) [
      | inl same ↦ rw same (remove-Waiting xs h.1)
      | inr differ ↦
          let ne : e.id ≢ id = λ same. absurd (ground (arith, differ, same)) in
          rw differ (other e ne h.0, remove-Waiting xs h.1)
    ]

    pub mark-Waiting :
        (xs : List Pending)
        → All (Waiting counter fired) xs
        → All
            (Waiting counter ((id, status) ∷ fired))
            (modify_event id (λ (e : Pending). record e { cancelled = true; done = true }) xs)
    mark-Waiting [] h = tt
    mark-Waiting (e ∷ xs) h = (
      if_cases (Waiting counter ((id, status) ∷ fired)) (e.id == id)
          (λ _. (h.0.0, λ (live : true ≡ false). absurd (ground (arith, live))))
          (λ differ. other e (λ same. absurd (ground (arith, differ, same))) h.0),
      mark-Waiting xs h.1,
    )

-- A call for an event that waits.
pub Once-fire :
    (counter : ℕ) (xs ys : List Pending) (fired : List Firing) (e : Pending) (status : EventStatus)
    → Once counter xs fired
    → Waiting counter fired e
    → e.done ≡ false
    → All (Waiting counter ((e.id, status) ∷ fired)) ys
    → Once counter ys ((e.id, status) ∷ fired)
Once-fire counter xs ys fired e status h w live ws = record {
  waiting = ws;
  given_out = (w.0, h.given_out);
  once = (w.1 live, h.once);
}

grown :
    (counter : ℕ) (fired : List Firing) (xs : List Pending)
    → All (Waiting counter fired) xs
    → All (Waiting (counter + 1) fired) xs
grown counter fired [] h = tt
grown counter fired (e ∷ xs) h = ((omega (arith, h.0.0), h.0.1), grown counter fired xs h.1)

later :
    (counter : ℕ) (fired : List Firing)
    → All (λ (f : Firing). f.0 ≤ counter) fired
    → All (λ (f : Firing). f.0 ≤ counter + 1) fired
later counter [] h = tt
later counter (f ∷ fired) h = (omega (arith, h.0), later counter fired h.1)

unused :
    (counter : ℕ) (fired : List Firing)
    → All (λ (f : Firing). f.0 ≤ counter) fired
    → Unfired (counter + 1) fired
unused counter [] h = tt
unused counter (f ∷ fired) h = (λ same. absurd (omega (arith, h.0, same)), unused counter fired h.1)

-- A new event under the next number, while the numbers last.
pub Once-insert :
    (counter : ℕ) (xs : List Pending) (fired : List Firing) (e : Pending)
    → counter + 1 < 2 ^ 64
    → e.id ≡ next_id counter
    → Once counter xs fired
    → Once (next_id counter) (insert_event e xs) fired
Once-insert counter xs fired e fits is h =
    let same : next_id counter ≡ counter + 1 = omega arith in
    rw same (record {
      waiting = (
        (omega (arith, is), λ _. rw (is ∙ same) (unused counter fired h.given_out)),
        All-filter_list (Waiting (counter + 1) fired) (λ (o : Pending). not (o.id == e.id)) xs
            (grown counter fired xs h.waiting),
      );
      given_out = later counter fired h.given_out;
      once = h.once;
    })
