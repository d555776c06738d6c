-- ===== src/Table.antt =====
-- The tables of wnr-dnet/src/arp.rs and wnr-dnet/src/route.rs: a list of entries under an address.
use we_nmap_in_rust.Prelude.{
  ◌≡◌, ◌≢◌, refl, sym, ap, List, [], ◌∷◌, Option, none, some, Bool, true, false, not, if◌then◌else◌,
  All, if_cases, arith, Bool-cases, inl, inr,
}
use we_nmap_in_rust.Prelude.Search.{find, filter_list, update_or_push}
use we_nmap_in_rust.Addr.{Addr, addr_eq}
use we_nmap_in_rust.Addr.Order.{addr_eq_iff}

pub addr_eq_refl : (a : Addr) → addr_eq a a ≡ true
addr_eq_refl a = (addr_eq_iff a a).1 refl

addr_eq-ne : (a b : Addr) → a ≢ b → addr_eq a b ≡ false
addr_eq-ne a b ne = elim (Bool-cases (addr_eq a b)) [
  | inl e ↦ absurd (ne ((addr_eq_iff a b).0 e))
  | inr e ↦ e
]

module _ {A : Type 0} (key : A → Addr) where
  -- The test `e.key == k`.
  abbrev pub has_key : Addr → A → Bool
  has_key k e = addr_eq (key e) k

  -- No two entries under one address.
  abbrev pub Absent : Addr → List A → Type 0
  Absent k xs = All (λ e. key e ≢ k) xs

  abbrev pub DistinctKeys : List A → Type 0
  DistinctKeys [] = Unit
  DistinctKeys (x ∷ xs) = Absent (key x) xs × DistinctKeys xs

  -- A lookup after an update: `f` turns an entry under the address of `new` into `new`.
  module _ (f : A → A) (new : A) (replaces : (e : A) → key e ≡ key new → f e ≡ new) where
    pub find-update :
        (k : Addr) (xs : List A)
        → find (has_key k) (update_or_push (has_key (key new)) f new xs)
          ≡ (if addr_eq (key new) k then some new else find (has_key k) xs)
    find-update k [] = refl
    find-update k (x ∷ xs) =
        if_cases
          (λ ys. find (has_key k) ys ≡ (
            if addr_eq (key new) k
            then some new
            else if addr_eq (key x) k
            then some x
            else find (has_key k) xs))
          (addr_eq (key x) (key new))
          (λ e.
            let same : key x ≡ key new = (addr_eq_iff (key x) (key new)).0 e in
            rw (replaces x same, same)
              (collapse (addr_eq (key new) k) (some new) (some x) (find (has_key k) xs)))
          (λ e. elim (Bool-cases (addr_eq (key x) k)) [
            | inl h ↦ rw (h, other h e) refl
            | inr h ↦ rw h (find-update k xs)
          ])
      where
        collapse :
            (b : Bool) (u v w : Option A)
            → (if b then u else w) ≡ (if b then u else if b then v else w)
        collapse true u v w = refl
        collapse false u v w = refl

        other :
            addr_eq (key x) k ≡ true
            → addr_eq (key x) (key new) ≡ false
            → addr_eq (key new) k ≡ false
        other h e =
            addr_eq-ne (key new) k
              (λ same. absurd (ground (arith, e, sym (ap (addr_eq (key x)) same), h)))

    pub update-Absent :
        (k : Addr) (xs : List A)
        → key new ≢ k
        → Absent k xs
        → Absent k (update_or_push (has_key (key new)) f new xs)
    update-Absent k [] ne h = (ne, tt)
    update-Absent k (x ∷ xs) ne h =
        if_cases (Absent k) (addr_eq (key x) (key new))
          (λ e. (rw (replaces x ((addr_eq_iff (key x) (key new)).0 e)) ne, h.1))
          (λ e. (h.0, update-Absent k xs ne h.1))

    pub update-DistinctKeys :
        (xs : List A) → DistinctKeys xs → DistinctKeys (update_or_push (has_key (key new)) f new xs)
    update-DistinctKeys [] h = (tt, tt)
    update-DistinctKeys (x ∷ xs) h =
        if_cases DistinctKeys (addr_eq (key x) (key new))
          (λ e.
            let same : key x ≡ key new = (addr_eq_iff (key x) (key new)).0 e in
            (rw (replaces x same) (rw same at h.0), h.1))
          (λ e. (
            update-Absent (key x) xs
                (λ (same : key new ≡ key x).
                  absurd (ground (arith, e, (addr_eq_iff (key x) (key new)).1 (sym same))))
                h.0,
            update-DistinctKeys xs h.1,
          ))

  -- A lookup after a deletion.
  pub find-retain :
      (k k' : Addr) (xs : List A)
      → find (has_key k) (filter_list (λ e. not (addr_eq (key e) k')) xs)
        ≡ (if addr_eq k' k then none else find (has_key k) xs)
  find-retain k k' [] = if_cases (λ o. none ≡ o) (addr_eq k' k) (λ _. refl) (λ _. refl)
  find-retain k k' (x ∷ xs) = elim (Bool-cases (addr_eq (key x) k')) [
    | inl e ↦ rw (e, find-retain k k' xs) (removed ((addr_eq_iff (key x) k').0 e))
    | inr e ↦ elim (Bool-cases (addr_eq (key x) k)) [
      | inl h ↦ rw (e, h, kept e h) refl
      | inr h ↦ rw (e, h) (find-retain k k' xs)
    ]
  ]
    where
      removed :
          key x ≡ k'
          → (if addr_eq k' k then none else find (has_key k) xs) ≡ (
              if addr_eq k' k
              then none
              else if addr_eq (key x) k
              then some x
              else find (has_key k) xs)
      removed same = rw same (
          if_cases
            (λ o. o ≡ (
              if addr_eq k' k then none else if addr_eq k' k then some x else find (has_key k) xs))
            (addr_eq k' k) (λ h. rw h refl) (λ h. rw h refl))

      kept : addr_eq (key x) k' ≡ false → addr_eq (key x) k ≡ true → addr_eq k' k ≡ false
      kept e h = addr_eq-ne k' k (λ same. absurd (ground (arith, e, ap (addr_eq (key x)) same, h)))

  pub retain-Absent :
      (p : A → Bool) (k : Addr) (xs : List A) → Absent k xs → Absent k (filter_list p xs)
  retain-Absent p k [] h = tt
  retain-Absent p k (x ∷ xs) h =
      if_cases (Absent k) (p x) (λ _. (h.0, retain-Absent p k xs h.1))
        (λ _. retain-Absent p k xs h.1)

  pub retain-DistinctKeys :
      (p : A → Bool) (xs : List A) → DistinctKeys xs → DistinctKeys (filter_list p xs)
  retain-DistinctKeys p [] h = tt
  retain-DistinctKeys p (x ∷ xs) h =
      if_cases DistinctKeys (p x)
        (λ _. (retain-Absent p (key x) xs h.0, retain-DistinctKeys p xs h.1))
        (λ _. retain-DistinctKeys p xs h.1)
