-- ===== src/Prelude/Search.antt =====
-- Iterator and `Vec` methods of the standard library that the tables use, and their laws.
use Prim.Native.Nat.{ℕ, ◌≤◌}
use mathlib.Core.Path.{◌≡◌, refl, sym, ap, ◌∙◌}
use mathlib.Core.Logic.{◌⊎◌, inl, inr}
use mathlib.Core.Bool.{Bool, true}
use mathlib.Core.List.{List, [], ◌∷◌, Memᴰ}
use mathlib.Core.List.Memᴰ
use mathlib.Core.Option.{Option, none, some}
use native.Mathlib.Omega.{arith}
use we_nmap_in_rust.Prelude.Tests.{if◌then◌else◌, leb, leb→le, if_cases, if_both}

module _ {ℓ} {A : Type ℓ} where
  -- `iter().find(p)`.
  abbrev pub find : (A → Bool) → List A → Option A
  find p [] = none
  find p (x ∷ xs) = if p x then some x else find p xs

  -- `filter(p)` and `retain(p)`.
  abbrev pub filter_list : (A → Bool) → List A → List A
  filter_list p [] = []
  filter_list p (x ∷ xs) = if p x then x ∷ filter_list p xs else filter_list p xs

  -- `if let Some(x) = iter_mut().find(p) { *x = f(x); return; } push(new)`.
  abbrev pub update_or_push : (A → Bool) → (A → A) → A → List A → List A
  update_or_push p f new [] = new ∷ []
  update_or_push p f new (x ∷ xs) = if p x then f x ∷ xs else x ∷ update_or_push p f new xs

  -- `max_by_key(key)`, from the largest so far: of equal keys the last one wins.
  abbrev pub max_from : (A → ℕ) → A → List A → A
  max_from key best [] = best
  max_from key best (x ∷ xs) = max_from key (if leb (key best) (key x) then x else best) xs

  abbrev pub max_by_key : (A → ℕ) → List A → Option A
  max_by_key key [] = none
  max_by_key key (x ∷ xs) = some (max_from key x xs)

  -- The maximum is the first candidate or one of the list, and no other has a larger key.
  pub max_from-best :
      (key : A → ℕ) (best : A) (xs : List A)
      → ((max_from key best xs ≡ best) ⊎ Memᴰ (max_from key best xs) xs)
        × (key best ≤ key (max_from key best xs))
  max_from-best key best [] = (inl refl, omega arith)
  max_from-best key best (x ∷ xs) =
      if_cases
        (λ b.
          ((max_from key b xs ≡ best) ⊎ Memᴰ (max_from key b xs) (x ∷ xs))
          × (key best ≤ key (max_from key b xs)))
        (leb (key best) (key x))
        (λ e.
          let (found, le) = max_from-best key x xs in
          (
            elim found [ inl e ↦ inr (Memᴰ.head e) | inr m ↦ inr (Memᴰ.tail m) ],
            omega (arith, leb→le (key best) (key x) e),
          ))
        (λ e.
          let (found, le) = max_from-best key best xs in
          (elim found [ inl e ↦ inl e | inr m ↦ inr (Memᴰ.tail m) ], le))

  pub max_from-le :
      (key : A → ℕ) (best : A) (xs : List A) {a : A}
      → Memᴰ a xs
      → key a ≤ key (max_from key best xs)
  max_from-le key best [] m = elim m [ ]
  max_from-le key best (x ∷ xs) {a} (Memᴰ.head e) = omega (
    arith,
    ap key e,
    next_le,
    (max_from-best key (if leb (key best) (key x) then x else best) xs).1,
  )
    where
      next_le : key x ≤ key (if leb (key best) (key x) then x else best)
      next_le =
          if_cases (λ b. key x ≤ key b) (leb (key best) (key x)) (λ e. omega arith)
            (λ e. ground arith)
  max_from-le key best (x ∷ xs) (Memᴰ.tail m) =
      max_from-le key (if leb (key best) (key x) then x else best) xs m

  -- What passes a filter, both ways.
  pub filter_list-Mem :
      (p : A → Bool) (xs : List A) {a : A} → Memᴰ a (filter_list p xs) → Memᴰ a xs × (p a ≡ true)
  filter_list-Mem p [] m = elim m [ ]
  filter_list-Mem p (x ∷ xs) {a} m =
      if_cases (λ ys. Memᴰ a ys → Memᴰ a (x ∷ xs) × (p a ≡ true)) (p x)
        (λ e m. elim (Memᴰ.cases_cons m) [
          | inl same ↦ (Memᴰ.head same, ap p same ∙ e)
          | inr later ↦ let (n, q) = filter_list-Mem p xs later in (Memᴰ.tail n, q)
        ])
        (λ e m. let (n, q) = filter_list-Mem p xs m in (Memᴰ.tail n, q)) m

  pub Mem-filter_list :
      (p : A → Bool) (xs : List A) {a : A} → Memᴰ a xs → p a ≡ true → Memᴰ a (filter_list p xs)
  Mem-filter_list p [] m h = elim m [ ]
  Mem-filter_list p (x ∷ xs) {a} (Memᴰ.head e) h = rw (sym (ap p e) ∙ h) (Memᴰ.head e)
  Mem-filter_list p (x ∷ xs) {a} (Memᴰ.tail m) h =
      if_both (λ ys. Memᴰ a ys) (p x) (Memᴰ.tail (Mem-filter_list p xs m h))
        (Mem-filter_list p xs m h)
