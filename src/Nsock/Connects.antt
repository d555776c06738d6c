-- ===== src/Nsock/Connects.antt =====
-- A pool of wnr-nsock/src/pool.rs on which only connects are waiting, as a scan uses it: the calls of
-- the handlers, the events that wait and the events that were started.
pub mod Finish
pub mod Ended
use we_nmap_in_rust.Prelude.{
  ℕ, zero, suc, ◌+◌, ◌≡◌, refl, sym, ap, ◌∙◌, List, [], ◌∷◌, Option, none, some, Bool, true, false,
  not, ◌==◌, if◌then◌else◌, length, All, arith, Bool-cases, inl, inr, eq→==,
}
use mathlib.Core.Path.{subst}
use mathlib.Core.Option.{some-injective}
use mathlib.Core.List.{Memᴰ}
use we_nmap_in_rust.Prelude.Search.{find, filter_list, filter_list-Mem}
use we_nmap_in_rust.Nsock.{
  EventType, connect, is_connect, is_read, EventStatus, Pending, Pool, Cmd, connect_result,
  quit_cmd, find_event, remove_event, fire,
}
use we_nmap_in_rust.Nsock.Loop.{
  connect_target, on_iod, attach, connect_status, finish_connect, connected, drain_commands,
  deliver_found, deliver,
}

-- A connect that is neither done nor cancelled.
abbrev pub Plain : Pending → Type 0
Plain e = (e.kind ≡ connect) × (e.done ≡ false) × (e.cancelled ≡ false)

abbrev pub Absent : ℕ → List Pending → Type 0
Absent id xs = All (λ (e : Pending). (e.id == id) ≡ false) xs

abbrev pub Distinct : List Pending → Type 0
Distinct [] = Unit
Distinct (e ∷ xs) = Absent e.id xs × Distinct xs

abbrev pub Firings : Type 0
Firings = List (ℕ × EventStatus)

pub record Connecting (total : ℕ) (pending : List Pending) (fired : Firings) : Type 0 where
  pub plain : All Plain pending
  pub distinct : Distinct pending
  pub count : length pending + length fired ≡ total

pub All-Memᴰ {ℓ} : {A : Type ℓ} (P : A → Type 0) (xs : List A) {a : A} → All P xs → Memᴰ a xs → P a
All-Memᴰ P [] h m = elim m [ ]
All-Memᴰ P (x ∷ xs) h (Memᴰ.head e) = subst P (sym e) h.0
All-Memᴰ P (x ∷ xs) h (Memᴰ.tail m) = All-Memᴰ P xs h.1 m

pub find-Memᴰ :
    (p : Pending → Bool) (xs : List Pending) (e : Pending)
    → find p xs ≡ some e
    → Memᴰ e xs × (p e ≡ true)
find-Memᴰ p [] e h = absurd (ground (arith, h))
find-Memᴰ p (x ∷ xs) e h = elim (Bool-cases (p x)) [
  | inl hit ↦ (
    Memᴰ.head (sym (some-injective _ _ (rw hit at h))),
    ap p (sym (some-injective _ _ (rw hit at h))) ∙ hit,
  )
  | inr miss ↦ let (m, q) = find-Memᴰ p xs e (rw miss at h) in (Memᴰ.tail m, q)
]

pub remove_event-Absent : (id : ℕ) (xs : List Pending) → Absent id xs → remove_event id xs ≡ xs
remove_event-Absent id [] h = refl
remove_event-Absent id (e ∷ xs) h = rw h.0 (ap (λ ys. e ∷ ys) (remove_event-Absent id xs h.1))

remove-length :
    (xs : List Pending) (e : Pending)
    → Distinct xs
    → Memᴰ e xs
    → suc (length (remove_event e.id xs)) ≡ length xs
remove-length [] e d m = elim m [ ]
remove-length (x ∷ xs) e d (Memᴰ.head p) =
    rw (eq→== x.id e.id (ap (λ (y : Pending). y.id) (sym p))) (
      ap (λ ys. suc (length ys))
        (remove_event-Absent e.id xs (subst (λ (y : Pending). Absent y.id xs) (sym p) d.0)))
remove-length (x ∷ xs) e d (Memᴰ.tail m) =
    rw (differ x e (All-Memᴰ (λ (y : Pending). (y.id == x.id) ≡ false) xs d.0 m))
      (ap suc (remove-length xs e d.1 m))
  where
    differ : (x e : Pending) → (e.id == x.id) ≡ false → (x.id == e.id) ≡ false
    differ x e h = ground (arith, h)

pub All-remove :
    (P : Pending → Type 0) (id : ℕ) (xs : List Pending) → All P xs → All P (remove_event id xs)
All-remove P id [] h = tt
All-remove P id (e ∷ xs) h = elim (Bool-cases (e.id == id)) [
  | inl same ↦ rw same (All-remove P id xs h.1)
  | inr differ ↦ rw differ (h.0, All-remove P id xs h.1)
]

Distinct-remove : (id : ℕ) (xs : List Pending) → Distinct xs → Distinct (remove_event id xs)
Distinct-remove id [] h = tt
Distinct-remove id (e ∷ xs) h = elim (Bool-cases (e.id == id)) [
  | inl same ↦ rw same (Distinct-remove id xs h.1)
  | inr differ ↦
      rw differ
        (All-remove (λ (y : Pending). (y.id == e.id) ≡ false) id xs h.0, Distinct-remove id xs h.1)
]

module _ (total : ℕ) where
  -- An event that is removed and whose handler is called.
  pub Connecting-fire :
      (xs : List Pending) (fired : Firings) (e : Pending) (f : ℕ × EventStatus)
      → Connecting total xs fired
      → Memᴰ e xs
      → Connecting total (remove_event e.id xs) (f ∷ fired)
  Connecting-fire xs fired e f h m = record {
    plain = All-remove Plain e.id xs h.plain;
    distinct = Distinct-remove e.id xs h.distinct;
    count = omega (arith, remove-length xs e h.distinct m, h.count);
  }
