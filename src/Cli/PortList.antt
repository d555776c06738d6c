-- ===== src/Cli/PortList.antt =====
-- The list of ports of wnr/src/main.rs against the ports that its text names.
use we_nmap_in_rust.Prelude.{
  ℕ, zero, suc, ◌+◌, ◌-◌, max, ◌≡◌, refl, sym, ap, ◌∙◌, List, [], ◌∷◌, ◌++◌, Option, none, some,
  Bool, true, false, leb, ◌==◌, ◌||◌, ◌&&◌, if◌then◌else◌, if_cases, arith, ltb, Bool-cases, inl,
  inr,
}
use we_nmap_in_rust.Prelude.Text.{Text, contains, split, parse_u16}
use we_nmap_in_rust.Cli.{
  range_start, range_end, has, Ports, insert, insert_range, insert_parsed, insert_part,
  insert_parts, parse_ports,
}

-- The ports that a part names, and a text.
abbrev is_number : Option ℕ → ℕ → Bool
is_number none p = false
is_number (some q) p = p == q

abbrev pub names : Text → ℕ → Bool
names part p =
    if contains b'-' part
    then leb (range_start part) p && leb p (max (range_end part) (range_start part))
    else is_number (parse_u16 part) p

abbrev pub any_names : List Text → ℕ → Bool
any_names [] p = false
any_names (part ∷ parts) p = names part p || any_names parts p

-- No port stands twice.
abbrev pub Distinct : List ℕ → Type 0
Distinct [] = Unit
Distinct (p ∷ ports) = (has p ports ≡ false) × Distinct ports

has-append : (p : ℕ) (xs : List ℕ) (q : ℕ) → has p (xs ++ (q ∷ [])) ≡ (has p xs || p == q)
has-append p [] q = ground arith
has-append p (x ∷ xs) q = ground (arith, has-append p xs q)

Distinct-append : (xs : List ℕ) (q : ℕ) → Distinct xs → has q xs ≡ false → Distinct (xs ++ (q ∷ []))
Distinct-append [] q d n = (refl, tt)
Distinct-append (x ∷ xs) q d n =
    (ground (arith, d.0, n, has-append x xs q), Distinct-append xs q d.1 (ground (arith, n)))

-- The set and the vector hold the same ports, and the vector none twice.
record IsPorts (s : Ports) : Type 0 where
  same : (p : ℕ) → has p s.seen ≡ has p s.out
  distinct : Distinct s.out

insert-IsPorts : (q : ℕ) (s : Ports) → IsPorts s → IsPorts (insert q s)
unfolding insert
insert-IsPorts q s h = elim (Bool-cases (has q s.seen)) [
  | inl e ↦ rw e h
  | inr e ↦ rw e (record {
    same = λ p. ground (arith, h.same p, has-append p s.out q);
    distinct = Distinct-append s.out q h.distinct (sym (h.same q) ∙ e);
  })
]

has_at : (p q : ℕ) (xs : List ℕ) → (p == q) ≡ true → has p xs ≡ has q xs
has_at p q xs e = ap (λ x. has x xs) (ground (arith, e))

has-insert : (p q : ℕ) (s : Ports) → has p (insert q s).seen ≡ (has p s.seen || p == q)
unfolding insert
has-insert p q s = elim (Bool-cases (has q s.seen)) [
  | inl e ↦ rw e (elim (Bool-cases (p == q)) [
    | inl at ↦ ground (arith, has_at p q s.seen at, e, at)
    | inr other ↦ ground (arith, other)
  ])
  | inr e ↦ rw e (ground arith)
]

has-insert_range :
    (p n a : ℕ) (s : Ports)
    → has p (insert_range n a s).seen ≡ (has p s.seen || (leb a p && ltb p (a + n)))
unfolding insert_range
has-insert_range p zero a s = ground arith
has-insert_range p (suc n) a s =
    has-insert_range p n (suc a) (insert a s) ∙ rw (has-insert p a s) (ground arith)

insert_range-IsPorts : (n a : ℕ) (s : Ports) → IsPorts s → IsPorts (insert_range n a s)
unfolding insert_range
insert_range-IsPorts zero a s h = h
insert_range-IsPorts (suc n) a s h =
    insert_range-IsPorts n (suc a) (insert a s) (insert-IsPorts a s h)

has-insert_parsed :
    (p : ℕ) (o : Option ℕ) (s : Ports)
    → has p (insert_parsed o s).seen ≡ (has p s.seen || is_number o p)
has-insert_parsed p none s = ground arith
has-insert_parsed p (some q) s = has-insert p q s

insert_parsed-IsPorts : (o : Option ℕ) (s : Ports) → IsPorts s → IsPorts (insert_parsed o s)
insert_parsed-IsPorts none s h = h
insert_parsed-IsPorts (some q) s h = insert-IsPorts q s h

range : (a b p : ℕ) → (leb a p && ltb p (a + (suc (max b a) - a))) ≡ (leb a p && leb p (max b a))
range a b p = ground arith

has-insert_part :
    (p : ℕ) (part : Text) (s : Ports)
    → has p (insert_part part s).seen ≡ (has p s.seen || names part p)
unfolding insert_part
has-insert_part p part s = elim (Bool-cases (contains b'-' part)) [
  | inl e ↦ rw e (
      has-insert_range p (suc (max (range_end part) (range_start part)) - range_start part)
        (range_start part) s
      ∙ ap (λ b. has p s.seen || b) (range (range_start part) (range_end part) p))
  | inr e ↦ rw e (has-insert_parsed p (parse_u16 part) s)
]

insert_part-IsPorts : (part : Text) (s : Ports) → IsPorts s → IsPorts (insert_part part s)
unfolding insert_part
insert_part-IsPorts part s h =
    if_cases IsPorts (contains b'-' part)
      (λ _.
        insert_range-IsPorts (suc (max (range_end part) (range_start part)) - range_start part)
          (range_start part) s h)
      (λ _. insert_parsed-IsPorts (parse_u16 part) s h)

has-insert_parts :
    (p : ℕ) (parts : List Text) (s : Ports)
    → has p (insert_parts parts s).seen ≡ (has p s.seen || any_names parts p)
unfolding insert_parts
has-insert_parts p [] s = ground arith
has-insert_parts p (part ∷ parts) s =
    has-insert_parts p parts (insert_part part s) ∙ rw (has-insert_part p part s) (ground arith)

insert_parts-IsPorts : (parts : List Text) (s : Ports) → IsPorts s → IsPorts (insert_parts parts s)
unfolding insert_parts
insert_parts-IsPorts [] s h = h
insert_parts-IsPorts (part ∷ parts) s h =
    insert_parts-IsPorts parts (insert_part part s) (insert_part-IsPorts part s h)

parsed-IsPorts : (parts : List Text) → IsPorts (insert_parts parts (record { seen = []; out = [] }))
parsed-IsPorts parts =
    insert_parts-IsPorts parts (record { seen = []; out = [] })
      (record { same = λ p. refl; distinct = tt })

-- The ports of any text: none stands twice, and a port is there exactly if a part of the text, cut at
-- the commas, names it, as a number or between the two ends of a range.
pub parse_ports-Distinct :
    (spec : Text) (p : ℕ)
    → Distinct (parse_ports spec) × (has p (parse_ports spec) ≡ any_names (split b',' spec) p)
unfolding parse_ports
parse_ports-Distinct spec p =
    let h = parsed-IsPorts (split b',' spec) in
    (
      h.distinct,
      sym (h.same p) ∙ has-insert_parts p (split b',' spec) (record { seen = []; out = [] }),
    )
