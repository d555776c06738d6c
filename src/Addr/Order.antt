-- ===== src/Addr/Order.antt =====
-- Equality and comparison of addresses.
use we_nmap_in_rust.Prelude.{
  ℕ, ◌^◌, ◌<◌, ◌≡◌, ◌≢◌, ◌↔◌, ◌⊎◌, inl, inr, refl, sym, ◌∙◌, ap₂, le→leb, lt→leb, if_cases, eq→==,
  ne→==, Bool-cases, List, [], ◌∷◌, Bool, true, false, not, leb, ◌==◌, if◌then◌else◌, length, All,
  arith,
}
use we_nmap_in_rust.Prelude.Bytes.{IsByte, bytes_eq_sound, bytes_eq_refl}
use we_nmap_in_rust.Addr.{Addr, difference, bytes_cmp, addr_cmp, addr_eq}

pub addr_eq_iff : (a b : Addr) → (addr_eq a b ≡ true) ↔ (a ≡ b)
unfolding addr_eq
addr_eq_iff a b = (
  λ e. ground (arith, bytes_eq_sound a.bytes b.bytes),
  λ e. ground (arith, bytes_eq_refl a.bytes),
)

-- The widths of the fields, and the sixteen bytes of the array.
pub record IsAddr (a : Addr) : Type 0 where
  pub type_fits : a.addr_type < 2 ^ 31
  pub bits_fit : a.addr_bits < 2 ^ 16
  pub sixteen : length a.bytes ≡ 16
  pub octets : All IsByte a.bytes

-- An `i32` bit pattern below zero.
abbrev pub negative : ℕ → Bool
negative n = leb (2 ^ 31) n

-- Two numbers below `2 ^ 31`: their difference is zero only if they are equal, and has the
-- sign of the comparison.
module _ (a b : ℕ) (ha : a < 2 ^ 31) (hb : b < 2 ^ 31) where
  difference_zero : difference a b ≡ 0 → a ≡ b
  difference_zero e = omega arith

  difference_less : a < b → negative (difference a b) ≡ true
  difference_less h = le→leb (2 ^ 31) (difference a b) (omega arith)

  difference_greater : b < a → negative (difference a b) ≡ false
  difference_greater h = lt→leb (2 ^ 31) (difference a b) (omega arith)

-- The two results have opposite signs.
abbrev Opposite : ℕ → ℕ → Type 0
Opposite m n = negative m ≡ not (negative n)

difference-Opposite :
    (a b : ℕ) → a < 2 ^ 31 → b < 2 ^ 31 → a ≢ b → Opposite (difference a b) (difference b a)
difference-Opposite a b ha hb ne = elim less_or_greater [
  | inl less ↦ rw (difference_less a b ha hb less, difference_greater b a hb ha less)
  | inr greater ↦ rw (difference_greater a b ha hb greater, difference_less b a hb ha greater)
]
  where
    less_or_greater : (a < b) ⊎ (b < a)
    less_or_greater = ground arith

-- One stage of the comparison: a test of two numbers, and what decides if they are equal.
abbrev stage : ℕ → ℕ → ℕ → ℕ
stage a b rest = if a == b then rest else difference a b

module _ (a b rest rest' : ℕ) (ha : a < 2 ^ 31) (hb : b < 2 ^ 31) where
  stage_zero : stage a b rest ≡ 0 → (a ≡ b) × (rest ≡ 0)
  stage_zero =
      if_cases (λ n. n ≡ 0 → (a ≡ b) × (rest ≡ 0)) (a == b) (λ e h. (ground arith, h))
        (λ e h. absurd (ground (arith, difference_zero a b ha hb h)))

  stage-Opposite : (a ≡ b → Opposite rest rest') → Opposite (stage a b rest) (stage b a rest')
  stage-Opposite h = elim (Bool-cases (a == b)) [
    | inl e ↦ let same : a ≡ b = ground arith in rw (e, eq→== b a (sym same)) (h same)
    | inr e ↦
        let other : a ≢ b = ground arith in
        rw (e, ne→== b a (λ (e : b ≡ a). other (sym e))) (difference-Opposite a b ha hb other)
  ]

bytes_cmp_zero :
    (xs ys : List ℕ)
    → length xs ≡ length ys
    → All IsByte xs
    → All IsByte ys
    → bytes_cmp xs ys ≡ 0
    → xs ≡ ys
unfolding bytes_cmp
bytes_cmp_zero [] [] e hx hy h = refl
bytes_cmp_zero [] (y ∷ ys) e hx hy h = absurd (omega arith)
bytes_cmp_zero (x ∷ xs) [] e hx hy h = absurd (omega arith)
bytes_cmp_zero (x ∷ xs) (y ∷ ys) e hx hy h =
    let (same, rest) =
      stage_zero x y (bytes_cmp xs ys) 0 (omega (arith, hx.0)) (omega (arith, hy.0)) h in
    ap₂ ◌∷◌ same (bytes_cmp_zero xs ys (omega arith) hx.1 hy.1 rest)

bytes_cmp_refl : (xs : List ℕ) → bytes_cmp xs xs ≡ 0
unfolding bytes_cmp
bytes_cmp_refl [] = refl
bytes_cmp_refl (x ∷ xs) = rw (eq→== x x refl) (bytes_cmp_refl xs)

bytes_cmp-Opposite :
    (xs ys : List ℕ)
    → length xs ≡ length ys
    → All IsByte xs
    → All IsByte ys
    → xs ≢ ys
    → Opposite (bytes_cmp xs ys) (bytes_cmp ys xs)
unfolding bytes_cmp
bytes_cmp-Opposite [] [] e hx hy ne = absurd (ne refl)
bytes_cmp-Opposite [] (y ∷ ys) e hx hy ne = absurd (omega arith)
bytes_cmp-Opposite (x ∷ xs) [] e hx hy ne = absurd (omega arith)
bytes_cmp-Opposite (x ∷ xs) (y ∷ ys) e hx hy ne =
    stage-Opposite x y (bytes_cmp xs ys) (bytes_cmp ys xs) (omega (arith, hx.0))
      (omega (arith, hy.0))
      (λ same. bytes_cmp-Opposite xs ys (omega arith) hx.1 hy.1 (λ rest. ne (ap₂ ◌∷◌ same rest)))

-- The comparison by stages.
addr_cmp_stages :
    (a b : Addr)
    → addr_cmp a b
      ≡ stage a.addr_type b.addr_type (stage a.addr_bits b.addr_bits (bytes_cmp a.bytes b.bytes))
unfolding addr_cmp
addr_cmp_stages a b = swap (a.addr_type == b.addr_type) (a.addr_bits == b.addr_bits) _ _ _
  where
    swap :
        (p q : Bool) (x y z : ℕ)
        → (if not p then x else if not q then y else z) ≡ (if p then (if q then z else y) else x)
    swap true true x y z = refl
    swap true false x y z = refl
    swap false q x y z = refl

module _ (a b : Addr) (ha : IsAddr a) (hb : IsAddr b) where
  addr_cmp_zero : addr_cmp a b ≡ 0 → a ≡ b
  addr_cmp_zero h =
      let (types, rest) =
        stage_zero a.addr_type b.addr_type
          (stage a.addr_bits b.addr_bits (bytes_cmp a.bytes b.bytes)) 0 ha.type_fits hb.type_fits
          (rw (addr_cmp_stages a b) at h) in
      let (bits, bytes) =
        stage_zero a.addr_bits b.addr_bits (bytes_cmp a.bytes b.bytes) 0
          (omega (arith, ha.bits_fit)) (omega (arith, hb.bits_fit)) rest in
      let octets =
        bytes_cmp_zero a.bytes b.bytes (omega (arith, ha.sixteen, hb.sixteen)) ha.octets hb.octets
          bytes in
      λ i. record { addr_type = types i; addr_bits = bits i; bytes = octets i }

  addr_cmp_refl : (c : Addr) → addr_cmp c c ≡ 0
  addr_cmp_refl c =
      addr_cmp_stages c c
      ∙ rw (eq→== c.addr_type c.addr_type refl, eq→== c.addr_bits c.addr_bits refl)
          (bytes_cmp_refl c.bytes)

  -- On addresses of sixteen bytes with a type below 2 ^ 31, the comparison gives zero exactly if
  -- the addresses are equal.
  pub addr_cmp_iff : (addr_cmp a b ≡ 0) ↔ (a ≡ b)
  addr_cmp_iff = (addr_cmp_zero, λ e. rw e (addr_cmp_refl b))

  -- On two such addresses that differ, the comparison one way round is negative exactly if it is
  -- not negative the other way round.
  pub addr_cmp_opposite : a ≢ b → negative (addr_cmp a b) ≡ not (negative (addr_cmp b a))
  addr_cmp_opposite ne =
      rw (addr_cmp_stages a b, addr_cmp_stages b a)
        (stage-Opposite a.addr_type b.addr_type
          (stage a.addr_bits b.addr_bits (bytes_cmp a.bytes b.bytes))
          (stage b.addr_bits a.addr_bits (bytes_cmp b.bytes a.bytes)) ha.type_fits hb.type_fits
          (λ types.
            stage-Opposite a.addr_bits b.addr_bits (bytes_cmp a.bytes b.bytes)
              (bytes_cmp b.bytes a.bytes) (omega (arith, ha.bits_fit)) (omega (arith, hb.bits_fit))
              (λ bits.
                bytes_cmp-Opposite a.bytes b.bytes (omega (arith, ha.sixteen, hb.sixteen)) ha.octets
                  hb.octets
                  (λ octets.
                    ne (λ i. record {
                      addr_type = types i;
                      addr_bits = bits i;
                      bytes = octets i;
                    })))))
