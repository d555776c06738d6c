-- ===== src/Route/Prefix.antt =====
-- `net_contains` of wnr-dnet/src/route.rs against families and leading bits.
use we_nmap_in_rust.Prelude.{
  ℕ, zero, suc, ◌+◌, ◌-◌, ◌*◌, ◌/◌, ◌%◌, ◌^◌, ◌≤◌, ◌<◌, ◌≡◌, ◌≢◌, refl, ap, ◌∙◌, List, [], ◌∷◌,
  Bool, true, false, not, ◌&&◌, ◌||◌, leb, ◌==◌, le→ltb, if◌then◌else◌, length, replicate, All,
  arith, bit_and, sym, eq→==, ne→==, ==_iff, Bool-cases, inl, inr,
}
use native.Mathlib.Nat.{one-le-pow, mul-div_cancel}
use we_nmap_in_rust.Prelude.Bits.{holds_below, holds_below_sound}
use we_nmap_in_rust.Prelude.Bytes.{bytes_eq, IsByte}
use we_nmap_in_rust.Addr.{Addr, addr_type_none, masked, network}
use we_nmap_in_rust.Addr.Masks.{prefix_mask}
use we_nmap_in_rust.Addr.Networks.{bits_to_mask_lem}
use we_nmap_in_rust.Route.{net_contains}

-- The first `bits` bits of two byte strings agree.
abbrev pub same_prefix : ℕ → List ℕ → List ℕ → Bool
same_prefix bits [] ys = true
same_prefix bits (x ∷ xs) [] = true
same_prefix bits (x ∷ xs) (y ∷ ys) =
    if leb 8 bits
    then x == y && same_prefix (bits - 8) xs ys
    else x / 2 ^ (8 - bits) == y / 2 ^ (8 - bits)

-- A byte under a mask with `k` leading ones keeps its first `k` bits.
high_bits_table :
    holds_below 2304 (λ p.
      bit_and (p % 256) (256 - 2 ^ (8 - p / 256))
      == p % 256 / 2 ^ (8 - p / 256) * 2 ^ (8 - p / 256))
    ≡ true
unfolding holds_below
high_bits_table = refl

high_bits :
    (b k : ℕ) → IsByte b → k < 9 → bit_and b (256 - 2 ^ (8 - k)) ≡ b / 2 ^ (8 - k) * 2 ^ (8 - k)
high_bits b k hb hk = ground (arith, entry)
  where
    low : (k * 256 + b) % 256 ≡ b
    low = omega arith

    high : (k * 256 + b) / 256 ≡ k
    high = omega arith

    entry : (bit_and b (256 - 2 ^ (8 - k)) == b / 2 ^ (8 - k) * 2 ^ (8 - k)) ≡ true
    entry =
        rw (low, high) at
          (holds_below_sound 2304
            (λ p.
              bit_and (p % 256) (256 - 2 ^ (8 - p / 256))
              == p % 256 / 2 ^ (8 - p / 256) * 2 ^ (8 - p / 256))
            (k * 256 + b) high_bits_table (omega arith))

scaled : (c a b : ℕ) → 1 ≤ c → (a * c == b * c) ≡ (a == b)
scaled c a b h = elim (Bool-cases (a == b)) [
  | inl e ↦ rw (e, eq→== (a * c) (b * c) (ap (λ n. n * c) ((==_iff a b).0 e))) refl
  | inr e ↦
      let differ : a * c ≢ b * c = λ same. absurd (ground (arith, e, cancel same)) in
      rw (e, ne→== (a * c) (b * c) differ) refl
]
  where
    cancel : a * c ≡ b * c → a ≡ b
    cancel same = sym (mul-div_cancel a h) ∙ ap (λ n. n / c) same ∙ mul-div_cancel b h

-- Two bytes under the same mask byte.
byte_agrees :
    (x y k : ℕ)
    → IsByte x
    → IsByte y
    → k < 9
    → (bit_and x (256 - 2 ^ (8 - k)) == bit_and y (256 - 2 ^ (8 - k)))
      ≡ (x / 2 ^ (8 - k) == y / 2 ^ (8 - k))
byte_agrees x y k hx hy hk =
    rw (high_bits x k hx hk, high_bits y k hy hk)
      (scaled (2 ^ (8 - k)) (x / 2 ^ (8 - k)) (y / 2 ^ (8 - k))
        (one-le-pow (8 - k) 2 (omega arith)))

masked_zeros :
    (n : ℕ) (xs ys : List ℕ)
    → length xs ≡ n
    → length ys ≡ n
    → All IsByte xs
    → All IsByte ys
    → bytes_eq (masked bit_and xs (replicate n 0)) (masked bit_and ys (replicate n 0)) ≡ true
unfolding bytes_eq masked
masked_zeros zero [] [] ex ey hx hy = refl
masked_zeros zero [] (y ∷ ys) ex ey hx hy = absurd (omega arith)
masked_zeros zero (x ∷ xs) ys ex ey hx hy = absurd (omega arith)
masked_zeros (suc n) [] ys ex ey hx hy = absurd (omega arith)
masked_zeros (suc n) (x ∷ xs) [] ex ey hx hy = absurd (omega arith)
masked_zeros (suc n) (x ∷ xs) (y ∷ ys) ex ey hx hy =
    rw
      (
        zero_bits x hx.0,
        zero_bits y hy.0,
        masked_zeros n xs ys (omega arith) (omega arith) hx.1 hy.1,
      )
      refl
  where
    zero_bits : (b : ℕ) → IsByte b → bit_and b 0 ≡ 0
    zero_bits b h = omega (arith, high_bits b 0 h (omega arith))

masked_prefix :
    (n bits : ℕ) (xs ys : List ℕ)
    → length xs ≡ n
    → length ys ≡ n
    → All IsByte xs
    → All IsByte ys
    → bytes_eq (masked bit_and xs (prefix_mask n bits)) (masked bit_and ys (prefix_mask n bits))
      ≡ same_prefix bits xs ys
unfolding bytes_eq masked
masked_prefix zero bits [] [] ex ey hx hy = refl
masked_prefix zero bits [] (y ∷ ys) ex ey hx hy = absurd (omega arith)
masked_prefix zero bits (x ∷ xs) ys ex ey hx hy = absurd (omega arith)
masked_prefix (suc n) bits [] ys ex ey hx hy = absurd (omega arith)
masked_prefix (suc n) bits (x ∷ xs) [] ex ey hx hy = absurd (omega arith)
masked_prefix (suc n) bits (x ∷ xs) (y ∷ ys) ex ey hx hy = elim (Bool-cases (leb 8 bits)) [
  | inl e ↦
      rw
        (
          e,
          whole x hx.0,
          whole y hy.0,
          masked_prefix n (bits - 8) xs ys (omega arith) (omega arith) hx.1 hy.1,
        )
        refl
  | inr e ↦
      rw
        (
          e,
          byte_agrees x y bits hx.0 hy.0 (ground arith),
          masked_zeros n xs ys (omega arith) (omega arith) hx.1 hy.1,
        )
        (and_true (x / 2 ^ (8 - bits) == y / 2 ^ (8 - bits)))
]
  where
    whole : (b : ℕ) → IsByte b → bit_and b 255 ≡ b
    whole b h = omega (arith, high_bits b 8 h (omega arith))

    and_true : (b : Bool) → (b && true) ≡ b
    and_true true = refl
    and_true false = refl

-- The sixteen bytes of an address.
pub record IsData (a : Addr) : Type 0 where
  pub sixteen : length a.bytes ≡ 16
  pub octets : All IsByte a.bytes

-- Of two addresses of sixteen bytes, where the network's prefix has at most 128 bits: the network
-- contains the address exactly if the types agree, are not `ADDR_TYPE_NONE`, and the first
-- `addr_bits` bits agree.
pub net_contains_lem :
    (net addr : Addr)
    → IsData net
    → IsData addr
    → net.addr_bits ≤ 128
    → net_contains net addr ≡ (
        net.addr_type == addr.addr_type
        && not (net.addr_type == addr_type_none)
        && same_prefix net.addr_bits net.bytes addr.bytes)
unfolding net_contains network
net_contains_lem net addr hn ha fits =
    rw
      (
        bits_to_mask_lem net.addr_bits,
        le→ltb 128 net.addr_bits fits,
        masked_prefix 16 net.addr_bits net.bytes addr.bytes hn.sixteen ha.sixteen hn.octets
            ha.octets,
      )
      (regroup (net.addr_type == addr.addr_type) (net.addr_type == addr_type_none)
        (same_prefix net.addr_bits net.bytes addr.bytes))
  where
    regroup : (p q r : Bool) → (if not p || q then false else r) ≡ (p && not q && r)
    regroup true true r = refl
    regroup true false r = refl
    regroup false q r = refl
