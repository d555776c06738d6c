-- ===== src/Addr/Masks.antt =====
-- The mask that a prefix length stands for.
use we_nmap_in_rust.Prelude.{
  ℕ, zero, suc, ◌+◌, ◌-◌, ◌*◌, ◌/◌, ◌%◌, ◌^◌, ◌≤◌, ◌<◌, ◌≡◌, refl, ap, ◌∙◌, List, [], ◌∷◌, none,
  some, true, ◌&&◌, ◌||◌, ltb, leb, ◌==◌, if◌then◌else◌, set, replicate, arith, Bool-cases, inl,
  inr, le→leb, lt→leb, lt→ltb,
}
use we_nmap_in_rust.Prelude.Bits.{holds_below, holds_below_sound}
use we_nmap_in_rust.Addr.{fill_ones, bits_to_mask_len, addr_btom}

-- The mask of `size` bytes with `bits` leading ones, byte by byte.
abbrev pub prefix_mask : ℕ → ℕ → List ℕ
prefix_mask zero bits = []
prefix_mask (suc size) bits =
    let rest = prefix_mask size (bits - 8) in
    if leb 8 bits then 0xff ∷ rest else (256 - 2 ^ (8 - bits)) ∷ replicate size 0

-- The body of `bits_to_mask_len`, from the whole bytes and the bits of the next one.
abbrev mask_body : ℕ → ℕ → ℕ → List ℕ
mask_body size full rem =
    let mask = fill_ones full (replicate size 0) in
    if ltb 0 rem && ltb full size then set mask full (0xff * 2 ^ (8 - rem) % 2 ^ 8) else mask

shifted_table :
    holds_below 8 (λ r. r == 0 || 0xff * 2 ^ (8 - r) % 2 ^ 8 == 256 - 2 ^ (8 - r)) ≡ true
unfolding holds_below
shifted_table = refl

shifted : (r : ℕ) → 0 < r → r < 8 → 0xff * 2 ^ (8 - r) % 2 ^ 8 ≡ 256 - 2 ^ (8 - r)
shifted r pos h = ground (
  arith,
  holds_below_sound 8 (λ r. r == 0 || 0xff * 2 ^ (8 - r) % 2 ^ 8 == 256 - 2 ^ (8 - r)) r
      shifted_table,
)

pub prefix_mask-short :
    (size bits : ℕ)
    → bits < 8
    → prefix_mask (suc size) bits ≡ (256 - 2 ^ (8 - bits)) ∷ replicate size 0
prefix_mask-short size bits h = rw (lt→leb 8 bits h)

pub prefix_mask-long :
    (size bits : ℕ) → prefix_mask (suc size) (8 + bits) ≡ 0xff ∷ prefix_mask size bits
prefix_mask-long size bits =
    let e : 8 + bits - 8 ≡ bits = omega arith in rw (le→leb 8 (8 + bits) (omega arith), e)

mask_body-long :
    (size full rem : ℕ) → mask_body (suc size) (suc full) rem ≡ 0xff ∷ mask_body size full rem
unfolding fill_ones
mask_body-long size full rem = ground arith

mask_body-prefix :
    (size full rem : ℕ)
    → rem < 8
    → full * 8 + rem ≤ size * 8
    → mask_body size full rem ≡ prefix_mask size (full * 8 + rem)
unfolding fill_ones
mask_body-prefix zero zero rem hr h = ground arith
mask_body-prefix zero (suc full) rem hr h = absurd (omega arith)
mask_body-prefix (suc size) zero zero hr h = refl
mask_body-prefix (suc size) zero (suc rem) hr h =
    let e : 0 * 8 + suc rem ≡ suc rem = omega arith in
    rw (
      lt→ltb 0 (suc rem) (omega arith),
      lt→ltb 0 (suc size) (omega arith),
      e,
      prefix_mask-short size (suc rem) hr,
      shifted (suc rem) (omega arith) hr,
    )
mask_body-prefix (suc size) (suc full) rem hr h =
    let e : suc full * 8 + rem ≡ 8 + (full * 8 + rem) = omega arith in
    mask_body-long size full rem
    ∙ ap (◌∷◌ 0xff) (mask_body-prefix size full rem hr (omega arith))
    ∙ rw (e, prefix_mask-long size (full * 8 + rem))

-- `addr_btom` gives the mask of that many leading ones, and nothing exactly where the bits do not
-- fit the bytes.
pub addr_btom_lem :
    (bits size : ℕ)
    → addr_btom bits size ≡ (if ltb (size * 8) bits then none else some (prefix_mask size bits))
unfolding addr_btom bits_to_mask_len
addr_btom_lem bits size = elim (Bool-cases (ltb (size * 8) bits)) [
  | inl e ↦ rw e
  | inr e ↦
      let split : bits / 8 * 8 + bits % 8 ≡ bits = omega arith in
      rw e (
        ap some
          (mask_body-prefix size (bits / 8) (bits % 8) (omega arith) (ground arith) ∙ rw split))
]
