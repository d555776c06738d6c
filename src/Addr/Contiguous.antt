-- ===== src/Addr/Contiguous.antt =====
-- `addr_mtob` of wnr-dnet/src/addr.rs against contiguous masks.
use we_nmap_in_rust.Prelude.{
  ℕ, zero, suc, ◌+◌, ◌-◌, ◌*◌, ◌%◌, ◌^◌, ◌≤◌, ◌<◌, ◌≡◌, ◌↔◌, refl, ap, ap₂, ◌∙◌, List, [], ◌∷◌,
  none, some, Bool, true, false, not, ◌&&◌, ◌||◌, ltb, leb, leb→le, ◌==◌, ==_iff, length, replicate,
  All, arith, le→ltb, Bool-cases, inl, inr, eq→==, ne→==, ◌≢◌, sym,
}
use we_nmap_in_rust.Prelude.Bits.{holds_below, holds_below_sound}
use we_nmap_in_rust.Prelude.Bytes.{IsByte}
use we_nmap_in_rust.Addr.{leading_ones, mtob_from, addr_mtob, addr_btom}
use we_nmap_in_rust.Addr.Masks.{prefix_mask, prefix_mask-short, prefix_mask-long, addr_btom_lem}

-- One byte of a mask, checked for all 256: its leading ones and nothing else.
abbrev ones_of : ℕ → ℕ × ℕ
ones_of b = leading_ones 9 0 b

abbrev is_byte_fact : ℕ → Bool
is_byte_fact b =
    b == 0xff
    || not ((ones_of b).1 == 0)
    || (ltb (ones_of b).0 8 && b == 256 - 2 ^ (8 - (ones_of b).0))

byte_table : holds_below 256 is_byte_fact ≡ true
unfolding holds_below leading_ones
byte_table = refl

abbrev is_prefix_fact : ℕ → Bool
is_prefix_fact n =
    not (256 - 2 ^ (8 - n) == 0xff)
    && (ones_of (256 - 2 ^ (8 - n))).0 == n
    && (ones_of (256 - 2 ^ (8 - n))).1 == 0

prefix_table : holds_below 8 is_prefix_fact ≡ true
unfolding holds_below leading_ones
prefix_table = refl

prefix_byte :
    (n : ℕ)
    → n < 8
    → (256 - 2 ^ (8 - n) ≢ 0xff)
      × ((ones_of (256 - 2 ^ (8 - n))).0 ≡ n)
      × ((ones_of (256 - 2 ^ (8 - n))).1 ≡ 0)
prefix_byte n h = ground (arith, holds_below_sound 8 is_prefix_fact n prefix_table)

byte_fact :
    (b : ℕ)
    → b < 256
    → b ≢ 0xff
    → (ones_of b).1 ≡ 0
    → ((ones_of b).0 < 8) × (b ≡ 256 - 2 ^ (8 - (ones_of b).0))
byte_fact b h ne e = ground (arith, holds_below_sound 256 is_byte_fact b byte_table)

-- The three ways in which the loop takes a byte.
module _ (acc : ℕ) (mask : List ℕ) where
  mtob_from-ones : mtob_from acc true (0xff ∷ mask) ≡ mtob_from ((acc + 8) % 2 ^ 16) true mask
  unfolding mtob_from
  mtob_from-ones = refl

  mtob_from-last :
      (b : ℕ)
      → b ≢ 0xff
      → (ones_of b).1 ≡ 0
      → mtob_from acc true (b ∷ mask) ≡ mtob_from ((acc + (ones_of b).0) % 2 ^ 16) false mask
  unfolding mtob_from
  mtob_from-last b ne e = rw (ne→== b 0xff ne, e)

  mtob_from-broken : (b : ℕ) → b ≢ 0xff → (ones_of b).1 ≢ 0 → mtob_from acc true (b ∷ mask) ≡ none
  unfolding mtob_from
  mtob_from-broken b ne e = rw (ne→== b 0xff ne, ne→== (ones_of b).1 0 e)

mtob_from-zeros : (bits size : ℕ) → mtob_from bits false (replicate size 0) ≡ some bits
unfolding mtob_from
mtob_from-zeros bits zero = refl
mtob_from-zeros bits (suc size) = mtob_from-zeros bits size

mtob_from-prefix :
    (size acc bits : ℕ)
    → bits ≤ size * 8
    → acc + size * 8 < 2 ^ 16
    → mtob_from acc true (prefix_mask size bits) ≡ some (acc + bits)
unfolding mtob_from
mtob_from-prefix zero acc bits h fits = ap some (omega arith)
mtob_from-prefix (suc size) acc bits h fits = elim (Bool-cases (leb 8 bits)) [
  | inl e ↦
      let full : (acc + 8) % 2 ^ 16 ≡ acc + 8 = omega arith in
      rw (e, full)
        (mtob_from-prefix size (acc + 8) (bits - 8) (omega arith) (omega arith)
          ∙ ap some (ground (arith, leb→le 8 bits)))
  | inr e ↦
      let (ne, run, left) = prefix_byte bits (ground arith) in
      let sum : (acc + bits) % 2 ^ 16 ≡ acc + bits = ground arith in
      rw e (
        mtob_from-last acc (replicate size 0) (256 - 2 ^ (8 - bits)) ne left
        ∙ rw (run, sum) (mtob_from-zeros (acc + bits) size))
]

-- Zeros after the run, or no prefix length.
mtob_from-false :
    (acc : ℕ) (mask : List ℕ) {n : ℕ}
    → mtob_from acc false mask ≡ some n
    → (n ≡ acc) × (mask ≡ replicate (length mask) 0)
unfolding mtob_from
mtob_from-false acc [] e = (ground arith, refl)
mtob_from-false acc (b ∷ mask) {n} e = ground (arith, mtob_from-false acc mask {n = n})

none-ne-some {ℓ} : {A : Type ℓ} {a : A} → none ≢ some a
none-ne-some e = cc

-- The count `n` is `acc` and the leading ones of the mask, which has no other ones.
abbrev Counts : ℕ → ℕ → List ℕ → Type 0
Counts n acc mask =
    (bits : ℕ) × (n ≡ acc + bits)
    × (bits ≤ length mask * 8)
    × (mask ≡ prefix_mask (length mask) bits)

sound_ones : (mask : List ℕ) (acc n : ℕ) → Counts n (acc + 8) mask → Counts n acc (0xff ∷ mask)
sound_ones mask acc n (bits, count, fits, e) = (
  8 + bits,
  omega arith,
  omega arith,
  ap (◌∷◌ 0xff) e ∙ sym (prefix_mask-long (length mask) bits),
)

sound_last :
    (b : ℕ) (mask : List ℕ) (acc n : ℕ)
    → IsByte b
    → acc + suc (length mask) * 8 < 2 ^ 16
    → b ≢ 0xff
    → (ones_of b).1 ≡ 0
    → mtob_from ((acc + (ones_of b).0) % 2 ^ 16) false mask ≡ some n
    → Counts n acc (b ∷ mask)
sound_last b mask acc n byte fits ne left e =
    let (short, is) = byte_fact b byte ne left in
    let (count, zeros) = mtob_from-false ((acc + (ones_of b).0) % 2 ^ 16) mask e in
    (
      (ones_of b).0,
      omega arith,
      omega arith,
      ap₂ ◌∷◌ is zeros ∙ sym (prefix_mask-short (length mask) (ones_of b).0 short),
    )

mtob_from_sound :
    (mask : List ℕ) (acc n : ℕ)
    → All IsByte mask
    → acc + length mask * 8 < 2 ^ 16
    → mtob_from acc true mask ≡ some n
    → Counts n acc mask
mtob_from_sound [] acc n bytes fits e = (0, unfold mtob_from in ground arith, omega arith, refl)
mtob_from_sound (b ∷ mask) acc n (byte, bytes) fits e = elim (Bool-cases (b == 0xff)) [
  | inl same ↦
      let is : b ≡ 0xff = (==_iff b 0xff).0 same in
      let full : (acc + 8) % 2 ^ 16 ≡ acc + 8 = omega arith in
      let more : mtob_from acc true (0xff ∷ mask) ≡ some n = rw is at e in
      rw is (
        sound_ones mask acc n (
          mtob_from_sound mask (acc + 8) n bytes (omega arith)
            (rw full at (sym (mtob_from-ones acc mask) ∙ more))))
  | inr other ↦
      let ne : b ≢ 0xff = ground arith in
      elim (Bool-cases ((ones_of b).1 == 0)) [
        | inl z ↦
            let left : (ones_of b).1 ≡ 0 = (==_iff _ 0).0 z in
            sound_last b mask acc n byte fits ne left (sym (mtob_from-last acc mask b ne left) ∙ e)
        | inr nz ↦
            absurd (none-ne-some (sym (mtob_from-broken acc mask b ne (λ z. cc (eq→== _ 0 z))) ∙ e))
      ]
]

module _ (mask : List ℕ) (bytes : All IsByte mask) (size : length mask * 8 < 2 ^ 16) where
  -- `addr_mtob` on a mask of bytes, short enough for a `u16` count: it returns `n` exactly where the
  -- mask is `n` leading ones and nothing else.
  pub addr_mtob_iff :
      (n : ℕ)
      → (addr_mtob mask ≡ some n) ↔ ((n ≤ length mask * 8) × (mask ≡ prefix_mask (length mask) n))
  unfolding addr_mtob
  addr_mtob_iff n = (to, of)
    where
      to : addr_mtob mask ≡ some n → (n ≤ length mask * 8) × (mask ≡ prefix_mask (length mask) n)
      to e =
          let (bits, count, fits, is) = mtob_from_sound mask 0 n bytes (omega arith) e in
          let same : n ≡ bits = omega arith in rw same (fits, is)

      of : (n ≤ length mask * 8) × (mask ≡ prefix_mask (length mask) n) → addr_mtob mask ≡ some n
      of (fits, is) =
          ap (mtob_from 0 true) is
          ∙ mtob_from-prefix (length mask) 0 n fits (omega arith)
          ∙ ap some (omega arith)

-- Every prefix length that fits comes back from its mask.
pub addr_mtob-addr_btom :
    (bits size : ℕ)
    → bits ≤ size * 8
    → size * 8 < 2 ^ 16
    → (mask : List ℕ) × (addr_btom bits size ≡ some mask) × (addr_mtob mask ≡ some bits)
unfolding addr_mtob
addr_mtob-addr_btom bits size h fits = (
  prefix_mask size bits,
  addr_btom_lem bits size ∙ rw (le→ltb (size * 8) bits h),
  mtob_from-prefix size 0 bits h (omega arith) ∙ ap some (omega arith),
)
