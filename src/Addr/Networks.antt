-- ===== src/Addr/Networks.antt =====
-- `network` and `broadcast` as operations on the host bits.
use we_nmap_in_rust.Prelude.{
  ℕ, zero, suc, ◌+◌, ◌-◌, ◌*◌, ◌/◌, ◌%◌, ◌^◌, ◌≤◌, ◌<◌, ◌≡◌, refl, ap, ap₂, ◌∙◌, List, [], ◌∷◌,
  Bool, true, ◌&&◌, ltb, leb, ◌==◌, if◌then◌else◌, length, replicate, All, arith, bit_and, bit_or,
  if_cases, if_both, ◌≢◌,
}
use we_nmap_in_rust.Prelude.Bits.{holds_below, holds_below_sound}
use we_nmap_in_rust.Prelude.Bytes.{IsByte, byte_at}
use we_nmap_in_rust.Net.{Ipv4Addr}
use we_nmap_in_rust.Addr.{
  Addr, or_zeros, ipv4, fill_ones, masked, bits_to_mask, network, broadcast, addr_btom,
  bits_to_mask_len,
}
use we_nmap_in_rust.Addr.Masks.{prefix_mask, addr_btom_lem}

-- The byte with `k` leading ones.
abbrev ones : ℕ → ℕ
ones k = 256 - 2 ^ (8 - k)

-- The laws of one byte `b` under one byte `m` of a mask.
abbrev are_byte_laws : ℕ → ℕ → Bool
are_byte_laws b m =
    bit_and (bit_and b m) m == bit_and b m
    && bit_and (bit_or b (255 - m)) m == bit_and b m
    && bit_or (bit_and b m) (255 - m) == bit_or b (255 - m)
    && bit_or (bit_or b (255 - m)) (255 - m) == bit_or b (255 - m)

-- Checked for the nine bytes that a mask can hold, and all bytes under them.
law_table : holds_below 2304 (λ p. are_byte_laws (p % 256) (ones (p / 256))) ≡ true
unfolding holds_below
law_table = refl

abbrev pub IsMaskByte : ℕ → Type 0
IsMaskByte m = (k : ℕ) × (k < 9) × (m ≡ ones k)

byte_laws : (b m : ℕ) → IsByte b → IsMaskByte m → are_byte_laws b m ≡ true
byte_laws b m hb (k, hk, e) =
    let p : ℕ = k * 256 + b in
    let low : (k * 256 + b) % 256 ≡ b = omega arith in
    let high : (k * 256 + b) / 256 ≡ k = omega arith in
    rw e (
      rw (low, high) at
        (holds_below_sound 2304 (λ p. are_byte_laws (p % 256) (ones (p / 256))) (k * 256 + b)
          law_table (omega arith)))

zeros-IsMaskByte : (n : ℕ) → All IsMaskByte (replicate n 0)
zeros-IsMaskByte zero = tt
zeros-IsMaskByte (suc n) = ((0, omega arith, refl), zeros-IsMaskByte n)

prefix_mask-IsMaskByte : (size bits : ℕ) → All IsMaskByte (prefix_mask size bits)
prefix_mask-IsMaskByte zero bits = tt
prefix_mask-IsMaskByte (suc size) bits =
    if_cases (All IsMaskByte) (leb 8 bits)
      (λ _. ((8, omega arith, refl), prefix_mask-IsMaskByte size (bits - 8)))
      (λ e. ((bits, ground arith, refl), zeros-IsMaskByte size))

-- The mask of an address: as many leading ones as `addr_bits` says, or none if they are too many.
pub bits_to_mask_lem :
    (bits : ℕ) → bits_to_mask bits ≡ (if ltb 128 bits then replicate 16 0 else prefix_mask 16 bits)
unfolding bits_to_mask addr_btom
bits_to_mask_lem bits =
    ap or_zeros (addr_btom_lem bits 16)
    ∙ if_cases (λ o. or_zeros o ≡ (if ltb 128 bits then replicate 16 0 else prefix_mask 16 bits))
        (ltb 128 bits) (λ e. rw e) (λ e. rw e)

pub bits_to_mask-IsMaskByte : (bits : ℕ) → All IsMaskByte (bits_to_mask bits)
bits_to_mask-IsMaskByte bits =
    rw (bits_to_mask_lem bits) (
      if_both (All IsMaskByte) (ltb 128 bits) (zeros-IsMaskByte 16)
        (prefix_mask-IsMaskByte 16 bits))

-- Two operations under one mask, byte by byte.
masked-masked :
    (f g h : ℕ → ℕ → ℕ)
    → ((b m : ℕ) → IsByte b → IsMaskByte m → f (g b m) m ≡ h b m)
    → (bytes mask : List ℕ) → All IsByte bytes
    → All IsMaskByte mask
    → masked f (masked g bytes mask) mask ≡ masked h bytes mask
unfolding masked
masked-masked f g h law [] mask hb hm = refl
masked-masked f g h law (b ∷ bytes) [] hb hm = refl
masked-masked f g h law (b ∷ bytes) (m ∷ mask) hb hm =
    ap₂ ◌∷◌ (law b m hb.0 hm.0) (masked-masked f g h law bytes mask hb.1 hm.1)

abbrev clear : ℕ → ℕ → ℕ
clear b m = bit_and b m

abbrev set_host : ℕ → ℕ → ℕ
set_host b m = bit_or b (255 - m)

module _ (a : Addr) (bytes : All IsByte a.bytes) where
  under :
      (f g h : ℕ → ℕ → ℕ)
      → ((b m : ℕ) → IsByte b → IsMaskByte m → f (g b m) m ≡ h b m)
      → ◌≡◌ {A = Addr}
          (record a {
            bytes =
                masked f (masked g a.bytes (bits_to_mask a.addr_bits)) (bits_to_mask a.addr_bits);
          })
          (record a { bytes = masked h a.bytes (bits_to_mask a.addr_bits) })
  under f g h law =
      ap (λ l. record a { bytes = l })
        (masked-masked f g h law a.bytes (bits_to_mask a.addr_bits) bytes
          (bits_to_mask-IsMaskByte a.addr_bits))

  -- Of an address of bytes, whatever its prefix length: the network address and the broadcast
  -- address of its network address and of its broadcast address are its own.
  pub network_broadcast :
      (network (network a) ≡ network a)
      × (network (broadcast a) ≡ network a)
      × (broadcast (network a) ≡ broadcast a)
      × (broadcast (broadcast a) ≡ broadcast a)
  unfolding network broadcast
  network_broadcast = (
    under clear clear clear (λ b m hb hm. ground (arith, byte_laws b m hb hm)),
    under clear set_host clear (λ b m hb hm. ground (arith, byte_laws b m hb hm)),
    under set_host clear set_host (λ b m hb hm. ground (arith, byte_laws b m hb hm)),
    under set_host set_host set_host (λ b m hb hm. ground (arith, byte_laws b m hb hm)),
  )

byte_at-masked :
    (f : ℕ → ℕ → ℕ) (bytes mask : List ℕ) (i : ℕ)
    → i < length bytes
    → i < length mask
    → byte_at (masked f bytes mask) i ≡ f (byte_at bytes i) (byte_at mask i)
unfolding masked
byte_at-masked f [] mask i h k = absurd (omega arith)
byte_at-masked f (b ∷ bytes) [] i h k = absurd (omega arith)
byte_at-masked f (b ∷ bytes) (m ∷ mask) zero h k = refl
byte_at-masked f (b ∷ bytes) (m ∷ mask) (suc i) h k =
    byte_at-masked f bytes mask i (omega arith) (omega arith)

last_mask_table :
    holds_below 33 (λ b. byte_at (bits_to_mask b) 15 == 0 && length (bits_to_mask b) == 16) ≡ true
unfolding holds_below bits_to_mask bits_to_mask_len fill_ones
last_mask_table = refl

-- The broadcast address of an IPv4 address has ones behind its four bytes, where every `Addr::ipv4`
-- is padded with zeros: the two are never equal, even as networks of the same length.
pub broadcast-ne-ipv4 :
    (ip ip' : Ipv4Addr) (bits : ℕ)
    → bits ≤ 32
    → broadcast (record (ipv4 ip) { addr_bits = bits }) ≢ record (ipv4 ip') { addr_bits = bits }
unfolding broadcast ipv4
broadcast-ne-ipv4 ip ip' bits h e = absurd (
    omega (
      arith,
      ap (λ (a : Addr). byte_at a.bytes 15) e,
      byte_at-masked set_host (ipv4 ip).bytes (bits_to_mask bits) 15 (omega arith)
          (omega (arith, sixteen)),
      ap (λ (m : ℕ). bit_or 0 (255 - m)) last_zero,
    ))
  where
    table : (byte_at (bits_to_mask bits) 15 == 0 && length (bits_to_mask bits) == 16) ≡ true
    table =
        holds_below_sound 33
          (λ b. byte_at (bits_to_mask b) 15 == 0 && length (bits_to_mask b) == 16) bits
          last_mask_table (omega arith)

    last_zero : byte_at (bits_to_mask bits) 15 ≡ 0
    last_zero = ground (arith, table)

    sixteen : length (bits_to_mask bits) ≡ 16
    sixteen = ground (arith, table)
