-- ===== src/Addr.antt =====
-- wnr-dnet/src/addr.rs: `Addr`, network masks, comparison. `data` is the list `bytes` of its sixteen
-- octets; an `i32` result is its bit pattern.
pub mod Masks
pub mod Contiguous
pub mod Networks
pub mod Order
pub mod Text
pub mod Parsed
pub mod Typed
mod Tests
mod TextTests
use we_nmap_in_rust.Prelude.{
  ℕ, zero, suc, ◌+◌, ◌-◌, ◌*◌, ◌/◌, ◌%◌, ◌^◌, min, List, [], ◌∷◌, ◌++◌, Option, none, some, Bool,
  true, false, not, ◌&&◌, ltb, ◌==◌, if◌then◌else◌, length, set, take, replicate, bit_and, bit_or,
}
use we_nmap_in_rust.Prelude.Bytes.{byte_at, bytes_eq}
use we_nmap_in_rust.Net.{Ipv4Addr, octets, ipv4_new}

abbrev pub addr_type_none : ℕ
addr_type_none = 0

abbrev pub addr_type_ip : ℕ
addr_type_ip = 2

abbrev pub addr_type_ip6 : ℕ
addr_type_ip6 = 3

abbrev pub addr_type_hw : ℕ
addr_type_hw = 4

abbrev pub ip_addr_len : ℕ
ip_addr_len = 4

abbrev pub ip6_addr_len : ℕ
ip6_addr_len = 16

abbrev pub hw_addr_len : ℕ
hw_addr_len = 6

pub record Addr : Type 0 where
  pub addr_type : ℕ
  pub addr_bits : ℕ
  pub bytes : List ℕ

-- `Addr::default`.
abbrev pub empty : Addr
empty = record { addr_type = 0; addr_bits = 0; bytes = replicate 16 0 }

-- A slice copied to the front of a zeroed array of sixteen bytes.
abbrev pub padded : List ℕ → List ℕ
padded octets = octets ++ replicate (16 - length octets) 0

unfoldable pub ipv4 : Ipv4Addr → Addr
ipv4 ip = record { addr_type = addr_type_ip; addr_bits = 32; bytes = padded (octets ip) }

unfoldable pub ipv6 : List ℕ → Addr
ipv6 octets = record { addr_type = addr_type_ip6; addr_bits = 128; bytes = octets }

unfoldable pub hw : List ℕ → Addr
hw mac = record { addr_type = addr_type_hw; addr_bits = 48; bytes = padded mac }

unfoldable pub ip_version : Addr → ℕ
ip_version a =
    if a.addr_type == addr_type_ip then 4 else if a.addr_type == addr_type_ip6 then 6 else 0

unfoldable pub to_ipv4 : Addr → Option Ipv4Addr
to_ipv4 a =
    if a.addr_type == addr_type_ip
    then some
        (ipv4_new (byte_at a.bytes 0) (byte_at a.bytes 1) (byte_at a.bytes 2) (byte_at a.bytes 3))
    else none

unfoldable pub to_ipv6 : Addr → Option (List ℕ)
to_ipv6 a = if a.addr_type == addr_type_ip6 then some a.bytes else none

unfoldable pub to_hw : Addr → Option (List ℕ)
to_hw a = if a.addr_type == addr_type_hw then some (take hw_addr_len a.bytes) else none

unfoldable pub is_multicast_hw : Addr → Bool
is_multicast_hw a = a.addr_type == addr_type_hw && not (bit_and (byte_at a.bytes 0) 0x01 == 0)

-- `Addr::pack`: every field is written anew.
unfoldable pub pack : ℕ → ℕ → List ℕ → Addr
pack addr_type bits octets = record {
  addr_type = addr_type;
  addr_bits = bits;
  bytes = padded (take 16 octets);
}

-- `(a as i64 - b as i64) as i32` of two words.
abbrev pub difference : ℕ → ℕ → ℕ
difference a b = (a + 2 ^ 32 - b) % 2 ^ 32

-- The loop of `addr_cmp` over the bytes.
unfoldable pub bytes_cmp : List ℕ → List ℕ → ℕ
bytes_cmp [] ys = 0
bytes_cmp (x ∷ xs) [] = 0
bytes_cmp (x ∷ xs) (y ∷ ys) = if x == y then bytes_cmp xs ys else difference x y

unfoldable pub addr_cmp : Addr → Addr → ℕ
unfolding bytes_cmp
addr_cmp a b =
    if not (a.addr_type == b.addr_type)
    then difference a.addr_type b.addr_type
    else if not (a.addr_bits == b.addr_bits)
    then difference a.addr_bits b.addr_bits
    else bytes_cmp a.bytes b.bytes

-- `for m in mask.iter_mut().take(full) { *m = 0xff }`.
unfoldable pub fill_ones : ℕ → List ℕ → List ℕ
fill_ones zero mask = mask
fill_ones (suc full) [] = []
fill_ones (suc full) (m ∷ mask) = 0xff ∷ fill_ones full mask

-- `bits_to_mask_len`; the shift of a `u8` drops what leaves the byte.
unfoldable pub bits_to_mask_len : ℕ → ℕ → Option (List ℕ)
unfolding fill_ones
bits_to_mask_len bits size =
    if ltb (size * 8) bits
    then none
    else let full = bits / 8 in
      let rem = bits % 8 in
      let mask = fill_ones full (replicate size 0) in
      some
        (if ltb 0 rem && ltb full size then set mask full (0xff * 2 ^ (8 - rem) % 2 ^ 8) else mask)

-- `unwrap_or_else(|| vec![0; 16])`.
abbrev pub or_zeros : Option (List ℕ) → List ℕ
or_zeros none = replicate 16 0
or_zeros (some mask) = mask

-- `bits_to_mask`: sixteen zeros if the bits are too many.
unfoldable pub bits_to_mask : ℕ → List ℕ
bits_to_mask bits = or_zeros (bits_to_mask_len bits 16)

-- `for i in 0..16 { data[i] = f(data[i], mask[i]) }`.
unfoldable pub masked : (ℕ → ℕ → ℕ) → List ℕ → List ℕ → List ℕ
masked f [] mask = []
masked f (b ∷ bytes) [] = b ∷ bytes
masked f (b ∷ bytes) (m ∷ mask) = f b m ∷ masked f bytes mask

-- `addr_net`: the host bits are cleared.
unfoldable pub network : Addr → Addr
unfolding masked
network a = record a { bytes = masked bit_and a.bytes (bits_to_mask a.addr_bits) }

-- `addr_bcast`: the host bits are set; `!m` of a byte is `255 - m`.
unfoldable pub broadcast : Addr → Addr
unfolding masked
broadcast a = record a {
  bytes = masked (λ b m. bit_or b (255 - m)) a.bytes (bits_to_mask a.addr_bits);
}

-- `while v & 0x80 != 0 { run += 1; v <<= 1 }` on a byte: the run and what is left of the byte.
-- Eight rounds shift every bit out, so nine units of fuel are enough.
unfoldable pub leading_ones : ℕ → ℕ → ℕ → ℕ × ℕ
leading_ones zero run v = (run, v)
leading_ones (suc fuel) run v =
    let rest = leading_ones fuel (run + 1) (v * 2 % 2 ^ 8) in
    if not (bit_and v 0x80 == 0) then rest else (run, v)

-- `mask_to_bits`, from the count so far.
unfoldable pub mask_to_bits_from : ℕ → List ℕ → ℕ
unfolding leading_ones
mask_to_bits_from bits [] = bits
mask_to_bits_from bits (b ∷ mask) =
    let rest = mask_to_bits_from ((bits + 8) % 2 ^ 16) mask in
    let (count, v) = leading_ones 9 0 b in
    if b == 0xff then rest else if not (v == 0) && not (b == 0) then 0 else (bits + count) % 2 ^ 16

unfoldable pub mask_to_bits : Addr → ℕ
unfolding mask_to_bits_from
mask_to_bits a = mask_to_bits_from 0 a.bytes

-- The loop of `addr_mtob`, from its state `bits`, `in_ones`.
unfoldable pub mtob_from : ℕ → Bool → List ℕ → Option ℕ
unfolding leading_ones
mtob_from bits in_ones [] = some bits
mtob_from bits true (b ∷ mask) =
    let more = mtob_from ((bits + 8) % 2 ^ 16) true mask in
    let (run, v) = leading_ones 9 0 b in
    let ended = mtob_from ((bits + run) % 2 ^ 16) false mask in
    if b == 0xff then more else if not (v == 0) then none else ended
mtob_from bits false (b ∷ mask) =
    let rest = mtob_from bits false mask in if not (b == 0) then none else rest

unfoldable pub addr_mtob : List ℕ → Option ℕ
unfolding mtob_from
addr_mtob mask = mtob_from 0 true mask

unfoldable pub addr_btom : ℕ → ℕ → Option (List ℕ)
addr_btom bits size = bits_to_mask_len bits size

unfoldable pub addr_len : Addr → ℕ
addr_len a =
    if a.addr_type == addr_type_ip
    then ip_addr_len
    else if a.addr_type == addr_type_ip6
    then ip6_addr_len
    else if a.addr_type == addr_type_hw
    then hw_addr_len
    else 0

-- The derived `==` of addresses.
unfoldable pub addr_eq : Addr → Addr → Bool
unfolding bytes_eq
addr_eq a b = a.addr_type == b.addr_type && a.addr_bits == b.addr_bits && bytes_eq a.bytes b.bytes
