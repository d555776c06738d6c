-- ===== src/Eth/RoundTrip.antt =====
-- An Ethernet header of wnr-dnet/src/eth.rs, encoded and read back.
use we_nmap_in_rust.Prelude.{
  ℕ, ◌/◌, ◌%◌, ◌^◌, ◌≤◌, ◌≡◌, refl, ap, ◌∙◌, List, ◌++◌, some, ◌>>=◌, le→ltb, length, length-append,
  drop, take-append_length, drop-append_length, get_or-append, arith,
}
use mathlib.Core.List.{append_assoc}
use we_nmap_in_rust.Prelude.Bytes.{IsU16, u16_from_be, u16_to_be}
use we_nmap_in_rust.Eth.{EthAddr, EthHdr, parse, write_front, encode}

-- The six bytes of the array.
abbrev pub IsEthAddr : EthAddr → Type 0
IsEthAddr a = length a.octets ≡ 6

-- A write to the front of a buffer that is long enough.
pub write_front-fits :
    (n : ℕ) (bytes buf : List ℕ)
    → length bytes ≡ n
    → n ≤ length buf
    → write_front bytes buf ≡ some (bytes ++ drop (length bytes) buf)
unfolding write_front
write_front-fits n bytes buf e h = rw (le→ltb (length buf) (length bytes) (omega arith)) refl

pub u16-be : (n : ℕ) → IsU16 n → u16_from_be (n / 2 ^ 8 % 2 ^ 8) (n % 2 ^ 8) ≡ n
u16-be n h = omega arith

-- The parse of a header's bytes, whatever follows them.
module _ (dst src : EthAddr) (proto : ℕ) (is_dst : IsEthAddr dst) (is_src : IsEthAddr src)
    (fits : IsU16 proto) (rest : List ℕ) where
  parse-fields :
      parse (dst.octets ++ (src.octets ++ (u16_to_be proto ++ rest)))
      ≡ some (record { dst = dst; src = src; proto = proto })
  unfolding parse
  parse-fields =
      rw
        (
          le→ltb (length (dst.octets ++ (src.octets ++ (u16_to_be proto ++ rest)))) 14 long,
          take-append_length 6 dst.octets (src.octets ++ (u16_to_be proto ++ rest)) is_dst,
          drop-append_length 6 dst.octets (src.octets ++ (u16_to_be proto ++ rest)) is_dst,
          take-append_length 6 src.octets (u16_to_be proto ++ rest) is_src,
          get_or-append 6 dst.octets (src.octets ++ (u16_to_be proto ++ rest)) 6 0 is_dst,
          get_or-append 6 src.octets (u16_to_be proto ++ rest) 0 0 is_src,
          get_or-append 6 dst.octets (src.octets ++ (u16_to_be proto ++ rest)) 7 0 is_dst,
          get_or-append 6 src.octets (u16_to_be proto ++ rest) 1 0 is_src,
          u16-be proto fits,
        )
        refl
    where
      long : 14 ≤ length (dst.octets ++ (src.octets ++ (u16_to_be proto ++ rest)))
      long = omega (
        arith,
        is_dst,
        is_src,
        length-append dst.octets (src.octets ++ (u16_to_be proto ++ rest)),
        length-append src.octets (u16_to_be proto ++ rest),
      )

-- A header with two addresses of six bytes and a 16-bit protocol, encoded into a buffer of at least
-- 14 bytes, is read back from that buffer.
pub parse-encode :
    (h : EthHdr) (buf : List ℕ)
    → IsEthAddr h.dst
    → IsEthAddr h.src
    → IsU16 h.proto
    → 14 ≤ length buf
    → (encode h buf >>= parse) ≡ some h
unfolding encode
parse-encode h buf is_dst is_src fits long =
    ap (λ o. o >>= parse)
      (write_front-fits 14 (h.dst.octets ++ (h.src.octets ++ u16_to_be h.proto)) buf size long)
    ∙ ap parse (
        append_assoc h.dst.octets (h.src.octets ++ u16_to_be h.proto) rest
        ∙ ap (λ l. h.dst.octets ++ l) (append_assoc h.src.octets (u16_to_be h.proto) rest))
    ∙ parse-fields h.dst h.src h.proto is_dst is_src fits rest
  where
    size : length (h.dst.octets ++ (h.src.octets ++ u16_to_be h.proto)) ≡ 14
    size = omega (
      arith,
      is_dst,
      is_src,
      length-append h.dst.octets (h.src.octets ++ u16_to_be h.proto),
      length-append h.src.octets (u16_to_be h.proto),
    )

    rest : List ℕ
    rest = drop (length (h.dst.octets ++ (h.src.octets ++ u16_to_be h.proto))) buf
