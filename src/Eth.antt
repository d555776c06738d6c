-- ===== src/Eth.antt =====
-- wnr-dnet/src/eth.rs: hardware addresses and the Ethernet header. Their text is in Eth/Text.
pub mod RoundTrip
pub mod Text
mod Tests
use we_nmap_in_rust.Prelude.{
  ℕ, ◌+◌, List, [], ◌∷◌, ◌++◌, Option, none, some, Bool, not, ltb, ◌==◌, if◌then◌else◌, length,
  take, drop, replicate, bit_and,
}
use we_nmap_in_rust.Prelude.Bytes.{bytes_eq, byte_at, u16_from_be, u16_to_be}
use we_nmap_in_rust.Addr.{Addr, hw}

abbrev pub eth_addr_len : ℕ
eth_addr_len = 6

abbrev pub eth_hdr_len : ℕ
eth_hdr_len = 14

abbrev pub eth_addr_broadcast : List ℕ
eth_addr_broadcast = replicate 6 0xff

-- The six bytes of a hardware address.
pub record EthAddr : Type 0 where
  pub octets : List ℕ

abbrev pub eth_addr : List ℕ → EthAddr
eth_addr octets = record { octets = octets }

unfoldable pub is_multicast : EthAddr → Bool
is_multicast a = not (bit_and (byte_at a.octets 0) 0x01 == 0)

unfoldable pub is_broadcast : EthAddr → Bool
unfolding bytes_eq
is_broadcast a = bytes_eq a.octets eth_addr_broadcast

unfoldable pub to_addr : EthAddr → Addr
unfolding hw
to_addr a = hw a.octets

pub record EthHdr : Type 0 where
  pub dst : EthAddr
  pub src : EthAddr
  pub proto : ℕ

-- `EthHdr::parse`.
unfoldable pub parse : List ℕ → Option EthHdr
parse buf =
    if ltb (length buf) eth_hdr_len
    then none
    else some (record {
      dst = eth_addr (take 6 buf);
      src = eth_addr (take 6 (drop 6 buf));
      proto = u16_from_be (byte_at buf 12) (byte_at buf 13);
    })

-- Bytes written to the front of a buffer; `none` is the panic on a buffer that is too short.
unfoldable pub write_front : List ℕ → List ℕ → Option (List ℕ)
write_front bytes buf =
    if ltb (length buf) (length bytes) then none else some (bytes ++ drop (length bytes) buf)

-- `EthHdr::encode`: the buffer that is left.
unfoldable pub encode : EthHdr → List ℕ → Option (List ℕ)
unfolding write_front
encode h buf = write_front (h.dst.octets ++ (h.src.octets ++ u16_to_be h.proto)) buf
