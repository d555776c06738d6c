-- ===== src/Addr/Text.antt =====
-- Addresses as text: `FromStr` and `Display` of wnr-dnet/src/addr.rs. The IPv6 parser and printer are
-- those of `std::net::Ipv6Addr`, and are parameters.
use we_nmap_in_rust.Prelude.{
  ◌≤◌, ℕ, ◌≡◌, refl, List, Option, none, some, false, ◌==◌, if◌then◌else◌, length, take,
  take-append_length, replicate, ◌-◌, All, arith,
}
use we_nmap_in_rust.Prelude.Bytes.{IsByte}
use we_nmap_in_rust.Prelude.Result.{Result, ok, err}
use we_nmap_in_rust.Prelude.Text.{Text, chars, contains, trim, is_whitespace}
use we_nmap_in_rust.Prelude.Text.Words.{split_by-word, trim-IsWord}
use we_nmap_in_rust.Net.{Ipv4Addr, ipv4_new}
use we_nmap_in_rust.Net.Ipv4Text.{
  IsIpv4, parse_ipv4, octets_of, print_ipv4, parse-print_ipv4, print_ipv4-IsWord,
}
use we_nmap_in_rust.Eth.{EthAddr, eth_addr}
use we_nmap_in_rust.Eth.Text.{
  eth_pton, eth_ntop, eth_pton-eth_ntop, eth_ntop_has_colon, eth_ntop_no_space, eth_ntop_no_dot,
}
use we_nmap_in_rust.Addr.{
  Addr, ipv4, ipv6, hw, to_ipv4, addr_type_ip, addr_type_ip6, addr_type_hw, hw_addr_len, padded,
}

-- `could not parse address '{}'`.
pub data AddrParseError : Type 0 where
  could_not_parse : Text → AddrParseError

abbrev pub accepted : (EthAddr → Addr) → Text → Option EthAddr → Result AddrParseError Addr
accepted build s none = err (could_not_parse s)
accepted build s (some eth) = ok (build eth)

-- The third attempt: a hardware address, if there is a colon.
abbrev pub try_hw : Text → Result AddrParseError Addr
try_hw s =
    if contains b':' s
    then accepted (λ eth. hw eth.octets) s (eth_pton s)
    else err (could_not_parse s)

abbrev pub try_ipv6 : Option (List ℕ) → Text → Result AddrParseError Addr
try_ipv6 (some ip) s = ok (ipv6 ip)
try_ipv6 none s = try_hw s

abbrev pub ok_or_none : Result AddrParseError Addr → Option Addr
ok_or_none (ok a) = some a
ok_or_none (err e) = none

-- `unwrap_or(UNSPECIFIED)`.
abbrev pub or_unspecified : Option Ipv4Addr → Ipv4Addr
or_unspecified (some ip) = ip
or_unspecified none = ipv4_new 0 0 0 0

-- What an address is built from.
pub data Source : Type 0 where
  of_ipv4 : Ipv4Addr → Source
  of_ipv6 : List ℕ → Source
  of_hw : List ℕ → Source

abbrev pub address : Source → Addr
address (of_ipv4 ip) = ipv4 ip
address (of_ipv6 octets) = ipv6 octets
address (of_hw mac) = hw mac

abbrev pub IsSource : Source → Type 0
IsSource (of_ipv4 ip) = IsIpv4 ip
IsSource (of_ipv6 octets) = length octets ≡ 16
IsSource (of_hw mac) = (length mac ≡ 6) × All IsByte mac

digit_no_space : (c : ℕ) → b'0' ≤ c → c ≤ b'9' → is_whitespace c ≡ false
unfolding is_whitespace
digit_no_space c lo hi = ground arith

take-padded : (mac : List ℕ) → length mac ≡ 6 → take 6 (padded mac) ≡ mac
take-padded mac six = take-append_length 6 mac (replicate (16 - length mac) 0) six

module _ (parse_ipv6 : Text → Option (List ℕ)) where
  abbrev pub try_ipv4 : Option Ipv4Addr → Text → Result AddrParseError Addr
  try_ipv4 (some ip) s = ok (ipv4 ip)
  try_ipv4 none s = try_ipv6 (parse_ipv6 s) s

  abbrev pub parse_trimmed : Text → Result AddrParseError Addr
  parse_trimmed s = try_ipv4 (parse_ipv4 s) s

  -- `Addr::from_str`.
  unfoldable pub from_str : Text → Result AddrParseError Addr
  from_str s = parse_trimmed (trim s)

  unfoldable pub addr_pton : Text → Option Addr
  unfolding from_str
  addr_pton s = ok_or_none (from_str s)

module _ (print_ipv6 : List ℕ → Text) where
  -- `Display::fmt`; `addr_ntop` and `addr_ntoa` are its result.
  unfoldable pub addr_ntop : Addr → Text
  unfolding eth_ntop
  addr_ntop a =
      if a.addr_type == addr_type_ip
      then print_ipv4 (or_unspecified (to_ipv4 a))
      else if a.addr_type == addr_type_ip6
      then print_ipv6 a.bytes
      else if a.addr_type == addr_type_hw
      then eth_ntop (eth_addr (take hw_addr_len a.bytes))
      else chars "(unknown)"

module _ (parse_ipv6 : Text → Option (List ℕ)) (print_ipv6 : List ℕ → Text) where
  -- What `std` documents of its IPv6 text: it is read back, holds no white space, is not an IPv4
  -- address, and needs eight groups or `::`, which a hardware address has not.
  pub record Ipv6Text : Type 0 where
    pub reads_back : (o : List ℕ) → length o ≡ 16 → parse_ipv6 (print_ipv6 o) ≡ some o
    pub trimmed : (o : List ℕ) → trim (print_ipv6 o) ≡ print_ipv6 o
    pub not_ipv4 : (o : List ℕ) → length o ≡ 16 → parse_ipv4 (print_ipv6 o) ≡ none
    pub not_hw :
        (mac : List ℕ)
        → length mac ≡ 6
        → All IsByte mac
        → parse_ipv6 (eth_ntop (eth_addr mac)) ≡ none

  module _ (std : Ipv6Text) where
    ipv4_text :
        (ip : Ipv4Addr)
        → IsIpv4 ip
        → addr_pton parse_ipv6 (addr_ntop print_ipv6 (ipv4 ip)) ≡ some (ipv4 ip)
    unfolding addr_pton from_str addr_ntop ipv4 to_ipv4
    ipv4_text ip h =
        rw
          (
            trim-IsWord (print_ipv4 ip) (
                print_ipv4-IsWord is_whitespace ip digit_no_space (unfold is_whitespace in refl) h),
            parse-print_ipv4 ip h,
          )
          refl

    ipv6_text :
        (o : List ℕ)
        → length o ≡ 16
        → addr_pton parse_ipv6 (addr_ntop print_ipv6 (ipv6 o)) ≡ some (ipv6 o)
    unfolding addr_pton from_str addr_ntop ipv6
    ipv6_text o h = rw (std.trimmed o, std.not_ipv4 o h, std.reads_back o h) refl

    not_ipv4_text : (mac : List ℕ) → All IsByte mac → parse_ipv4 (eth_ntop (eth_addr mac)) ≡ none
    unfolding parse_ipv4 octets_of
    not_ipv4_text mac h =
        rw
          (split_by-word (λ x. x == b'.') (eth_ntop (eth_addr mac))
            (eth_ntop_no_dot (eth_addr mac) h))
          refl

    hw_text :
        (mac : List ℕ)
        → length mac ≡ 6
        → All IsByte mac
        → addr_pton parse_ipv6 (addr_ntop print_ipv6 (hw mac)) ≡ some (hw mac)
    unfolding addr_pton from_str addr_ntop hw
    hw_text mac six h =
        rw
          (
            take-padded mac six,
            trim-IsWord (eth_ntop (eth_addr mac)) (eth_ntop_no_space (eth_addr mac) h),
            not_ipv4_text mac h,
            std.not_hw mac six h,
            eth_ntop_has_colon (eth_addr mac) six,
            eth_pton-eth_ntop (eth_addr mac) six h,
          )
          refl

    -- An IPv4 address of four bytes, an IPv6 address of sixteen and a hardware address of six are read
    -- back from their print, when the IPv6 text of `std` does what it documents.
    pub addr_pton-addr_ntop :
        (s : Source)
        → IsSource s
        → addr_pton parse_ipv6 (addr_ntop print_ipv6 (address s)) ≡ some (address s)
    addr_pton-addr_ntop (of_ipv4 ip) h = ipv4_text ip h
    addr_pton-addr_ntop (of_ipv6 octets) h = ipv6_text octets h
    addr_pton-addr_ntop (of_hw mac) h = hw_text mac h.0 h.1
