-- ===== src/Addr/Typed.antt =====
-- The size, the type and the prefix length of what wnr-dnet/src/addr.rs makes of a text.
use we_nmap_in_rust.Prelude.{
  ℕ, zero, suc, ◌+◌, ◌-◌, ◌≤◌, ◌≡◌, refl, ap, ◌∙◌, List, [], ◌∷◌, ◌++◌, Option, none, some, ◌⊎◌,
  inl, inr, length, All, All-append, length-append, length-replicate, replicate, bit_and, bit_or,
  arith, if_both, IfSome,
}
use native.Mathlib.Nat.{one-le-pow}
use we_nmap_in_rust.Prelude.Bits.{bit_and-lt, bit_or-lt}
use we_nmap_in_rust.Prelude.Bytes.{IsByte}
use we_nmap_in_rust.Prelude.Text.{Text, contains, trim}
use we_nmap_in_rust.Net.{Ipv4Addr, octets}
use we_nmap_in_rust.Net.Ipv4Text.{IsIpv4, parse_ipv4}
use we_nmap_in_rust.Eth.{EthAddr}
use we_nmap_in_rust.Eth.Text.{eth_pton}
use we_nmap_in_rust.Addr.{
  Addr, ipv4, ipv6, hw, padded, masked, network, broadcast, bits_to_mask, addr_type_ip,
  addr_type_ip6, addr_type_hw,
}
use we_nmap_in_rust.Addr.Networks.{IsMaskByte, bits_to_mask-IsMaskByte}
use we_nmap_in_rust.Addr.Parsed.{parse_ipv4-IsIpv4, IsMac, eth_pton-IsMac}
use we_nmap_in_rust.Addr.Text.{
  accepted, try_hw, try_ipv6, try_ipv4, from_str, ok_or_none, addr_pton,
}

-- A type of address and the length of its prefix.
abbrev pub IsKind : ℕ → ℕ → Type 0
IsKind addr_type bits =
    ((addr_type ≡ addr_type_ip) × (bits ≡ 32))
    ⊎ ((addr_type ≡ addr_type_ip6) × (bits ≡ 128))
    ⊎ ((addr_type ≡ addr_type_hw) × (bits ≡ 48))

pub record IsAddr (a : Addr) : Type 0 where
  pub size : length a.bytes ≡ 16
  pub bytes : All IsByte a.bytes
  pub kind : IsKind a.addr_type a.addr_bits

zeros-IsByte : (n : ℕ) → All IsByte (replicate n 0)
zeros-IsByte zero = tt
zeros-IsByte (suc n) = (omega arith, zeros-IsByte n)

padded-size : (xs : List ℕ) → length xs ≤ 16 → length (padded xs) ≡ 16
padded-size xs h =
    let zeros : List ℕ = replicate (16 - length xs) 0 in
    let all : length (xs ++ zeros) ≡ length xs + length zeros = length-append xs zeros in
    let room : length zeros ≡ 16 - length xs = length-replicate {A = ℕ} (16 - length xs) 0 in
    omega (arith, h, all, room)

padded-IsByte : (xs : List ℕ) → All IsByte xs → All IsByte (padded xs)
padded-IsByte xs h = All-append IsByte xs (replicate (16 - length xs) 0) h (zeros-IsByte _)

ipv4-IsAddr : (ip : Ipv4Addr) → IsIpv4 ip → IsAddr (ipv4 ip)
unfolding ipv4
ipv4-IsAddr ip h = record {
  size = refl;
  bytes = padded-IsByte (octets ip) (h.0, (h.1, (h.2, (h.3, tt))));
  kind = inl (refl, refl);
}

ipv6-IsAddr : (o : List ℕ) → length o ≡ 16 → All IsByte o → IsAddr (ipv6 o)
unfolding ipv6
ipv6-IsAddr o size h = record { size = size; bytes = h; kind = inr (inl (refl, refl)) }

hw-IsAddr : (a : EthAddr) → IsMac a → IsAddr (hw a.octets)
unfolding hw
hw-IsAddr a h = record {
  size = padded-size a.octets (omega (arith, h.0));
  bytes = padded-IsByte a.octets h.1;
  kind = inr (inr (refl, refl));
}

-- A mask changes no length and leaves bytes.
module _ (f : ℕ → ℕ → ℕ) where
  masked-size : (xs mask : List ℕ) → length (masked f xs mask) ≡ length xs
  unfolding masked
  masked-size [] mask = refl
  masked-size (b ∷ bytes) [] = refl
  masked-size (b ∷ bytes) (m ∷ mask) = ap suc (masked-size bytes mask)

  masked-IsByte :
      ((b m : ℕ) → IsByte b → IsMaskByte m → IsByte (f b m))
      → (xs mask : List ℕ) → All IsByte xs
      → All IsMaskByte mask
      → All IsByte (masked f xs mask)
  unfolding masked
  masked-IsByte keeps [] mask h k = tt
  masked-IsByte keeps (b ∷ bytes) [] h k = h
  masked-IsByte keeps (b ∷ bytes) (m ∷ mask) h k =
      (keeps b m h.0 k.0, masked-IsByte keeps bytes mask h.1 k.1)

mask_byte-IsByte : (m : ℕ) → IsMaskByte m → IsByte m
mask_byte-IsByte m (k, small, e) = rw e (omega (arith, one-le-pow (8 - k) 2 (omega arith)))

network-IsAddr : (a : Addr) → IsAddr a → IsAddr (network a)
unfolding network
network-IsAddr a h = record {
  size = masked-size bit_and a.bytes (bits_to_mask a.addr_bits) ∙ h.size;
  bytes =
      masked-IsByte bit_and (λ b m hb hm. bit_and-lt 8 b m hb (mask_byte-IsByte m hm)) a.bytes
        (bits_to_mask a.addr_bits) h.bytes (bits_to_mask-IsMaskByte a.addr_bits);
  kind = h.kind;
}

broadcast-IsAddr : (a : Addr) → IsAddr a → IsAddr (broadcast a)
unfolding broadcast
broadcast-IsAddr a h = record {
  size = masked-size (λ b m. bit_or b (255 - m)) a.bytes (bits_to_mask a.addr_bits) ∙ h.size;
  bytes =
      masked-IsByte (λ b m. bit_or b (255 - m))
        (λ b m hb hm. bit_or-lt 8 b (255 - m) hb (omega arith)) a.bytes (bits_to_mask a.addr_bits)
        h.bytes (bits_to_mask-IsMaskByte a.addr_bits);
  kind = h.kind;
}

-- A parser of the standard library gives sixteen bytes.
abbrev pub GivesIpv6 : (Text → Option (List ℕ)) → Type 0
GivesIpv6 parse_ipv6 = (s : Text) → IfSome (λ o. (length o ≡ 16) × All IsByte o) (parse_ipv6 s)

-- What a text is read as, its network and its broadcast address are addresses.
abbrev pub AreAddrs : Addr → Type 0
AreAddrs a = IsAddr a × IsAddr (network a) × IsAddr (broadcast a)

three : (a : Addr) → IsAddr a → AreAddrs a
three a h = (h, network-IsAddr a h, broadcast-IsAddr a h)

try_hw-AreAddrs : (s : Text) → IfSome AreAddrs (ok_or_none (try_hw s))
try_hw-AreAddrs s =
    if_both (λ r. IfSome AreAddrs (ok_or_none r)) (contains b':' s)
      (hw_accepted (eth_pton s) (eth_pton-IsMac s)) tt
  where
    hw_accepted :
        (o : Option EthAddr)
        → IfSome IsMac o
        → IfSome AreAddrs (ok_or_none (accepted (λ eth. hw eth.octets) s o))
    hw_accepted none h = tt
    hw_accepted (some eth) h = three (hw eth.octets) (hw-IsAddr eth h)

-- Any text that addr_pton reads gives an address of sixteen bytes, which is of one of the three types
-- and has the prefix length of that type, and so do its network and its broadcast address, where the
-- IPv6 parser of the standard library gives sixteen bytes.
pub addr_pton-AreAddrs :
    (parse_ipv6 : Text → Option (List ℕ))
    → GivesIpv6 parse_ipv6
    → (s : Text) → IfSome AreAddrs (addr_pton parse_ipv6 s)
unfolding addr_pton from_str
addr_pton-AreAddrs parse_ipv6 std s = by_ipv4 (parse_ipv4 (trim s)) (parse_ipv4-IsIpv4 (trim s))
  where
    by_ipv6 :
        (o : Option (List ℕ))
        → IfSome (λ o. (length o ≡ 16) × All IsByte o) o
        → IfSome AreAddrs (ok_or_none (try_ipv6 o (trim s)))
    by_ipv6 none h = try_hw-AreAddrs (trim s)
    by_ipv6 (some o) h = three (ipv6 o) (ipv6-IsAddr o h.0 h.1)

    by_ipv4 :
        (o : Option Ipv4Addr)
        → IfSome IsIpv4 o
        → IfSome AreAddrs (ok_or_none (try_ipv4 parse_ipv6 o (trim s)))
    by_ipv4 none h = by_ipv6 (parse_ipv6 (trim s)) (std (trim s))
    by_ipv4 (some ip) h = three (ipv4 ip) (ipv4-IsAddr ip h)
