-- ===== src/Intf/Unix.antt =====
-- `unix_interfaces` of wnr-dnet/src/intf.rs on Linux, over the list that `getifaddrs` gives, on a
-- little-endian machine.
use we_nmap_in_rust.Prelude.{
  ℕ, ◌/◌, ◌%◌, ◌^◌, ◌≡◌, ap, ◌∙◌, List, [], ◌∷◌, Option, none, some, ◌==◌, if◌then◌else◌, take,
  arith,
}
use we_nmap_in_rust.Prelude.Bytes.{IsByte, u32_from_le}
use we_nmap_in_rust.Prelude.Text.{Text}
use we_nmap_in_rust.Net.{Ipv4Addr, ipv4_new}
use we_nmap_in_rust.Addr.{Addr, empty, ipv4, ipv6, hw}
use we_nmap_in_rust.Intf.{IntfEntry}

-- The address of an entry: four bytes as they stand in memory, sixteen, or a link address with its
-- length; or that of another family.
pub data IfAddr : Type 0 where
  no_addr : IfAddr
  inet : (a b c d : ℕ) → IfAddr
  inet6 : List ℕ → IfAddr
  packet : (halen : ℕ) (bytes : List ℕ) → IfAddr
  other_family : IfAddr

pub record IfAddrs : Type 0 where
  pub name : Option Text
  pub flags : ℕ
  pub addr : IfAddr

-- `Ipv4Addr::from` of a `u32`.
abbrev pub ipv4_from_u32 : ℕ → Ipv4Addr
ipv4_from_u32 n = ipv4_new (n / 2 ^ 24) (n / 2 ^ 16 % 256) (n / 2 ^ 8 % 256) (n % 256)

abbrev or_empty : Option Text → Text
or_empty none = []
or_empty (some name) = name

unfoldable pub entry_addr : IfAddr → Addr
unfolding ipv4 ipv6
entry_addr (inet a b c d) = ipv4 (ipv4_from_u32 (u32_from_le a b c d))
entry_addr (inet6 octets) = ipv6 octets
entry_addr _ = empty

unfoldable pub entry_link : IfAddr → Addr
unfolding hw
entry_link (packet halen bytes) = if halen == 6 then hw (take 6 bytes) else empty
entry_link _ = empty

unfoldable pub unix_entry : IfAddrs → IntfEntry
unfolding entry_addr entry_link
unix_entry ifa = record {
  name = or_empty ifa.name;
  intf_type = 0;
  flags = ifa.flags % 2 ^ 16;
  mtu = 0;
  addr = entry_addr ifa.addr;
  dst_addr = empty;
  link_addr = entry_link ifa.addr;
  alias_addrs = [];
}

unfoldable pub unix_interfaces : List IfAddrs → List IntfEntry
unfolding unix_entry
unix_interfaces [] = []
unix_interfaces (ifa ∷ ifas) = unix_entry ifa ∷ unix_interfaces ifas

same_ipv4 :
    (a a' b b' c c' d d' : ℕ)
    → a ≡ a'
    → b ≡ b'
    → c ≡ c'
    → d ≡ d'
    → ipv4_new a b c d ≡ ipv4_new a' b' c' d'
same_ipv4 a a' b b' c c' d d' p q r s =
    ap (λ x. ipv4_new x b c d) p
    ∙ ap (λ x. ipv4_new a' x c d) q
    ∙ ap (λ x. ipv4_new a' b' x d) r
    ∙ ap (λ x. ipv4_new a' b' c' x) s

reversed_octets :
    (a b c d : ℕ)
    → IsByte a
    → IsByte b
    → IsByte c
    → IsByte d
    → ipv4_from_u32 (u32_from_le a b c d) ≡ ipv4_new d c b a
reversed_octets a b c d ha hb hc hd =
    let n = u32_from_le a b c d in
    same_ipv4 (n / 2 ^ 24) d (n / 2 ^ 16 % 256) c (n / 2 ^ 8 % 256) b (n % 256) a
      (omega (arith, ha, hb, hc, hd)) (omega (arith, ha, hb, hc, hd))
      (omega (arith, ha, hb, hc, hd)) (omega (arith, ha, hb, hc, hd))

-- On a little-endian machine the IPv4 address of an interface has its four bytes in reverse order.
pub unix_entry_reversed :
    (name : Option Text) (flags a b c d : ℕ)
    → IsByte a
    → IsByte b
    → IsByte c
    → IsByte d
    → (unix_entry (record { name = name; flags = flags; addr = inet a b c d })).addr
      ≡ ipv4 (ipv4_new d c b a)
unfolding unix_entry entry_addr
unix_entry_reversed name flags a b c d ha hb hc hd = ap ipv4 (reversed_octets a b c d ha hb hc hd)
