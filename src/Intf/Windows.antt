-- ===== src/Intf/Windows.antt =====
-- `windows_interfaces` of wnr-dnet/src/intf.rs, over the answers of `GetAdaptersAddresses`. The
-- decoding of UTF-16 and UTF-8 by the standard library is a parameter.
pub mod Entries
use we_nmap_in_rust.Prelude.{
  ℕ, zero, suc, ◌+◌, ◌*◌, ◌%◌, ◌^◌, ◌≤◌, ◌<◌, ◌≡◌, refl, sym, ap, ◌∙◌, List, [], ◌∷◌, ◌++◌, Option,
  none, some, Bool, true, false, ◌==◌, leb, if◌then◌else◌, bit_or, take, length, map, arith,
  Bool-cases, inl, inr, if_both,
}
use we_nmap_in_rust.Prelude.Text.{Text, is_empty, chars}
use we_nmap_in_rust.Net.{ipv4_new}
use we_nmap_in_rust.Addr.{Addr, empty, ipv4, ipv6, hw, addr_type_none}
use we_nmap_in_rust.Intf.{
  IntfEntry, is_up, is_loopback, is_point_to_point, intf_flag_up, intf_flag_loopback,
}

abbrev pub intf_type_eth : ℕ
intf_type_eth = 6

abbrev pub intf_type_loopback : ℕ
intf_type_loopback = 24

-- The socket address of a unicast address: the four bytes of an IPv4 address as they stand in memory,
-- the sixteen of an IPv6 address, or another family.
pub data WinAddr : Type 0 where
  null_addr : WinAddr
  inet : (a b c d : ℕ) → WinAddr
  inet6 : List ℕ → WinAddr
  other_family : WinAddr

-- `IP_ADAPTER_ADDRESSES_LH`: what the code reads of it. A name is the memory that it points at.
pub record Adapter : Type 0 where
  pub friendly_name : Option (List ℕ)
  pub adapter_name : Option (List ℕ)
  pub mtu : ℕ
  pub if_type : ℕ
  pub oper_status : ℕ
  pub physical_length : ℕ
  pub physical_address : List ℕ
  pub unicast : List WinAddr

-- The units of a text up to its NUL.
unfoldable pub until_nul : List ℕ → List ℕ
until_nul [] = []
until_nul (u ∷ us) = if u == 0 then [] else u ∷ until_nul us

-- An address goes to the entry if that has none yet, else to the other ones.
abbrev pub push_addr : Addr → IntfEntry → IntfEntry
push_addr a e =
    if e.addr.addr_type == addr_type_none
    then record e { addr = a }
    else record e { alias_addrs = e.alias_addrs ++ (a ∷ []) }

unfoldable pub push_unicast : List WinAddr → IntfEntry → IntfEntry
unfolding ipv4 ipv6
push_unicast [] e = e
push_unicast (null_addr ∷ us) e = push_unicast us e
push_unicast (inet a b c d ∷ us) e = push_unicast us (push_addr (ipv4 (ipv4_new a b c d)) e)
push_unicast (inet6 octets ∷ us) e = push_unicast us (push_addr (ipv6 octets) e)
push_unicast (other_family ∷ us) e = push_unicast us e

-- What `GetAdaptersAddresses` answers: the adapters, `ERROR_BUFFER_OVERFLOW` with the size that it
-- writes back, or another error.
pub data WinAnswer : Type 0 where
  no_error : List Adapter → WinAnswer
  buffer_overflow : ℕ → WinAnswer
  failed : WinAnswer

module _ (from_utf16_lossy from_utf8_lossy : List ℕ → Text) where
  abbrev pub wide_to_string : Option (List ℕ) → Text
  wide_to_string none = []
  wide_to_string (some units) = from_utf16_lossy (until_nul units)

  abbrev pub ansi_to_string : Option (List ℕ) → Text
  ansi_to_string none = []
  ansi_to_string (some bytes) = from_utf8_lossy (until_nul bytes)

  abbrev or_iface : Text → Text
  or_iface name = if is_empty name then chars "iface" else name

  abbrev pub entry_name : Adapter → Text
  entry_name a =
      let wide = wide_to_string a.friendly_name in
      or_iface (if is_empty wide then ansi_to_string a.adapter_name else wide)

  abbrev pub entry_flags : Adapter → ℕ
  entry_flags a =
      let kind = if a.if_type == 24 then bit_or 0 intf_flag_loopback else 0 in
      if a.oper_status == 1 then bit_or kind intf_flag_up else kind

  abbrev pub entry_link : Adapter → Addr
  entry_link a = if leb 6 a.physical_length then hw (take 6 a.physical_address) else empty

  -- The entry of an adapter before its addresses.
  abbrev pub bare_entry : Adapter → IntfEntry
  bare_entry a = record {
    name = entry_name a;
    intf_type = if a.if_type == 24 then intf_type_loopback else intf_type_eth;
    flags = entry_flags a;
    mtu = a.mtu;
    addr = empty;
    dst_addr = empty;
    link_addr = entry_link a;
    alias_addrs = [];
  }

  unfoldable pub windows_entry : Adapter → IntfEntry
  unfolding until_nul push_unicast hw
  windows_entry a = push_unicast a.unicast (bare_entry a)

  -- The loop, from a size of the buffer; `none` if the fuel is used up before it returns.
  unfoldable pub ask_adapters : (ask : ℕ → WinAnswer) (fuel size : ℕ) → Option (List IntfEntry)
  unfolding windows_entry
  ask_adapters ask zero size = none
  ask_adapters ask (suc fuel) size = elim (ask size) [
    | no_error adapters ↦ some (map windows_entry adapters)
    | buffer_overflow needed ↦ ask_adapters ask fuel ((needed + 8 * 1024) % 2 ^ 32)
    | failed ↦ some []
  ]

  unfoldable pub windows_interfaces : (ask : ℕ → WinAnswer) (fuel : ℕ) → Option (List IntfEntry)
  unfolding ask_adapters
  windows_interfaces ask fuel = ask_adapters ask fuel (15 * 1024)
