-- ===== src/Intf.antt =====
-- wnr-dnet/src/intf.rs: the entries of the interfaces and what is asked of them. The interfaces of the
-- host are a list, and the probe of a route by a datagram socket is a parameter.
pub mod Unix
pub mod MacOs
pub mod Windows
mod Tests
use we_nmap_in_rust.Prelude.{
  ℕ, List, [], ◌∷◌, Option, none, some, ◌>>=◌, Bool, true, false, not, ◌==◌, ◌||◌, if◌then◌else◌,
  bit_and,
}
use we_nmap_in_rust.Prelude.Bytes.{bytes_eq}
use we_nmap_in_rust.Prelude.Search.{find}
use we_nmap_in_rust.Prelude.Text.{Text, is_empty}
use we_nmap_in_rust.Net.{Ipv4Addr, ipv4_new}
use we_nmap_in_rust.Addr.{Addr, ipv4, ipv6, to_ipv4, to_ipv6, to_hw, addr_type_ip, addr_type_ip6}

abbrev pub intf_flag_up : ℕ
intf_flag_up = 0x01

abbrev pub intf_flag_loopback : ℕ
intf_flag_loopback = 0x02

abbrev pub intf_flag_pointopoint : ℕ
intf_flag_pointopoint = 0x04

pub record IntfEntry : Type 0 where
  pub name : Text
  pub intf_type : ℕ
  pub flags : ℕ
  pub mtu : ℕ
  pub addr : Addr
  pub dst_addr : Addr
  pub link_addr : Addr
  pub alias_addrs : List Addr

unfoldable pub is_up : IntfEntry → Bool
is_up e = not (bit_and e.flags intf_flag_up == 0)

unfoldable pub is_loopback : IntfEntry → Bool
is_loopback e = not (bit_and e.flags intf_flag_loopback == 0)

unfoldable pub is_point_to_point : IntfEntry → Bool
is_point_to_point e = not (bit_and e.flags intf_flag_pointopoint == 0)

unfoldable pub link_addr_slice : IntfEntry → Option (List ℕ)
unfolding to_hw
link_addr_slice e = to_hw e.link_addr

-- `interface_by_name`, in the list of the interfaces.
unfoldable pub interface_by_name : List IntfEntry → Text → Option IntfEntry
unfolding bytes_eq
interface_by_name list name = find (λ (e : IntfEntry). bytes_eq e.name name) list

-- `std::net::SocketAddr`, by its variants, with the port.
pub data SockAddr : Type 0 where
  v4 : Ipv4Addr → ℕ → SockAddr
  v6 : List ℕ → ℕ → SockAddr

unfoldable pub addr_to_sockaddr : Addr → Option SockAddr
unfolding to_ipv4 to_ipv6
addr_to_sockaddr a =
    if a.addr_type == addr_type_ip
    then (to_ipv4 a >>= λ ip. some (v4 ip 9))
    else if a.addr_type == addr_type_ip6
    then (to_ipv6 a >>= λ ip. some (v6 ip 9))
    else none

unfoldable pub sockaddr_to_addr : SockAddr → Addr
unfolding ipv4 ipv6
sockaddr_to_addr (v4 ip port) = ipv4 ip
sockaddr_to_addr (v6 ip port) = ipv6 ip

module _ (probe : SockAddr → Option SockAddr) where
  -- `source_addr_for_dest`: the probe binds a socket, connects it and reads its local address.
  unfoldable pub source_addr_for_dest : Addr → Option Addr
  unfolding addr_to_sockaddr sockaddr_to_addr
  source_addr_for_dest dest =
      addr_to_sockaddr dest >>= λ sa. probe sa >>= λ local. some (sockaddr_to_addr local)

  -- The addresses that the text of `source_addr_for_family` names.
  abbrev pub family_dest : ℕ → Option Addr
  family_dest family =
      if family == 2
      then some (ipv4 (ipv4_new 255 255 255 255))
      else if family == 10 || family == 23
      then some (ipv6 (0xff ∷ 1 ∷ 0 ∷ 0 ∷ 0 ∷ 0 ∷ 0 ∷ 0 ∷ 0 ∷ 0 ∷ 0 ∷ 0 ∷ 0 ∷ 0 ∷ 0 ∷ 1 ∷ []))
      else none

  unfoldable pub source_addr_for_family : ℕ → Option Addr
  unfolding source_addr_for_dest ipv4 ipv6
  source_addr_for_family family = family_dest family >>= λ dest. source_addr_for_dest dest

-- The errors of `intf_set`, which never succeeds.
pub data SetError : Type 0 where
  empty_name : SetError
  no_such_interface : Text → SetError
  needs_privileges : SetError

abbrev set_error : Text → Option IntfEntry → SetError
set_error name none = no_such_interface name
set_error name (some e) = needs_privileges

unfoldable pub intf_set : List IntfEntry → IntfEntry → SetError
unfolding interface_by_name
intf_set list entry =
    if is_empty entry.name
    then empty_name
    else set_error entry.name (interface_by_name list entry.name)
