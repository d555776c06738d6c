-- ===== src/Route/Probe.antt =====
-- `route_to` of wnr-dnet/src/route.rs. The socket that probes the route is a parameter, and the
-- interfaces of the host are a list.
use we_nmap_in_rust.Prelude.{
  List, [], ◌∷◌, Option, none, some, ◌>>=◌, Bool, false, ◌==◌, ◌||◌, if◌then◌else◌,
}
use we_nmap_in_rust.Prelude.Search.{find}
use we_nmap_in_rust.Prelude.Text.{Text, chars}
use we_nmap_in_rust.Addr.{Addr, ipv4, ipv6, to_ipv4, to_ipv6, addr_type_ip, addr_type_ip6, addr_eq}
use we_nmap_in_rust.Intf.{IntfEntry, SockAddr, v4, v6}

unfoldable pub sockaddr : Addr → Option SockAddr
unfolding to_ipv4 to_ipv6
sockaddr a =
    if a.addr_type == addr_type_ip
    then (to_ipv4 a >>= λ ip. some (v4 ip 9))
    else if a.addr_type == addr_type_ip6
    then (to_ipv6 a >>= λ ip. some (v6 ip 9))
    else none

unfoldable pub sockaddr_to_addr : SockAddr → Addr
unfolding ipv4 ipv6
sockaddr_to_addr (v4 ip port) = ipv4 ip
sockaddr_to_addr (v6 ip port) = ipv6 ip

-- Whether an interface has an address, as its own or as an alias.
abbrev has_alias : Addr → List Addr → Bool
has_alias src [] = false
has_alias src (a ∷ aliases) = addr_eq a src || has_alias src aliases

abbrev pub has_addr : Addr → IntfEntry → Bool
has_addr src i = addr_eq i.addr src || has_alias src i.alias_addrs

abbrev name_or_unknown : Option IntfEntry → Text
name_or_unknown none = chars "?"
name_or_unknown (some i) = i.name

abbrev is_ip : Addr → Bool
is_ip a = a.addr_type == addr_type_ip || a.addr_type == addr_type_ip6

module _ (probe : SockAddr → Option SockAddr) where
  unfoldable pub route_to : List IntfEntry → Addr → Option (Text × Addr)
  unfolding sockaddr sockaddr_to_addr addr_eq
  route_to list dst =
      if is_ip dst
      then (sockaddr dst >>= λ sa. probe sa >>= λ local.
          some (
            name_or_unknown (find (has_addr (sockaddr_to_addr local)) list),
            sockaddr_to_addr local,
          ))
      else none
