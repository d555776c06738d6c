-- ===== src/Cli/Routes.antt =====
-- `cmd_route` and `resolve_ip` of wnr/src/main.rs. The parser of IPv6 addresses, the resolver and the
-- probe are parameters, and the interfaces of the host are a list.
use we_nmap_in_rust.Prelude.{List, [], ◌∷◌, Option, none, some, if◌then◌else◌, ℕ}
use we_nmap_in_rust.Prelude.Text.{Text}
use we_nmap_in_rust.Net.{Ipv4Addr}
use we_nmap_in_rust.Net.Ipv4Text.{parse_ipv4}
use we_nmap_in_rust.Addr.{Addr, ipv4, ipv6}
use we_nmap_in_rust.Intf.{IntfEntry, SockAddr}
use we_nmap_in_rust.Route.Probe.{route_to}
use we_nmap_in_rust.Cli.{is_option}

-- `std::net::IpAddr`.
pub data IpAddr : Type 0 where
  ip_v4 : Ipv4Addr → IpAddr
  ip_v6 : List ℕ → IpAddr

-- The first argument that is no option.
abbrev pub first_host : List Text → Option Text
first_host [] = none
first_host (a ∷ args) = if is_option a then first_host args else some a

abbrev pub to_addr : IpAddr → Addr
to_addr (ip_v4 ip) = ipv4 ip
to_addr (ip_v6 ip) = ipv6 ip

-- What `cmd_route` prints.
pub data RouteReport : Type 0 where
  no_host : RouteReport
  unresolved : Text → RouteReport
  routed : (host : Text) (ip : IpAddr) (ifname : Text) (src : Addr) → RouteReport
  no_route : (host : Text) (ip : IpAddr) → RouteReport

module _ (parse_ipv6 : Text → Option (List ℕ)) (resolve : Text → Option IpAddr)
    (probe : SockAddr → Option SockAddr) where
  abbrev or_resolved : Text → Option (List ℕ) → Option IpAddr
  or_resolved host (some ip) = some (ip_v6 ip)
  or_resolved host none = resolve host

  abbrev or_ipv6 : Text → Option Ipv4Addr → Option IpAddr
  or_ipv6 host (some ip) = some (ip_v4 ip)
  or_ipv6 host none = or_resolved host (parse_ipv6 host)

  -- `resolve_ip`: a literal address, or the first that the resolver gives.
  unfoldable pub resolve_ip : Text → Option IpAddr
  unfolding parse_ipv4
  resolve_ip host = or_ipv6 host (parse_ipv4 host)

  abbrev shown : Text → IpAddr → Option (Text × Addr) → RouteReport
  shown host ip none = no_route host ip
  shown host ip (some (ifname, src)) = routed host ip ifname src

  abbrev route_ip : List IntfEntry → Text → Option IpAddr → RouteReport
  route_ip list host none = unresolved host
  route_ip list host (some ip) = shown host ip (route_to probe list (to_addr ip))

  abbrev route_host : List IntfEntry → Option Text → RouteReport
  route_host list none = no_host
  route_host list (some host) = route_ip list host (resolve_ip host)

  unfoldable pub cmd_route : List IntfEntry → List Text → RouteReport
  unfolding resolve_ip route_to ipv4 ipv6
  cmd_route list args = route_host list (first_host args)
