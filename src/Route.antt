-- ===== src/Route.antt =====
-- wnr-dnet/src/route.rs: the routing table and the checks of `route_add` and `route_delete`.
-- The live lookup `route_to` is in Route/Probe.
pub mod Prefix
pub mod Lookup
pub mod Probe
mod Tests
use we_nmap_in_rust.Prelude.{
  ℕ, ◌+◌, ◌*◌, List, [], ◌∷◌, Option, none, some, Bool, true, false, not, ◌&&◌, ◌||◌, ltb, ◌==◌,
  if◌then◌else◌, length,
}
use we_nmap_in_rust.Prelude.Search.{filter_list, update_or_push, max_by_key}
use we_nmap_in_rust.Addr.{
  Addr, addr_type_none, addr_type_ip, addr_type_ip6, addr_eq, addr_len, network,
}
use we_nmap_in_rust.Prelude.Bytes.{bytes_eq}

pub record RouteEntry : Type 0 where
  pub dst : Addr
  pub gw : Addr

pub record RouteTable : Type 0 where
  pub entries : List RouteEntry

unfoldable pub add : RouteEntry → RouteTable → RouteTable
unfolding addr_eq
add entry t = record t {
  entries =
      update_or_push (λ (e : RouteEntry). addr_eq e.dst entry.dst)
        (λ (existing : RouteEntry). record existing { gw = entry.gw }) entry t.entries;
}

unfoldable pub add_dev : RouteEntry → RouteTable → RouteTable
unfolding add network
add_dev entry t = add (record entry { dst = network entry.dst }) t

unfoldable pub delete : Addr → RouteTable → RouteTable
unfolding addr_eq
delete dst t = record t {
  entries = filter_list (λ (e : RouteEntry). not (addr_eq e.dst dst)) t.entries;
}

unfoldable pub net_contains : Addr → Addr → Bool
unfolding network bytes_eq
net_contains net addr =
    if not (net.addr_type == addr.addr_type) || net.addr_type == addr_type_none
    then false
    else bytes_eq (network net).bytes (network (record addr { addr_bits = net.addr_bits })).bytes

unfoldable pub get : Addr → RouteTable → Option RouteEntry
unfolding net_contains
get dst t =
    max_by_key (λ (e : RouteEntry). e.dst.addr_bits)
      (filter_list (λ (e : RouteEntry). net_contains e.dst dst)
        (filter_list (λ (e : RouteEntry). dst.addr_type == e.dst.addr_type) t.entries))

unfoldable pub len : RouteTable → ℕ
len t = length t.entries

-- The errors of `route_add` and `route_delete`, which never succeed.
pub data Error : Type 0 where
  empty_destination : Error
  invalid_prefix : ℕ → Error
  bad_gateway : Error
  needs_privileges : Error

unfoldable pub route_add : RouteEntry → Error
unfolding addr_len
route_add entry =
    if entry.dst.addr_type == addr_type_none
    then empty_destination
    else if entry.dst.addr_bits == 0 || ltb (addr_len entry.dst * 8) entry.dst.addr_bits
    then invalid_prefix entry.dst.addr_bits
    else if not (entry.gw.addr_type == addr_type_ip || entry.gw.addr_type == addr_type_ip6)
    then bad_gateway
    else needs_privileges

unfoldable pub route_delete : RouteEntry → Error
route_delete entry =
    if entry.dst.addr_type == addr_type_none then empty_destination else needs_privileges
