-- ===== src/Route/Tests.antt =====
-- The table of the unit tests: a default route, a /8 and a /16.
use we_nmap_in_rust.Prelude.{
  ℕ, ◌≡◌, ◌≤◌, refl, some, none, not, ◌&&◌, true, ◌==◌, if◌then◌else◌, [], ◌∷◌, replicate, arith,
}
use mathlib.Core.List.{Memᴰ}
use we_nmap_in_rust.Addr.{
  Addr, addr_type_none, addr_eq, network, masked, bits_to_mask, bits_to_mask_len, fill_ones,
}
use we_nmap_in_rust.Prelude.Bytes.{bytes_eq}
use we_nmap_in_rust.Route.{RouteEntry, RouteTable, add, add_dev, delete, get, net_contains}
use we_nmap_in_rust.Route.Prefix.{same_prefix, IsData, net_contains_lem}
use we_nmap_in_rust.Route.Lookup.{covers, get_longest, route_under, add_delete_lem}

abbrev ip : ℕ → ℕ → ℕ → ℕ → ℕ → Addr
ip bits a b c d = record { addr_type = 2; addr_bits = bits; bytes = a ∷ b ∷ c ∷ d ∷ replicate 12 0 }

abbrev ten : RouteEntry
ten = record { dst = ip 8 10 0 0 0; gw = ip 32 10 0 0 1 }

abbrev ten_one : RouteEntry
ten_one = record { dst = ip 16 10 1 0 0; gw = ip 32 10 1 0 1 }

abbrev default_route : RouteEntry
default_route = record { dst = ip 0 0 0 0 0; gw = ip 32 192 168 1 1 }

abbrev table : RouteTable
table = record { entries = default_route ∷ ten_one ∷ ten ∷ [] }

abbrev query : Addr
query = ip 32 10 1 2 3

get-query : get query table ≡ some ten_one
unfolding get net_contains network masked bits_to_mask bits_to_mask_len fill_ones bytes_eq
get-query = refl

ten-covers : covers ten query ≡ true
unfolding net_contains network masked bits_to_mask bits_to_mask_len fill_ones bytes_eq
ten-covers = refl

ip-IsData : IsData (ip 8 10 0 0 0)
ip-IsData = record { sixteen = refl; octets = grind arith }

query-IsData : IsData query
query-IsData = record { sixteen = refl; octets = grind arith }

net_contains_lem_example :
    net_contains (ip 8 10 0 0 0) query
    ≡ ((2 == 2) && not (2 == addr_type_none) && same_prefix 8 (ip 8 10 0 0 0).bytes query.bytes)
net_contains_lem_example =
    net_contains_lem (ip 8 10 0 0 0) query ip-IsData query-IsData (omega arith)

get_longest_example :
    (best : RouteEntry) × (get query table ≡ some best)
    × Memᴰ best table.entries
    × (covers best query ≡ true)
    × (8 ≤ best.dst.addr_bits)
get_longest_example =
    get_longest query table ten (Memᴰ.tail (Memᴰ.tail (Memᴰ.head refl))) ten-covers

add_delete_lem_example :
    (route_under query (add ten table)
      ≡ (if addr_eq ten.dst query then some ten else route_under query table))
    × (route_under query (add_dev ten table) ≡ (
        if addr_eq (network ten.dst) query
        then some (record ten { dst = network ten.dst })
        else route_under query table))
    × (route_under query (delete ten.dst table)
        ≡ (if addr_eq ten.dst query then none else route_under query table))
add_delete_lem_example = add_delete_lem query table ten ten.dst

abbrev one_route : RouteTable
one_route = record { entries = ten ∷ [] }
