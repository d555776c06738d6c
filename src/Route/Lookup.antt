-- ===== src/Route/Lookup.antt =====
-- The laws of the routing table.
use we_nmap_in_rust.Prelude.{
  ℕ, ◌≡◌, ◌≤◌, refl, sym, ap, ◌∙◌, List, [], ◌∷◌, Option, none, some, Bool, true, false, not, ◌&&◌,
  ◌==◌, if◌then◌else◌, inl, inr, arith,
}
use we_nmap_in_rust.Prelude.Search.{
  filter_list, max_from, max_by_key, max_from-best, max_from-le, filter_list-Mem, Mem-filter_list,
  find,
}
use mathlib.Core.Path.{subst}
use mathlib.Core.Option.{some-injective}
use mathlib.Core.List.{Memᴰ}
use we_nmap_in_rust.Addr.{Addr, addr_eq, network}
use we_nmap_in_rust.Table.{
  DistinctKeys, find-update, find-retain, update-DistinctKeys, retain-DistinctKeys,
}
use we_nmap_in_rust.Route.{RouteEntry, RouteTable, add, add_dev, delete, get, net_contains}

-- An entry that is a route to an address.
abbrev pub covers : RouteEntry → Addr → Bool
covers e dst = dst.addr_type == e.dst.addr_type && net_contains e.dst dst

abbrev bits : RouteEntry → ℕ
bits e = e.dst.addr_bits

abbrev candidates : Addr → RouteTable → List RouteEntry
candidates dst t =
    filter_list (λ (e : RouteEntry). net_contains e.dst dst)
      (filter_list (λ (e : RouteEntry). dst.addr_type == e.dst.addr_type) t.entries)

both : (p q : Bool) → p ≡ true → q ≡ true → (p && q) ≡ true
both p q e f = rw (e, f) refl

module _ (dst : Addr) (t : RouteTable) where
  candidates-Mem :
      (e : RouteEntry) → Memᴰ e (candidates dst t) → Memᴰ e t.entries × (covers e dst ≡ true)
  candidates-Mem e m =
      let (typed, contains) =
        filter_list-Mem (λ (e : RouteEntry). net_contains e.dst dst)
          (filter_list (λ (e : RouteEntry). dst.addr_type == e.dst.addr_type) t.entries) m in
      let (stored, same) =
        filter_list-Mem (λ (e : RouteEntry). dst.addr_type == e.dst.addr_type) t.entries typed in
      (stored, both (dst.addr_type == e.dst.addr_type) (net_contains e.dst dst) same contains)

  Mem-candidates :
      (e : RouteEntry) → Memᴰ e t.entries → covers e dst ≡ true → Memᴰ e (candidates dst t)
  Mem-candidates e m h =
      Mem-filter_list (λ (e : RouteEntry). net_contains e.dst dst)
        (filter_list (λ (e : RouteEntry). dst.addr_type == e.dst.addr_type) t.entries)
        (Mem-filter_list (λ (e : RouteEntry). dst.addr_type == e.dst.addr_type) t.entries m
          (first (dst.addr_type == e.dst.addr_type) (net_contains e.dst dst) h))
        (second (dst.addr_type == e.dst.addr_type) (net_contains e.dst dst) h)
    where
      first : (p q : Bool) → (p && q) ≡ true → p ≡ true
      first true q h = refl
      first false q h = absurd (ground (arith, h))

      second : (p q : Bool) → (p && q) ≡ true → q ≡ true
      second true q h = h
      second false q h = absurd (ground (arith, h))

max_by_key-Mem : (xs : List RouteEntry) (e : RouteEntry) → max_by_key bits xs ≡ some e → Memᴰ e xs
max_by_key-Mem [] e h = absurd (ground (arith, h))
max_by_key-Mem (x ∷ xs) e h = elim (max_from-best bits x xs).0 [
  | inl first ↦ Memᴰ.head (sym found ∙ first)
  | inr later ↦ Memᴰ.tail (subst (λ a. Memᴰ a xs) found later)
]
  where
    found : max_from bits x xs ≡ e
    found = some-injective _ _ h

max_by_key_largest :
    (xs : List RouteEntry) (e : RouteEntry)
    → Memᴰ e xs
    → (best : RouteEntry) × (max_by_key bits xs ≡ some best) × (bits e ≤ bits best)
max_by_key_largest [] e m = elim m [ ]
max_by_key_largest (x ∷ xs) e (Memᴰ.head h) =
    (max_from bits x xs, refl, omega (arith, ap bits h, (max_from-best bits x xs).1))
max_by_key_largest (x ∷ xs) e (Memᴰ.tail m) = (max_from bits x xs, refl, max_from-le bits x xs m)

get-best :
    (dst : Addr) (t : RouteTable) (e : RouteEntry)
    → Memᴰ e t.entries
    → covers e dst ≡ true
    → (best : RouteEntry) × (get dst t ≡ some best) × (e.dst.addr_bits ≤ best.dst.addr_bits)
unfolding get
get-best dst t e m h = max_by_key_largest (candidates dst t) e (Mem-candidates dst t e m h)

-- What `get` returns is an entry of the table, of the address's family and with a network that
-- contains the address.
get-covers :
    (dst : Addr) (t : RouteTable) (e : RouteEntry)
    → get dst t ≡ some e
    → Memᴰ e t.entries × (covers e dst ≡ true)
unfolding get
get-covers dst t e h = candidates-Mem dst t e (max_by_key-Mem (candidates dst t) e h)

-- If the table has an entry that covers an address, then `get` finds a route, which is an entry of the
-- table that covers the address, and one with a prefix at least as long.
pub get_longest :
    (dst : Addr) (t : RouteTable) (e : RouteEntry)
    → Memᴰ e t.entries
    → covers e dst ≡ true
    → (best : RouteEntry) × (get dst t ≡ some best)
      × Memᴰ best t.entries
      × (covers best dst ≡ true)
      × (e.dst.addr_bits ≤ best.dst.addr_bits)
get_longest dst t e m h =
    let (best, found, longer) = get-best dst t e m h in
    let (entry, covered) = get-covers dst t best found in (best, found, entry, covered, longer)

-- The entry under exactly one destination.
abbrev destination : RouteEntry → Addr
destination e = e.dst

abbrev pub route_under : Addr → RouteTable → Option RouteEntry
route_under dst t = find (λ (e : RouteEntry). addr_eq e.dst dst) t.entries

-- No two routes for one destination.
abbrev pub IsTable : RouteTable → Type 0
IsTable t = DistinctKeys destination t.entries

-- After `add` the entry under its destination is the one added, after `add_dev` it stands under the
-- destination's network, after `delete` there is none; every other destination keeps its entry.
pub add_delete_lem :
    (dst : Addr) (t : RouteTable) (entry : RouteEntry) (gone : Addr)
    → (route_under dst (add entry t)
        ≡ (if addr_eq entry.dst dst then some entry else route_under dst t))
      × (route_under dst (add_dev entry t) ≡ (
          if addr_eq (network entry.dst) dst
          then some (record entry { dst = network entry.dst })
          else route_under dst t))
      × (route_under dst (delete gone t) ≡ (if addr_eq gone dst then none else route_under dst t))
unfolding add add_dev delete
add_delete_lem dst t entry gone = (
  find-update destination (λ existing. record existing { gw = entry.gw }) entry
      (λ e same i. record { dst = same i; gw = entry.gw }) dst t.entries,
  find-update destination (λ existing. record existing { gw = entry.gw })
      (record entry { dst = network entry.dst })
      (λ e same i. record { dst = same i; gw = entry.gw }) dst t.entries,
  find-retain destination dst gone t.entries,
)

-- `add`, `add_dev` and `delete` keep the table free of two routes for one destination.
pub add-delete-IsTable :
    (t : RouteTable) (entry : RouteEntry) (gone : Addr)
    → IsTable t
    → IsTable (add entry t) × IsTable (add_dev entry t) × IsTable (delete gone t)
unfolding add add_dev delete
add-delete-IsTable t entry gone h = (
  update-DistinctKeys destination (λ existing. record existing { gw = entry.gw }) entry
      (λ e same i. record { dst = same i; gw = entry.gw }) t.entries h,
  update-DistinctKeys destination (λ existing. record existing { gw = entry.gw })
      (record entry { dst = network entry.dst })
      (λ e same i. record { dst = same i; gw = entry.gw }) t.entries h,
  retain-DistinctKeys destination (λ e. not (addr_eq e.dst gone)) t.entries h,
)
