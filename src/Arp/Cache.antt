-- ===== src/Arp/Cache.antt =====
-- The laws of the ARP cache.
use we_nmap_in_rust.Prelude.{◌≡◌, none, some, not, if◌then◌else◌}
use we_nmap_in_rust.Addr.{Addr, addr_eq}
use we_nmap_in_rust.Table.{
  DistinctKeys, find-update, find-retain, update-DistinctKeys, retain-DistinctKeys,
}
use we_nmap_in_rust.Arp.{ArpEntry, ArpCache, add, delete, get}

abbrev address : ArpEntry → Addr
address e = e.pa

-- No two entries for one protocol address.
abbrev pub IsCache : ArpCache → Type 0
IsCache c = DistinctKeys address c.entries

module _ (pa : Addr) (c : ArpCache) where
  -- A lookup after `add` gives the entry added if it is looked for, and else what it gave before;
  -- after `delete` it gives nothing for the address deleted, and else what it gave before.
  pub get-add-delete :
      (entry : ArpEntry) (gone : Addr)
      → (get pa (add entry c) ≡ (if addr_eq entry.pa pa then some entry else get pa c))
        × (get pa (delete gone c) ≡ (if addr_eq gone pa then none else get pa c))
  unfolding get add delete
  get-add-delete entry gone = (
    find-update address (λ existing. record existing { ha = entry.ha }) entry
        (λ e same i. record { pa = same i; ha = entry.ha }) pa c.entries,
    find-retain address pa gone c.entries,
  )

-- `add` and `delete` keep the cache free of two entries for one address.
pub add-delete-IsCache :
    (c : ArpCache) (entry : ArpEntry) (gone : Addr)
    → IsCache c
    → IsCache (add entry c) × IsCache (delete gone c)
unfolding add delete
add-delete-IsCache c entry gone h = (
  update-DistinctKeys address (λ existing. record existing { ha = entry.ha }) entry
      (λ e same i. record { pa = same i; ha = entry.ha }) c.entries h,
  retain-DistinctKeys address (λ e. not (addr_eq e.pa gone)) c.entries h,
)
