-- ===== src/Intf/Windows/Entries.antt =====
-- The entries of the interfaces of Windows: the addresses of an adapter, its flags, and the loop that
-- asks for the adapters.
use we_nmap_in_rust.Prelude.{
  ℕ, suc, ◌+◌, ◌*◌, ◌%◌, ◌^◌, ◌≤◌, ◌<◌, ◌≡◌, refl, sym, ap, ◌∙◌, List, [], ◌∷◌, ◌++◌, some, false,
  ◌==◌, ltb, map, arith, Bool-cases, inl, inr, ltb→lt, if_both,
}
use mathlib.Core.List.{append-nil, append_assoc}
use we_nmap_in_rust.Prelude.Text.{Text}
use we_nmap_in_rust.Net.{ipv4_new}
use we_nmap_in_rust.Addr.{Addr, empty, ipv4, ipv6, addr_type_none}
use we_nmap_in_rust.Intf.{IntfEntry, is_up, is_loopback, is_point_to_point}
use we_nmap_in_rust.Intf.Windows.{
  WinAddr, null_addr, inet, inet6, other_family, Adapter, push_addr, push_unicast, WinAnswer,
  no_error, buffer_overflow, windows_entry, bare_entry, entry_flags, ask_adapters,
  windows_interfaces,
}

-- The IPv4 and IPv6 addresses of a list.
abbrev pub known : List WinAddr → List Addr
known [] = []
known (null_addr ∷ us) = known us
known (inet a b c d ∷ us) = ipv4 (ipv4_new a b c d) ∷ known us
known (inet6 octets ∷ us) = ipv6 octets ∷ known us
known (other_family ∷ us) = known us

abbrev pub addresses : IntfEntry → List Addr
addresses e = e.addr ∷ e.alias_addrs

abbrev pub or_none : List Addr → List Addr
or_none [] = empty ∷ []
or_none (a ∷ rest) = a ∷ rest

push_addr-more :
    (a : Addr) (e : IntfEntry)
    → (e.addr.addr_type == addr_type_none) ≡ false
    → push_addr a e ≡ record e { alias_addrs = e.alias_addrs ++ (a ∷ []) }
push_addr-more a e h = rw h refl

-- Further addresses of an entry that has one.
push_unicast-more :
    (us : List WinAddr) (e : IntfEntry)
    → (e.addr.addr_type == addr_type_none) ≡ false
    → addresses (push_unicast us e) ≡ addresses e ++ known us
unfolding push_unicast
push_unicast-more [] e h = sym (append-nil (addresses e))
push_unicast-more (null_addr ∷ us) e h = push_unicast-more us e h
push_unicast-more (inet a b c d ∷ us) e h =
    ap (λ x. addresses (push_unicast us x)) (push_addr-more (ipv4 (ipv4_new a b c d)) e h)
    ∙ push_unicast-more us _ h
    ∙ append_assoc (addresses e) (ipv4 (ipv4_new a b c d) ∷ []) (known us)
push_unicast-more (inet6 octets ∷ us) e h =
    ap (λ x. addresses (push_unicast us x)) (push_addr-more (ipv6 octets) e h)
    ∙ push_unicast-more us _ h
    ∙ append_assoc (addresses e) (ipv6 octets ∷ []) (known us)
push_unicast-more (other_family ∷ us) e h = push_unicast-more us e h

-- The addresses of a list, put into an entry that has none.
push_unicast-first :
    (us : List WinAddr) (e : IntfEntry)
    → addresses (push_unicast us (record e { addr = empty; alias_addrs = [] })) ≡ or_none (known us)
unfolding push_unicast ipv4 ipv6
push_unicast-first [] e = refl
push_unicast-first (null_addr ∷ us) e = push_unicast-first us e
push_unicast-first (inet a b c d ∷ us) e = push_unicast-more us _ refl
push_unicast-first (inet6 octets ∷ us) e = push_unicast-more us _ refl
push_unicast-first (other_family ∷ us) e = push_unicast-first us e

-- The addresses leave the flags alone.
push_unicast-flags : (us : List WinAddr) (e : IntfEntry) → (push_unicast us e).flags ≡ e.flags
unfolding push_unicast
push_unicast-flags [] e = refl
push_unicast-flags (null_addr ∷ us) e = push_unicast-flags us e
push_unicast-flags (inet a b c d ∷ us) e =
    push_unicast-flags us _
    ∙ if_both (λ (x : IntfEntry). x.flags ≡ e.flags) (e.addr.addr_type == addr_type_none) refl refl
push_unicast-flags (inet6 octets ∷ us) e =
    push_unicast-flags us _
    ∙ if_both (λ (x : IntfEntry). x.flags ≡ e.flags) (e.addr.addr_type == addr_type_none) refl refl
push_unicast-flags (other_family ∷ us) e = push_unicast-flags us e

module _ (from_utf16_lossy from_utf8_lossy : List ℕ → Text) where
  flags_lem :
      (a : Adapter) (e : IntfEntry)
      → e.flags ≡ entry_flags from_utf16_lossy from_utf8_lossy a
      → (is_up e ≡ (a.oper_status == 1))
        × (is_loopback e ≡ (a.if_type == 24))
        × (is_point_to_point e ≡ false)
  unfolding is_up is_loopback is_point_to_point
  flags_lem a e h = elim (Bool-cases (a.if_type == 24)) [
    | inl lo ↦ elim (Bool-cases (a.oper_status == 1)) [
      | inl on ↦ rw (h, lo, on) (refl, refl, refl)
      | inr off ↦ rw (h, lo, off) (refl, refl, refl)
    ]
    | inr eth ↦ elim (Bool-cases (a.oper_status == 1)) [
      | inl on ↦ rw (h, eth, on) (refl, refl, refl)
      | inr off ↦ rw (h, eth, off) (refl, refl, refl)
    ]
  ]

  -- The entry of an adapter has all its IPv4 and IPv6 addresses in their order, the first of them as
  -- its primary address; and its flags say up and loopback exactly where the adapter says so, and
  -- never point to point.
  pub windows_entry_lem :
      (a : Adapter)
      → (addresses (windows_entry from_utf16_lossy from_utf8_lossy a) ≡ or_none (known a.unicast))
        × (is_up (windows_entry from_utf16_lossy from_utf8_lossy a) ≡ (a.oper_status == 1))
        × (is_loopback (windows_entry from_utf16_lossy from_utf8_lossy a) ≡ (a.if_type == 24))
        × (is_point_to_point (windows_entry from_utf16_lossy from_utf8_lossy a) ≡ false)
  unfolding windows_entry
  windows_entry_lem a =
      let bare = bare_entry from_utf16_lossy from_utf8_lossy a in
      let (up, loopback, point) = flags_lem a _ (push_unicast-flags a.unicast bare) in
      (push_unicast-first a.unicast bare, up, loopback, point)

  module _ (ask : ℕ → WinAnswer) (more size : ℕ) where
    ask_adapters-overflow :
        (needed : ℕ)
        → ask size ≡ buffer_overflow needed
        → ask_adapters from_utf16_lossy from_utf8_lossy ask (suc more) size
          ≡ ask_adapters from_utf16_lossy from_utf8_lossy ask more ((needed + 8 * 1024) % 2 ^ 32)
    unfolding ask_adapters
    ask_adapters-overflow needed e = rw (e, ask_adapters) refl

    ask_adapters-answered :
        (adapters : List Adapter)
        → ask size ≡ no_error adapters
        → ask_adapters from_utf16_lossy from_utf8_lossy ask (suc more) size
          ≡ some (map (windows_entry from_utf16_lossy from_utf8_lossy) adapters)
    unfolding ask_adapters
    ask_adapters-answered adapters e = rw (e, ask_adapters) refl

  -- Where the system keeps asking for one size and gives the adapters for any buffer of that size, as
  -- its documentation says, two calls give the entries of them all.
  pub windows_interfaces_twice :
      (ask : ℕ → WinAnswer) (needed more : ℕ) (adapters : List Adapter)
      → ((size : ℕ) → size < needed → ask size ≡ buffer_overflow needed)
      → ((size : ℕ) → needed ≤ size → ask size ≡ no_error adapters)
      → needed + 8 * 1024 < 2 ^ 32
      → windows_interfaces from_utf16_lossy from_utf8_lossy ask (suc (suc more))
        ≡ some (map (windows_entry from_utf16_lossy from_utf8_lossy) adapters)
  unfolding windows_interfaces
  windows_interfaces_twice ask needed more adapters small large room =
      elim (Bool-cases (ltb (15 * 1024) needed)) [
        | inl less ↦
            ask_adapters-overflow ask (suc more) (15 * 1024) needed
              (small (15 * 1024) (ltb→lt _ _ less))
            ∙ ask_adapters-answered ask more ((needed + 8 * 1024) % 2 ^ 32) adapters
                (large ((needed + 8 * 1024) % 2 ^ 32) (omega (arith, room)))
        | inr enough ↦
            ask_adapters-answered ask (suc more) (15 * 1024) adapters
              (large (15 * 1024) (ground (arith, enough)))
      ]
