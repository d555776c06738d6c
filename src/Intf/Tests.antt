-- ===== src/Intf/Tests.antt =====
-- The flags and the addresses that Linux and Windows give for a loopback and an Ethernet interface.
use we_nmap_in_rust.Prelude.{
  ℕ, ◌≡◌, refl, List, [], ◌∷◌, none, some, true, false, ltb, if◌then◌else◌, replicate, arith,
}
use we_nmap_in_rust.Prelude.Text.{Text, chars}
use we_nmap_in_rust.Net.{ipv4_new}
use we_nmap_in_rust.Addr.{ipv4, ipv6}
use we_nmap_in_rust.Intf.{is_up, is_loopback, is_point_to_point}
use we_nmap_in_rust.Intf.MacOs.{macos_entry, link_addr_of, macos_link_lem}
use we_nmap_in_rust.Intf.Windows.{
  WinAddr, Adapter, until_nul, WinAnswer, no_error, buffer_overflow, windows_entry,
  windows_interfaces,
}
use we_nmap_in_rust.Intf.Windows.Entries.{addresses, windows_entry_lem, windows_interfaces_twice}
use we_nmap_in_rust.Intf.Unix.{IfAddrs, inet, unix_entry, unix_entry_reversed}

-- `IFF_UP`, `IFF_LOOPBACK` (8) and `IFF_RUNNING`, and 127.0.0.1.
abbrev lo : IfAddrs
lo = record { name = some (chars "lo"); flags = 0x49; addr = inet 127 0 0 1 }

-- `IFF_UP`, `IFF_BROADCAST` (2), `IFF_RUNNING` and `IFF_MULTICAST`.
abbrev eth0 : IfAddrs
eth0 = record { name = some (chars "eth0"); flags = 0x1043; addr = inet 192 168 1 5 }

lo_not_loopback : is_loopback (unix_entry lo) ≡ false
unfolding is_loopback unix_entry
lo_not_loopback = refl

eth0_loopback : is_loopback (unix_entry eth0) ≡ true
unfolding is_loopback unix_entry
eth0_loopback = refl

unix_entry_reversed_example : (unix_entry lo).addr ≡ ipv4 (ipv4_new 1 0 0 127)
unix_entry_reversed_example =
    unix_entry_reversed (some (chars "lo")) 0x49 127 0 0 1 (omega arith) (omega arith) (omega arith)
      (omega arith)

-- An Ethernet adapter that is up, with an IPv4 address, one of another family, and an IPv6 address.
abbrev adapter : Adapter
adapter = record {
  friendly_name = some (b'L' ∷ b'A' ∷ b'N' ∷ 0 ∷ []);
  adapter_name = none;
  mtu = 1500;
  if_type = 6;
  oper_status = 1;
  physical_length = 6;
  physical_address = replicate 8 2;
  unicast = WinAddr.inet 10 0 0 7 ∷ WinAddr.other_family ∷ WinAddr.inet6 (replicate 16 1) ∷ [];
}

abbrev as_it_is : List ℕ → Text
as_it_is units = units

windows_entry_lem_example :
    (addresses (windows_entry as_it_is as_it_is adapter)
      ≡ ipv4 (ipv4_new 10 0 0 7) ∷ ipv6 (replicate 16 1) ∷ [])
    × (is_up (windows_entry as_it_is as_it_is adapter) ≡ true)
    × (is_loopback (windows_entry as_it_is as_it_is adapter) ≡ false)
    × (is_point_to_point (windows_entry as_it_is as_it_is adapter) ≡ false)
windows_entry_lem_example = windows_entry_lem as_it_is as_it_is adapter

lan_name : (windows_entry as_it_is as_it_is adapter).name ≡ chars "LAN"
unfolding windows_entry until_nul
lan_name = refl

-- A system that wants 20000 bytes for the one adapter.
abbrev ask : ℕ → WinAnswer
ask size = if ltb size 20000 then buffer_overflow 20000 else no_error (adapter ∷ [])

windows_interfaces_twice_example :
    windows_interfaces as_it_is as_it_is ask 2 ≡ some (windows_entry as_it_is as_it_is adapter ∷ [])
windows_interfaces_twice_example =
    windows_interfaces_twice as_it_is as_it_is ask 20000 0 (adapter ∷ []) (λ size h. ground arith)
      (λ size h. ground arith) (omega arith)

macos_link_lem_example :
    (macos_entry none 1 (link_addr_of (replicate 8 0) (chars "en0") (replicate 6 1))).link_addr
    ≡ (macos_entry none 1 (link_addr_of (replicate 8 0) (chars "en0") (replicate 6 2))).link_addr
macos_link_lem_example =
    macos_link_lem none 1 (replicate 8 0) (chars "en0") (replicate 6 1) (replicate 6 2) refl refl
      refl
