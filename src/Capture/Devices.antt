-- ===== src/Capture/Devices.antt =====
-- `findalldevs` and `lookupdev` of wnr-pcap/src/capture.rs, over the list of the interfaces.
use we_nmap_in_rust.Prelude.{
  ℕ, List, [], ◌∷◌, Option, none, some, ◌==◌, if◌then◌else◌, map, bit_and,
}
use we_nmap_in_rust.Prelude.Text.{Text}
use we_nmap_in_rust.Addr.{Addr}
use we_nmap_in_rust.Intf.{IntfEntry, intf_flag_loopback}

abbrev intf_type_eth : ℕ
intf_type_eth = 6

abbrev intf_type_ppp : ℕ
intf_type_ppp = 23

abbrev intf_type_loopback : ℕ
intf_type_loopback = 24

-- The texts of the descriptions.
pub data Description : Type 0 where
  loopback_interface ethernet point_to_point network_interface : Description

pub record Device : Type 0 where
  pub name : Text
  pub description : Description
  pub addresses : List Addr
  pub flags : ℕ

abbrev describe : ℕ → Description
describe t =
    if t == intf_type_loopback
    then loopback_interface
    else if t == intf_type_eth
    then ethernet
    else if t == intf_type_ppp
    then point_to_point
    else network_interface

abbrev device_of : IntfEntry → Device
device_of i = record {
  name = i.name;
  description = describe i.intf_type;
  addresses = i.addr ∷ i.alias_addrs;
  flags = i.flags;
}

unfoldable pub findalldevs : List IntfEntry → List Device
findalldevs list = map device_of list

-- The loop of `lookupdev`, and its fallback to the first device.
abbrev first_name : List Device → Option Text
first_name [] = none
first_name (d ∷ devices) = some d.name

abbrev or_first : Option Text → List Device → Option Text
or_first (some name) devices = some name
or_first none devices = first_name devices

abbrev pub lookup_from : List Device → Option Text
lookup_from [] = none
lookup_from (d ∷ devices) =
    if bit_and d.flags intf_flag_loopback == 0 then some d.name else lookup_from devices

unfoldable pub lookupdev : List IntfEntry → Option Text
unfolding findalldevs
lookupdev list = or_first (lookup_from (findalldevs list)) (findalldevs list)
