-- ===== src/Cli/Interfaces.antt =====
-- `main` and `cmd_interfaces` of wnr/src/main.rs: which command the arguments name, and the rows of
-- the table of interfaces.
use we_nmap_in_rust.Prelude.{
  ℕ, List, [], ◌∷◌, ◌++◌, Option, none, some, Bool, ◌||◌, if◌then◌else◌, map,
}
use we_nmap_in_rust.Prelude.Bytes.{bytes_eq}
use we_nmap_in_rust.Prelude.Text.{Text, chars}
use we_nmap_in_rust.Prelude.Text.Words.{join}
use we_nmap_in_rust.Eth.Text.{print_hex}
use we_nmap_in_rust.Addr.{Addr}
use we_nmap_in_rust.Intf.{IntfEntry, is_up, is_loopback, is_point_to_point, link_addr_slice}

-- The branches of `main`, with the arguments that they are given.
pub data Command : Type 0 where
  usage : Command
  interfaces : Command
  scan : List Text → Command
  pcap : List Text → Command
  route : List Text → Command
  version : Command
  unknown : Text → Command

abbrev either : Text → Text → Text → Bool
either a b word = bytes_eq word a || bytes_eq word b

-- `main`, of the arguments behind the name of the program.
unfoldable pub command_of : List Text → Command
unfolding bytes_eq
command_of [] = usage
command_of (word ∷ args) =
    if either (chars "--interfaces") (chars "-i") word
    then interfaces
    else if either (chars "--scan") (chars "-s") word
    then scan args
    else if either (chars "--pcap") (chars "-p") word
    then pcap args
    else if either (chars "--route") (chars "-r") word
    then route args
    else if either (chars "--version") (chars "-V") word
    then version
    else if either (chars "--help") (chars "-h") word
    then usage
    else unknown word

-- A row of the table: the name, the address, the text of the hardware address, the MTU, the flags.
pub record Row : Type 0 where
  pub name : Text
  pub addr : Addr
  pub mac : Text
  pub mtu : ℕ
  pub flags : Text

abbrev mac_text : Option (List ℕ) → Text
mac_text none = chars "-"
mac_text (some mac) = join b':' (map print_hex mac)

abbrev flag : Bool → Text → List Text
flag on name = if on then name ∷ [] else []

unfoldable pub flag_names : IntfEntry → List Text
unfolding is_up is_loopback is_point_to_point
flag_names e =
    flag (is_up e) (chars "UP")
    ++ flag (is_loopback e) (chars "LOOPBACK")
    ++ flag (is_point_to_point e) (chars "P2P")

unfoldable pub row_of : IntfEntry → Row
unfolding link_addr_slice print_hex flag_names
row_of e = record {
  name = e.name;
  addr = e.addr;
  mac = mac_text (link_addr_slice e);
  mtu = e.mtu;
  flags = join b',' (flag_names e);
}

-- `cmd_interfaces`, of the list of the interfaces: no row stands for the message that there are none.
unfoldable pub cmd_interfaces : List IntfEntry → List Row
unfolding row_of
cmd_interfaces list = map row_of list
