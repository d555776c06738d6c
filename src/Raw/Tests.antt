-- ===== src/Raw/Tests.antt =====
-- A packet socket that is opened, or not, and the theorem at a name with a NUL.
use we_nmap_in_rust.Prelude.{◌≡◌, refl, [], ◌∷◌, some, none, true, ◌||◌, ◌&&◌, length}
use we_nmap_in_rust.Prelude.Result.{ok}
use we_nmap_in_rust.Prelude.Text.{Text, contains, chars}
use we_nmap_in_rust.Prelude.Bytes.{bytes_eq}
use we_nmap_in_rust.Net.{ipv4_new}
use we_nmap_in_rust.Addr.{ipv4, to_ipv4, empty}
use we_nmap_in_rust.Intf.{IntfEntry}
use we_nmap_in_rust.Raw.{
  Kernel, Opening, open_socket, frame, receive, dir_in, pkttype_matches_dir, received,
}
use we_nmap_in_rust.Raw.Windows as RawWindows
use we_nmap_in_rust.Raw.Sockets.{is_ok, open_socket_lem}

abbrev willing : Kernel
willing = record {
  send_to = λ before payload. some (length payload);
  statistics = none;
  set_flags = λ nb. true;
}

abbrev succeeds : Opening
succeeds = record {
  has_socket = true;
  ifindex = 2;
  has_bound = true;
  kernel = willing;
  answers = [];
}

abbrev nul_name : Text
nul_name = b'e' ∷ 0 ∷ []

skips_outgoing :
    receive dir_in 2 (frame 4 (1 ∷ []) ∷ frame 0 (5 ∷ 6 ∷ 7 ∷ []) ∷ [])
    ≡ (ok (some (received 2 0 (5 ∷ 6 ∷ 7 ∷ []))), [])
unfolding receive pkttype_matches_dir
skips_outgoing = refl

open_socket_lem_example :
    (open_socket succeeds nul_name 65535).1
    ≡ (is_ok (open_socket succeeds nul_name 65535).0 || (true && contains 0 nul_name))
open_socket_lem_example = open_socket_lem succeeds nul_name 65535

-- One interface with an IPv4 address, and a system that agrees to everything.
abbrev lan : IntfEntry
lan = record {
  name = chars "LAN";
  intf_type = 6;
  flags = 1;
  mtu = 1500;
  addr = ipv4 (ipv4_new 10 0 0 7);
  dst_addr = empty;
  link_addr = empty;
  alias_addrs = [];
}

abbrev agrees : RawWindows.Opening
agrees = record {
  has_socket = true;
  bound_to = λ ip. true;
  takes_all = true;
  set_mode = λ nb. true;
  answers = [];
}

opens_on_lan : (RawWindows.open_socket agrees (lan ∷ []) (chars "LAN") 65535 true).1 ≡ true
unfolding RawWindows.open_socket RawWindows.interface_ipv4 RawWindows.first_ipv4 bytes_eq to_ipv4
    ipv4
opens_on_lan = refl
