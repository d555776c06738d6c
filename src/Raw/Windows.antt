-- ===== src/Raw/Windows.antt =====
-- The Windows half of wnr-pcap/src/raw.rs: a raw IPv4 socket. As on Linux the answers of the system are
-- a part of the state.
pub mod Datagrams
use we_nmap_in_rust.Prelude.{
  ℕ, ◌%◌, ◌^◌, max, List, [], ◌∷◌, Option, none, some, Bool, true, false, not, ltb, leb,
  if◌then◌else◌, length,
}
use we_nmap_in_rust.Prelude.Bytes.{bytes_eq}
use we_nmap_in_rust.Prelude.Result.{Result, ok, err}
use we_nmap_in_rust.Prelude.Text.{Text, is_empty}
use we_nmap_in_rust.Net.{Ipv4Addr}
use we_nmap_in_rust.Savefile.{PcapPacket}
use we_nmap_in_rust.Addr.{Addr, to_ipv4}
use we_nmap_in_rust.Intf.{IntfEntry}
use we_nmap_in_rust.Raw.{
  IoError, os_error, unsupported, no_ipv4_address, permission_denied, rcvall_failed, Direction,
}

-- What one `recv` answers: `WSAEWOULDBLOCK`, another error, or a datagram with the time of its arrival
-- in seconds and microseconds. A datagram longer than the buffer is the error `WSAEMSGSIZE`.
pub data WinAnswer : Type 0 where
  would_block : WinAnswer
  failed : WinAnswer
  datagram : (secs micros : ℕ) (wire : List ℕ) → WinAnswer

-- `room` is the length of `buf`; `set_mode` is the answer of `FIONBIO`.
pub record WinCapture : Type 0 where
  pub set_mode : Bool → Bool
  pub answers : List WinAnswer
  pub room : ℕ

-- `to_ipv4` of the first address that has one.
unfoldable pub first_ipv4 : List Addr → Option Ipv4Addr
unfolding to_ipv4
first_ipv4 [] = none
first_ipv4 (a ∷ rest) = elim (to_ipv4 a) [ some ip ↦ some ip | none ↦ first_ipv4 rest ]

-- `interface_ipv4`, in the list of the interfaces.
unfoldable pub interface_ipv4 : List IntfEntry → Text → Option Ipv4Addr
unfolding bytes_eq first_ipv4
interface_ipv4 [] device = none
interface_ipv4 (e ∷ list) device =
    let rest = interface_ipv4 list device in
    if bytes_eq e.name device
    then elim (first_ipv4 (e.addr ∷ e.alias_addrs)) [ some ip ↦ some ip | none ↦ rest ]
    else rest

-- The answers to the calls of `open`, in their order.
pub record Opening : Type 0 where
  pub has_socket : Bool
  pub bound_to : Ipv4Addr → Bool
  pub takes_all : Bool
  pub set_mode : Bool → Bool
  pub answers : List WinAnswer

abbrev pub opened : Opening → ℕ → WinCapture
opened o snaplen = record { set_mode = o.set_mode; answers = o.answers; room = max snaplen 64 }

-- `open` after the lookup of the address.
abbrev pub open_at : Opening → ℕ → Bool → Option Ipv4Addr → Result IoError WinCapture × Bool
open_at o snaplen promisc none = (err no_ipv4_address, false)
open_at o snaplen promisc (some ip) =
    if not o.has_socket
    then (err permission_denied, false)
    else if not (o.bound_to ip)
    then (err os_error, false)
    else if promisc
    then (if o.takes_all then (ok (opened o snaplen), true) else (err rcvall_failed, false))
    else (ok (opened o snaplen), true)

-- `RawCapture::open`: the result, and whether the socket is left open.
unfoldable pub open_socket :
    Opening → List IntfEntry → Text → ℕ → Bool → Result IoError WinCapture × Bool
unfolding interface_ipv4
open_socket o list device snaplen promisc = open_at o snaplen promisc (interface_ipv4 list device)

abbrev pub datagram_packet : ℕ → ℕ → List ℕ → PcapPacket
datagram_packet secs micros wire = record {
  ts_sec = secs % 2 ^ 32;
  ts_frac = micros;
  caplen = length wire % 2 ^ 32;
  origlen = length wire % 2 ^ 32;
  pkttype = 0;
  payload = wire;
}

-- What `recv` into a buffer of a length that an `i32` holds makes of the answers.
abbrev pub receive_within : ℕ → List WinAnswer → Result IoError (Option PcapPacket) × List WinAnswer
receive_within room [] = (ok none, [])
receive_within room (would_block ∷ answers) = (ok none, answers)
receive_within room (failed ∷ answers) = (err os_error, answers)
receive_within room (datagram secs micros wire ∷ answers) = (
  if ltb room (length wire)
      then err os_error
      else if is_empty wire
      then ok none
      else ok (some (datagram_packet secs micros wire)),
  answers,
)

-- The length goes to `recv` as an `i32`. One that is not below 2 ^ 31 is negative there: the call fails,
-- and what the socket has stays.
abbrev pub receive : ℕ → List WinAnswer → Result IoError (Option PcapPacket) × List WinAnswer
receive room answers =
    if leb (2 ^ 31) room then (err os_error, answers) else receive_within room answers

unfoldable pub next_packet : WinCapture → Result IoError (Option PcapPacket) × WinCapture
next_packet r =
    let (result, answers) = receive r.room r.answers in (result, record r { answers = answers })

-- `set_direction` does nothing.
unfoldable pub set_direction : Direction → WinCapture → WinCapture
set_direction dir r = r

unfoldable pub set_nonblock : Bool → WinCapture → Result IoError (Unit {0})
set_nonblock nb r = if r.set_mode nb then ok tt else err os_error

unfoldable pub poll_stats : WinCapture → Result IoError (ℕ × ℕ)
poll_stats r = ok (0, 0)

-- `send_frame` is unsupported.
unfoldable pub send_frame : List ℕ → WinCapture → Result IoError ℕ
send_frame payload r = err unsupported
