-- ===== src/Capture.antt =====
-- wnr-pcap/src/capture.rs: a capture of a savefile or of a socket, its filter, and the reads.
pub mod Control
pub mod Contents
pub mod Filtered
pub mod SetFilter
pub mod Loops
pub mod Devices
pub mod Callbacks
pub mod Sockets
pub mod Windows
pub mod WholeFile
mod Tests
mod SocketTests
use we_nmap_in_rust.Prelude.{
  ℕ, zero, suc, ◌+◌, ◌-◌, List, [], ◌∷◌, Option, none, some, ◌>>=◌, Bool, true, false, not, ltb,
  if◌then◌else◌, length, drop,
}
use we_nmap_in_rust.Prelude.Result.{Result, ok, err}
use we_nmap_in_rust.Prelude.Text.{Text}
use we_nmap_in_rust.Datalink.{link_header_len, dlt_en10mb, dlt_raw}
use we_nmap_in_rust.Savefile.{Error, PcapPacket, SavefileReader, open_reader}
use we_nmap_in_rust.Savefile as Savefile
use we_nmap_in_rust.Raw.{IoError, RawCapture, Direction, dir_in_out}
use we_nmap_in_rust.Raw.Windows.{WinCapture}
use we_nmap_in_rust.Raw as Raw
use we_nmap_in_rust.Raw.Windows as RawWindows
use we_nmap_in_rust.Intf.{IntfEntry}
use we_nmap_in_rust.Bpf.Isa.{BpfInsn}
use we_nmap_in_rust.Bpf.Vm.{BpfVm, filter_ok}
use we_nmap_in_rust.Bpf.Vm as Vm
use we_nmap_in_rust.Bpf.Parser.{ParseError, compile}

pub record PacketHeader : Type 0 where
  pub ts_sec : ℕ
  pub ts_frac : ℕ
  pub caplen : ℕ
  pub len : ℕ

pub data CaptureKind : Type 0 where
  offline : SavefileReader → CaptureKind
  live : RawCapture → CaptureKind
  live_windows : WinCapture → CaptureKind

-- The errors of a capture, in place of their messages.
pub data CaptureError : Type 0 where
  savefile_error : Error → CaptureError
  socket_error : IoError → CaptureError
  syntax_error : ParseError → CaptureError
  offline_direction offline_inject : CaptureError

-- `last_err` is `none` while it is the empty string.
pub record Capture : Type 0 where
  pub kind : CaptureKind
  pub snaplen : ℕ
  pub linktype : ℕ
  pub filter : Option (List BpfInsn)
  pub filter_vm : BpfVm
  pub direction : Direction
  pub nonblock : Bool
  pub last_err : Option CaptureError

abbrev pub new_capture : CaptureKind → ℕ → ℕ → Capture
new_capture kind snaplen linktype = record {
  kind = kind;
  snaplen = snaplen;
  linktype = linktype;
  filter = none;
  filter_vm = Vm.new;
  direction = dir_in_out;
  nonblock = false;
  last_err = none;
}

abbrev pub opened_offline : Result Error SavefileReader → Result CaptureError Capture
opened_offline (err e) = err (savefile_error e)
opened_offline (ok r) = ok (new_capture (offline r) r.header.snaplen r.header.linktype)

-- `Capture::open_offline`, of a file with these bytes.
unfoldable pub open_offline : List ℕ → Result CaptureError Capture
open_offline bytes = opened_offline (open_reader bytes)

abbrev opened_live : ℕ → Result IoError RawCapture → Result CaptureError Capture
opened_live snaplen (err e) = err (socket_error e)
opened_live snaplen (ok r) = ok (new_capture (live r) snaplen dlt_en10mb)

-- `Capture::open_live` on Linux, for the kernel's answers.
unfoldable pub open_live : Raw.Opening → Text → ℕ → Result CaptureError Capture
open_live o device snaplen = opened_live snaplen (Raw.open_socket o device snaplen).0

abbrev opened_windows : ℕ → Result IoError WinCapture → Result CaptureError Capture
opened_windows snaplen (err e) = err (socket_error e)
opened_windows snaplen (ok r) = ok (new_capture (live_windows r) snaplen dlt_raw)

-- `Capture::open_live` on Windows: no link header.
unfoldable pub open_windows :
    RawWindows.Opening → List IntfEntry → Text → ℕ → Bool → Result CaptureError Capture
open_windows o list device snaplen promisc =
    opened_windows snaplen (RawWindows.open_socket o list device snaplen promisc).0

abbrev pub filter_set :
    Capture → Result ParseError (List BpfInsn) → Result ParseError (Unit {0}) × Capture
filter_set c (err e) = (err e, record c { last_err = some (syntax_error e) })
filter_set c (ok insns) = (ok tt, record c { filter = some insns; filter_vm = Vm.new })

-- `Capture::set_filter`.
unfoldable pub set_filter : Text → Capture → Result ParseError (Unit {0}) × Capture
unfolding compile
set_filter expr c = filter_set c (compile expr c.linktype)

abbrev pub Packet : Type 0
Packet = PacketHeader × List ℕ

-- The packet as it is handed out.
abbrev pub handed_out : PcapPacket → Packet
handed_out pkt = (
  record { ts_sec = pkt.ts_sec; ts_frac = pkt.ts_frac; caplen = pkt.caplen; len = pkt.origlen },
  pkt.payload,
)

-- The next packet of the file or the socket, and the kind that is left.
abbrev pub from_file :
    Result Error (Option PcapPacket) × SavefileReader
    → Result CaptureError (Option PcapPacket) × CaptureKind
from_file (ok pkt, r) = (ok pkt, offline r)
from_file (err e, r) = (err (savefile_error e), offline r)

abbrev pub from_socket :
    Result IoError (Option PcapPacket) × RawCapture
    → Result CaptureError (Option PcapPacket) × CaptureKind
from_socket (ok pkt, r) = (ok pkt, live r)
from_socket (err e, r) = (err (socket_error e), live r)

abbrev pub from_windows :
    Result IoError (Option PcapPacket) × WinCapture
    → Result CaptureError (Option PcapPacket) × CaptureKind
from_windows (ok pkt, r) = (ok pkt, live_windows r)
from_windows (err e, r) = (err (socket_error e), live_windows r)

unfoldable pub fetch : CaptureKind → Result CaptureError (Option PcapPacket) × CaptureKind
fetch (offline r) = from_file (Savefile.next_packet r)
fetch (live r) = from_socket (Raw.next_packet r)
fetch (live_windows r) = from_windows (RawWindows.next_packet r)

abbrev pub Fetched : Type 0
Fetched = Result CaptureError (Option Packet) × Capture

-- The filter's answer: a packet that it rejects is skipped.
abbrev pub judged :
    (Capture → Option Fetched) → Capture → PcapPacket → Bool × BpfVm → Option Fetched
judged again c pkt (accepted, vm) =
    let tested = record c { filter_vm = vm } in
    let next = again tested in
    if not accepted then next else some (ok (some (handed_out pkt)), tested)

unfoldable pub filtered :
    ℕ → (Capture → Option Fetched) → Capture → PcapPacket → Option (List BpfInsn) → Option Fetched
unfolding filter_ok
filtered rounds again c pkt none = some (ok (some (handed_out pkt)), c)
filtered rounds again c pkt (some insns) =
    filter_ok rounds insns pkt.payload c.filter_vm >>= λ answer. judged again c pkt answer

unfoldable pub fetched :
    ℕ
    → (Capture → Option Fetched)
    → Result CaptureError (Option PcapPacket)
    → Capture
    → Option Fetched
unfolding filtered
fetched rounds again (err e) c = some (err e, c)
fetched rounds again (ok none) c = some (ok none, c)
fetched rounds again (ok (some pkt)) c = filtered rounds again c pkt c.filter

-- `Capture::next_packet`; fuel for its call of itself, and `rounds` for the filter's machine.
unfoldable pub next_packet : ℕ → ℕ → Capture → Option Fetched
unfolding fetched fetch
next_packet rounds zero c = none
next_packet rounds (suc fuel) c =
    let (result, kind) = fetch c.kind in
    fetched rounds (next_packet rounds fuel) result (record c { kind = kind })

-- `while let Ok(Some((hdr, data))) = cap.next_packet() { out.push((hdr, data)) }`.
abbrev pub collected :
    Result CaptureError (Option Packet) → Option (List Packet) → Option (List Packet)
collected (err e) rest = some []
collected (ok none) rest = some []
collected (ok (some pkt)) rest = rest >>= λ pkts. some (pkt ∷ pkts)

unfoldable pub read_from : ℕ → ℕ → Capture → Option (List Packet)
unfolding next_packet
read_from rounds zero c = none
read_from rounds (suc fuel) c =
    next_packet rounds (suc fuel) c >>= λ r. collected r.0 (read_from rounds fuel r.1)

abbrev pub read_opened :
    ℕ → Result CaptureError Capture → Option (Result CaptureError (List Packet))
unfolding read_from
read_opened fuel (err e) = some (err e)
read_opened fuel (ok c) = read_from 0 fuel c >>= λ pkts. some (ok pkts)

-- `read_all`, of a file with these bytes. A fresh capture has no filter to run.
unfoldable pub read_all : ℕ → List ℕ → Option (Result CaptureError (List Packet))
unfolding open_offline read_opened
read_all fuel bytes = read_opened fuel (open_offline bytes)

-- `strip_link_header`.
unfoldable pub strip_link_header : ℕ → List ℕ → Option (ℕ × ℕ × List ℕ)
strip_link_header dlt frame =
    let off = link_header_len dlt in
    if ltb (length frame) off then none else some (off, length frame - off, drop off frame)
