-- ===== src/Raw.antt =====
-- The Linux half of wnr-pcap/src/raw.rs: a packet socket. What the kernel answers is a part of the
-- state: the answers that `recvfrom` has yet to give, in their order, and those of the other calls.
pub mod Sockets
pub mod Windows
pub mod Stub
mod Tests
use we_nmap_in_rust.Prelude.{
  ℕ, ◌%◌, ◌^◌, max, List, [], ◌∷◌, ◌++◌, Option, none, some, Bool, true, false, not, ◌==◌,
  if◌then◌else◌, length, take,
}
use we_nmap_in_rust.Prelude.Result.{Result, ok, err}
use we_nmap_in_rust.Prelude.Text.{Text, contains}
use we_nmap_in_rust.Savefile.{PcapPacket}

-- `Direction::In`, `Out` and `InOut`.
pub data Direction : Type 0 where
  dir_in dir_out dir_in_out : Direction

abbrev pub pkt_outgoing : ℕ
pkt_outgoing = 4

unfoldable pub pkttype_matches_dir : ℕ → Direction → Bool
pkttype_matches_dir pkttype dir_in = not (pkttype == pkt_outgoing)
pkttype_matches_dir pkttype dir_out = pkttype == pkt_outgoing
pkttype_matches_dir pkttype dir_in_out = true

-- That of a call of the system, and those that the backends of the systems make themselves.
pub data IoError : Type 0 where
  os_error bad_interface_name unsupported : IoError
  no_ipv4_address permission_denied rcvall_failed : IoError

-- What one `recvfrom` answers: `WouldBlock`, another error, or a frame with its `sll_pkttype`.
pub data Answer : Type 0 where
  would_block : Answer
  failed : Answer
  frame : (pkttype : ℕ) (wire : List ℕ) → Answer

-- What the kernel does with a call: `sendto` returns a number of bytes or an error, for a frame and the
-- frames that it was given before, so that it may refuse what it took earlier; `getsockopt` returns
-- the two counters, and `fcntl` succeeds or not.
pub record Kernel : Type 0 where
  pub send_to : List (List ℕ) → List ℕ → Option ℕ
  pub statistics : Option (ℕ × ℕ)
  pub set_flags : Bool → Bool

-- `room` is the length of `buf`. `sent` lists the frames that were given to `sendto`.
pub record RawCapture : Type 0 where
  pub kernel : Kernel
  pub answers : List Answer
  pub sent : List (List ℕ)
  pub direction : Direction
  pub room : ℕ

-- The packet of a frame: the buffer's share of it.
abbrev pub received : ℕ → ℕ → List ℕ → PcapPacket
received room pkttype wire = record {
  ts_sec = 0;
  ts_frac = 0;
  caplen = length (take room wire) % 2 ^ 32;
  origlen = length (take room wire) % 2 ^ 32;
  pkttype = pkttype;
  payload = take room wire;
}

-- The loop of `next_packet`. With no answer left the socket has nothing: `WouldBlock`.
unfoldable pub receive :
    Direction → ℕ → List Answer → Result IoError (Option PcapPacket) × List Answer
unfolding pkttype_matches_dir
receive dir room [] = (ok none, [])
receive dir room (would_block ∷ answers) = (ok none, answers)
receive dir room (failed ∷ answers) = (err os_error, answers)
receive dir room (frame pkttype wire ∷ answers) =
    let next = receive dir room answers in
    if not (pkttype_matches_dir pkttype dir)
    then next
    else (ok (some (received room pkttype wire)), answers)

unfoldable pub next_packet : RawCapture → Result IoError (Option PcapPacket) × RawCapture
unfolding receive
next_packet r =
    let (result, answers) = receive r.direction r.room r.answers in
    (result, record r { answers = answers })

unfoldable pub set_direction : Direction → RawCapture → RawCapture
set_direction dir r = record r { direction = dir }

unfoldable pub set_nonblock : Bool → RawCapture → Result IoError (Unit {0})
set_nonblock nb r = if r.kernel.set_flags nb then ok tt else err os_error

unfoldable pub poll_stats : RawCapture → Result IoError (ℕ × ℕ)
poll_stats r = elim (r.kernel.statistics) [ none ↦ err os_error | some counters ↦ ok counters ]

abbrev pub answered : RawCapture → Option ℕ → Result IoError ℕ × RawCapture
answered r none = (err os_error, r)
answered r (some n) = (ok n, r)

-- `send_frame`: the frame goes to `sendto`, whatever that answers.
unfoldable pub send_frame : List ℕ → RawCapture → Result IoError ℕ × RawCapture
send_frame payload r =
    answered (record r { sent = r.sent ++ (payload ∷ []) }) (r.kernel.send_to r.sent payload)

-- The answers to the calls of `open`, in their order.
pub record Opening : Type 0 where
  pub has_socket : Bool
  pub ifindex : ℕ
  pub has_bound : Bool
  pub kernel : Kernel
  pub answers : List Answer

-- `RawCapture::open`: the result, and whether the socket is left open. A name that `CString::new`
-- refuses has a NUL.
unfoldable pub open_socket : Opening → Text → ℕ → Result IoError RawCapture × Bool
open_socket o device snaplen =
    if not o.has_socket
    then (err os_error, false)
    else if contains 0 device
    then (err bad_interface_name, true)
    else if o.ifindex == 0
    then (err os_error, false)
    else if not o.has_bound
    then (err os_error, false)
    else (
      ok (record {
        kernel = o.kernel;
        answers = o.answers;
        sent = [];
        direction = dir_in_out;
        room = max snaplen 64;
      }),
      true,
    )
