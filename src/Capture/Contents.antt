-- ===== src/Capture/Contents.antt =====
-- What a file or a socket holds, apart from any filter: the packets that are fetched until there is
-- none or an error.
use we_nmap_in_rust.Prelude.{
  ℕ, zero, suc, ◌+◌, ◌<◌, ◌≤◌, List, [], ◌∷◌, Option, none, some, not, length, length-drop, arith,
  ltb, leb, ◌^◌, if_cases, if_both,
}
use we_nmap_in_rust.Prelude.Result.{Result, ok, err}
use we_nmap_in_rust.Prelude.Text.{is_empty}
use we_nmap_in_rust.Savefile.{
  Error, PcapFileHeader, PcapPacket, SavefileReader, read_exact, read_record, read_data, packet_of,
  caplen_refused,
}
use we_nmap_in_rust.Savefile as Savefile
use we_nmap_in_rust.Raw.{
  Direction, Answer, would_block, failed, frame, IoError, RawCapture, receive, pkttype_matches_dir,
}
use we_nmap_in_rust.Raw as Raw
use we_nmap_in_rust.Raw.Windows as RawWindows
use we_nmap_in_rust.Raw.Windows.{WinCapture, WinAnswer, datagram}
use we_nmap_in_rust.Capture.{
  CaptureKind, offline, live, live_windows, CaptureError, fetch, from_file, from_socket,
  from_windows,
}

-- What is left to read: bytes of the file, or answers of the socket.
abbrev pub pending : CaptureKind → ℕ
pending (offline r) = length r.rest
pending (live r) = length r.answers
pending (live_windows r) = length r.answers

-- The packets before the first fetch without one, in at most as many fetches as the fuel.
abbrev pub fetched_first :
    Result CaptureError (Option PcapPacket) → List PcapPacket → List PcapPacket
fetched_first (err e) rest = []
fetched_first (ok none) rest = []
fetched_first (ok (some pkt)) rest = pkt ∷ rest

unfoldable pub contents_within : ℕ → CaptureKind → List PcapPacket
contents_within zero kind = []
contents_within (suc fuel) kind = fetched_first (fetch kind).0 (contents_within fuel (fetch kind).1)

unfoldable pub contents : CaptureKind → List PcapPacket
unfolding contents_within
contents kind = contents_within (suc (pending kind)) kind

-- What an exact read of `n` bytes leaves of `total`, and what a record leaves that starts there.
abbrev Leaves : ℕ → ℕ → Option (List ℕ × List ℕ) → Type 0
Leaves n total none = Unit
Leaves n total (some (taken, rest)) = length rest + n ≤ total

abbrev Shrinks : ℕ → Result Error (Option PcapPacket) × List ℕ → Type 0
Shrinks total (err e, rest) = Unit
Shrinks total (ok none, rest) = Unit
Shrinks total (ok (some pkt), rest) = length rest < total

read_exact-Leaves : (n : ℕ) (bytes : List ℕ) → Leaves n (length bytes) (read_exact n bytes)
unfolding read_exact
read_exact-Leaves n bytes =
    if_cases (Leaves n (length bytes)) (ltb (length bytes) n) (λ _. tt)
      (λ e. ground (arith, e, length-drop n bytes))

packet_of-Shrinks :
    (ts_sec ts_frac caplen origlen n total : ℕ) (o : Option (List ℕ × List ℕ))
    → Leaves n total o
    → (below : ℕ) → total < below
    → Shrinks below (packet_of ts_sec ts_frac caplen origlen o)
unfolding packet_of
packet_of-Shrinks ts_sec ts_frac caplen origlen n total none h below lt = tt
packet_of-Shrinks ts_sec ts_frac caplen origlen n total (some (taken, rest)) h below lt =
    omega (arith, h)

read_record-Shrinks :
    (h : PcapFileHeader) (total : ℕ) (o : Option (List ℕ × List ℕ))
    → Leaves 16 total o
    → Shrinks total (read_record h o)
unfolding read_record read_data
read_record-Shrinks h total none left = tt
read_record-Shrinks h total (some (raw, rest)) left =
    if_cases (Shrinks total) (caplen_refused h _) (λ _. tt)
      (λ _.
        packet_of-Shrinks _ _ _ _ _ (length rest) (read_exact _ rest) (read_exact-Leaves _ rest)
          total (omega (arith, left)))

-- A fetch of a packet leaves less to read.
abbrev pub Consumes : ℕ → Result CaptureError (Option PcapPacket) × CaptureKind → Type 0
Consumes total (err e, kind) = Unit
Consumes total (ok none, kind) = Unit
Consumes total (ok (some pkt), kind) = pending kind < total

receive-Consumes :
    (r : RawCapture) (answers : List Answer) (total : ℕ)
    → length answers ≤ total
    → Consumes total (
        from_socket (
          (receive r.direction r.room answers).0,
          record r { answers = (receive r.direction r.room answers).1 },
        ))
unfolding receive
receive-Consumes r [] total h = tt
receive-Consumes r (would_block ∷ answers) total h = tt
receive-Consumes r (failed ∷ answers) total h = tt
receive-Consumes r (frame pkttype wire ∷ answers) total h =
    if_cases
      (λ (x : Result IoError (Option PcapPacket) × List Answer).
        Consumes total (from_socket (x.0, record r { answers = x.1 })))
      (not (pkttype_matches_dir pkttype r.direction))
      (λ _. receive-Consumes r answers total (omega (arith, h))) (λ _. h)

file-Consumes :
    (r : SavefileReader) (total : ℕ) (x : Result Error (Option PcapPacket) × List ℕ)
    → Shrinks total x
    → Consumes total (from_file (x.0, record r { rest = x.1 }))
file-Consumes r total (err e, rest) h = tt
file-Consumes r total (ok none, rest) h = tt
file-Consumes r total (ok (some pkt), rest) h = h

within-Consumes :
    (r : WinCapture) (answers : List WinAnswer)
    → Consumes (length answers) (
        from_windows (
          (RawWindows.receive_within r.room answers).0,
          record r { answers = (RawWindows.receive_within r.room answers).1 },
        ))
within-Consumes r [] = tt
within-Consumes r (WinAnswer.would_block ∷ answers) = tt
within-Consumes r (WinAnswer.failed ∷ answers) = tt
within-Consumes r (datagram secs micros wire ∷ answers) =
    if_both
      (λ x. Consumes (suc (length answers)) (from_windows (x, record r { answers = answers })))
      (ltb r.room (length wire)) tt
      (if_both
        (λ x. Consumes (suc (length answers)) (from_windows (x, record r { answers = answers })))
        (is_empty wire) tt (omega arith))

windows-Consumes :
    (r : WinCapture)
    → Consumes (length r.answers) (
        from_windows (
          (RawWindows.receive r.room r.answers).0,
          record r { answers = (RawWindows.receive r.room r.answers).1 },
        ))
windows-Consumes r =
    if_both
      (λ (x : Result IoError (Option PcapPacket) × List WinAnswer).
        Consumes (length r.answers) (from_windows (x.0, record r { answers = x.1 })))
      (leb (2 ^ 31) r.room) tt (within-Consumes r r.answers)

pub fetch-Consumes : (kind : CaptureKind) → Consumes (pending kind) (fetch kind)
unfolding fetch Savefile.next_packet Raw.next_packet RawWindows.next_packet
fetch-Consumes (offline r) =
    file-Consumes r (length r.rest) (read_record r.header (read_exact 16 r.rest)) (
      read_record-Shrinks r.header (length r.rest) (read_exact 16 r.rest)
        (read_exact-Leaves 16 r.rest))
fetch-Consumes (live r) = receive-Consumes r r.answers (length r.answers) (omega arith)
fetch-Consumes (live_windows r) = windows-Consumes r
