-- ===== src/Capture/Control.antt =====
-- The rest of the handle in wnr-pcap/src/capture.rs: modes, statistics, what is put on the wire, and
-- the loops over the packets.
use we_nmap_in_rust.Prelude.{
  ℕ, zero, suc, ◌+◌, ◌-◌, ◌%◌, ◌^◌, List, [], ◌∷◌, Option, none, some, ◌>>=◌, Bool, leb, ◌==◌, ◌||◌,
  if◌then◌else◌,
}
use we_nmap_in_rust.Prelude.Result.{Result, ok, err}
use we_nmap_in_rust.Savefile.{PcapPacket, SavefileWriter, create, write_packet}
use we_nmap_in_rust.Sendqueue.{Sendqueue}
use we_nmap_in_rust.Raw.{IoError, RawCapture, Direction}
use we_nmap_in_rust.Raw as Raw
use we_nmap_in_rust.Raw.Windows as RawWindows
use we_nmap_in_rust.Capture.{
  PacketHeader, Packet, CaptureKind, offline, live, live_windows, CaptureError, socket_error,
  offline_direction, offline_inject, Capture, Fetched, next_packet,
}

-- The packets received and dropped; `ps_ifdrop` is always 0.
pub record CaptureStats : Type 0 where
  pub ps_recv : ℕ
  pub ps_drop : ℕ
  pub ps_ifdrop : ℕ

-- `poll_stats().unwrap_or((0, 0))`.
abbrev or_zeros : Result IoError (ℕ × ℕ) → ℕ × ℕ
or_zeros (ok counts) = counts
or_zeros (err e) = (0, 0)

abbrev pub counters : CaptureKind → ℕ × ℕ
counters (offline r) = (0, 0)
counters (live r) = or_zeros (Raw.poll_stats r)
counters (live_windows r) = or_zeros (RawWindows.poll_stats r)

unfoldable pub stats : Capture → CaptureStats
stats c =
    let (recv, drop) = counters c.kind in
    record { ps_recv = recv % 2 ^ 32; ps_drop = drop % 2 ^ 32; ps_ifdrop = 0 }

-- What `set_nonblock` makes of the backend's answer.
abbrev pub mode_set :
    Bool → Capture → Result IoError (Unit {0}) → Result CaptureError (Unit {0}) × Capture
mode_set nb c (ok _) = (ok tt, record c { nonblock = nb })
mode_set nb c (err e) = (err (socket_error e), record c { last_err = some (socket_error e) })

abbrev pub ask_mode : Bool → CaptureKind → Result IoError (Unit {0})
ask_mode nb (offline r) = ok tt
ask_mode nb (live r) = Raw.set_nonblock nb r
ask_mode nb (live_windows r) = RawWindows.set_nonblock nb r

unfoldable pub set_nonblock : Bool → Capture → Result CaptureError (Unit {0}) × Capture
set_nonblock nb c = mode_set nb c (ask_mode nb c.kind)

abbrev pub directed : Direction → Capture → CaptureKind → Result CaptureError (Unit {0}) × Capture
directed dir c (offline r) = (err offline_direction, record c { last_err = some offline_direction })
directed dir c (live r) =
    (ok tt, record c { kind = live (Raw.set_direction dir r); direction = dir })
directed dir c (live_windows r) =
    (ok tt, record c { kind = live_windows (RawWindows.set_direction dir r); direction = dir })

unfoldable pub set_direction : Direction → Capture → Result CaptureError (Unit {0}) × Capture
set_direction dir c = directed dir c c.kind

abbrev pub sent_frame : Capture → Result IoError ℕ × RawCapture → Result CaptureError ℕ × Capture
sent_frame c (ok n, r) = (ok n, record c { kind = live r })
sent_frame c (err e, r) =
    (err (socket_error e), record c { kind = live r; last_err = some (socket_error e) })

-- What `inject` makes of an answer of Windows.
abbrev pub sent_datagram : Capture → Result IoError ℕ → Result CaptureError ℕ × Capture
sent_datagram c (ok n) = (ok n, c)
sent_datagram c (err e) = (err (socket_error e), record c { last_err = some (socket_error e) })

abbrev pub inject_into : List ℕ → Capture → CaptureKind → Result CaptureError ℕ × Capture
inject_into payload c (offline r) =
    (err offline_inject, record c { last_err = some offline_inject })
inject_into payload c (live r) = sent_frame c (Raw.send_frame payload r)
inject_into payload c (live_windows r) = sent_datagram c (RawWindows.send_frame payload r)

unfoldable pub inject : List ℕ → Capture → Result CaptureError ℕ × Capture
inject payload c = inject_into payload c c.kind

-- The loop of `transmit_sendqueue`, with the total so far: an error ends it.
abbrev pub transmitted :
    Result CaptureError ℕ × Capture
    → (ℕ → Capture → Result CaptureError ℕ × Capture)
    → Result CaptureError ℕ × Capture
transmitted (err e, c) rest = (err e, c)
transmitted (ok n, c) rest = rest n c

unfoldable pub transmit : List PcapPacket → ℕ → Capture → Result CaptureError ℕ × Capture
unfolding inject
transmit [] total c = (ok total, c)
transmit (pkt ∷ pkts) total c =
    transmitted (inject pkt.payload c) (λ n c'. transmit pkts ((total + n % 2 ^ 32) % 2 ^ 32) c')

unfoldable pub transmit_sendqueue : Sendqueue → Capture → Result CaptureError ℕ × Capture
unfolding transmit
transmit_sendqueue q c = transmit q.pkts 0 c

-- `while let Ok(Some(pkt)) = next_packet()` with a state.
abbrev pub drained {ℓ} :
    {S : Type ℓ}
    → (S → Packet → S)
    → S
    → Result CaptureError (Option Packet)
    → (S → Option S)
    → Option S
drained step s (err e) rest = some s
drained step s (ok none) rest = some s
drained step s (ok (some pkt)) rest = rest (step s pkt)

unfoldable pub drain {ℓ} : {S : Type ℓ} → (S → Packet → S) → S → ℕ → ℕ → Capture → Option S
drain step s rounds zero c = none
drain step s rounds (suc fuel) c = next_packet rounds (suc fuel) c >>= λ r.
    drained step s r.0 (λ s'. drain step s' rounds fuel r.1)

-- One packet of `capture_to_file`: the writer and the count.
abbrev pub write_next : SavefileWriter × ℕ → Packet → SavefileWriter × ℕ
write_next (w, count) (hdr, payload) =
    (write_packet hdr.ts_sec hdr.ts_frac payload w, (count + 1) % 2 ^ 32)

-- `Capture::capture_to_file`: the file written and the number of packets.
unfoldable pub capture_to_file : ℕ → ℕ → ℕ → Capture → Option (SavefileWriter × ℕ)
unfolding drain
capture_to_file rounds fuel linktype c =
    drain write_next (create c.snaplen linktype, 0) rounds fuel c

pub data LoopControl : Type 0 where
  continue_loop break_loop : LoopControl

-- `count <= 0`, of the bit pattern of an `i32`, is no limit.
abbrev pub limit_of : ℕ → ℕ
limit_of count = if count == 0 || leb (2 ^ 31) count then 2 ^ 32 - 1 else count

abbrev pub Looped {ℓ} : Type ℓ → Type ℓ
Looped S = Result CaptureError ℕ × Capture × S

module _ {ℓ} {S : Type ℓ} (cb : S → PacketHeader → List ℕ → LoopControl × S) where
  abbrev pub called :
      LoopControl × S → ℕ → Capture → (Capture → S → Option (Looped S)) → Option (Looped S)
  called (continue_loop, s) processed c rest = rest c s
  called (break_loop, s) processed c rest = some (ok processed, c, s)

  abbrev pub dispatched : Fetched → ℕ → S → (Capture → S → Option (Looped S)) → Option (Looped S)
  dispatched (err e, c) processed s rest = some (err e, c, s)
  dispatched (ok none, c) processed s rest = some (ok processed, c, s)
  dispatched (ok (some (hdr, payload)), c) processed s rest =
      called (cb s hdr payload) (processed + 1) c rest

  -- The loop of `Capture::loop_`, with the packets processed so far.
  unfoldable pub loop_from : ℕ → ℕ → ℕ → ℕ → Capture → S → Option (Looped S)
  loop_from rounds zero limit processed c s = none
  loop_from rounds (suc fuel) limit processed c s =
      if leb limit processed
      then some (ok processed, c, s)
      else (next_packet rounds (suc fuel) c >>= λ r.
          dispatched r processed s (loop_from rounds fuel limit (processed + 1)))

  unfoldable pub loop_ : ℕ → ℕ → ℕ → Capture → S → Option (Looped S)
  unfolding loop_from
  loop_ rounds fuel count c s = loop_from rounds fuel (limit_of count) 0 c s
