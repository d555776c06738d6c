-- ===== src/Capture/Sockets.antt =====
-- A capture of a packet socket: the frames that it sees and those that it sends.
use we_nmap_in_rust.Prelude.{
  ℕ, zero, suc, ◌+◌, ◌%◌, ◌^◌, ◌<◌, ◌≡◌, refl, sym, ap, ◌∙◌, List, [], ◌∷◌, ◌++◌, Option, none,
  some, ◌>>=◌, Bool, true, not, ◌==◌, min, take, length-take, length, map, keep, arith, Bool-cases,
  inl, inr,
}
use mathlib.Core.List.{append_assoc, append-nil}
use we_nmap_in_rust.Prelude.Result.{Result, ok, err}
use we_nmap_in_rust.Savefile.{PcapPacket}
use we_nmap_in_rust.Raw.{
  Answer, would_block, failed, frame, Direction, dir_in, dir_out, dir_in_out, Kernel, RawCapture,
  received, receive, pkttype_matches_dir, answered, send_frame,
}
use we_nmap_in_rust.Raw as Raw
use we_nmap_in_rust.Capture.{CaptureKind, offline, live, live_windows, CaptureError, Capture, fetch}
use we_nmap_in_rust.Capture.Contents.{contents_within, contents}
use we_nmap_in_rust.Capture.Control.{inject, sent_frame, transmitted, transmit}

-- The frames that the socket has until it has nothing or fails.
abbrev pub Frame : Type 0
Frame = ℕ × List ℕ

abbrev pub frames_first : List Answer → List Frame
frames_first [] = []
frames_first (would_block ∷ answers) = []
frames_first (failed ∷ answers) = []
frames_first (frame pkttype wire ∷ answers) = (pkttype, wire) ∷ frames_first answers

-- A frame of a direction: 4 is `PACKET_OUTGOING` of Linux, and everything else has come in.
abbrev pub goes : Direction → Frame → Bool
goes dir_out f = f.0 == 4
goes dir_in f = not (f.0 == 4)
goes dir_in_out f = true

-- The first bytes of a frame, as many as the buffer holds, under their number.
abbrev pub packet_of : ℕ → Frame → PcapPacket
packet_of room f = record {
  ts_sec = 0;
  ts_frac = 0;
  caplen = min room (length f.1) % 2 ^ 32;
  origlen = min room (length f.1) % 2 ^ 32;
  pkttype = f.0;
  payload = take room f.1;
}

abbrev pub packets_of : ℕ → List Frame → List PcapPacket
packets_of room frames = map (packet_of room) frames

goes_lem :
    (pkttype : ℕ) (wire : List ℕ) (dir : Direction)
    → pkttype_matches_dir pkttype dir ≡ goes dir (pkttype, wire)
unfolding pkttype_matches_dir
goes_lem pkttype wire dir_in = refl
goes_lem pkttype wire dir_out = refl
goes_lem pkttype wire dir_in_out = refl

packet_of_lem :
    (room pkttype : ℕ) (wire : List ℕ) → received room pkttype wire ≡ packet_of room (pkttype, wire)
packet_of_lem room pkttype wire =
    let e : length (take room wire) ≡ min room (length wire) = length-take room wire in rw e refl

live_contents :
    (r : RawCapture) (answers : List Answer) (n : ℕ)
    → length answers < n
    → contents_within n (live (record r { answers = answers }))
      ≡ packets_of r.room (keep (goes r.direction) (frames_first answers))
unfolding contents_within fetch Raw.next_packet receive
live_contents r answers zero h = absurd (omega arith)
live_contents r [] (suc n) h = refl
live_contents r (would_block ∷ answers) (suc n) h = refl
live_contents r (failed ∷ answers) (suc n) h = refl
live_contents r (frame pkttype wire ∷ answers) (suc n) h =
    rw (goes_lem pkttype wire r.direction) (elim (Bool-cases (goes r.direction (pkttype, wire))) [
      | inl e ↦
          rw (e, packet_of_lem r.room pkttype wire)
            (ap (λ l. packet_of r.room (pkttype, wire) ∷ l)
              (live_contents r answers n (omega (arith, h))))
      | inr e ↦ rw e (live_contents r answers (suc n) (omega (arith, h)))
    ])

-- A socket's capture holds the frames of the chosen direction, in their order and cut to the buffer,
-- up to the first moment without a frame.
pub contents-live :
    (r : RawCapture)
    → contents (live r) ≡ packets_of r.room (keep (goes r.direction) (frames_first r.answers))
unfolding contents
contents-live r = live_contents r r.answers (suc (length r.answers)) (omega arith)

-- What a kernel makes of a list of frames, after those that it was given before: the frames that it is
-- given, up to the first that it refuses, and the sum of its answers, if it refuses none.
abbrev stop_or : Option ℕ → List (List ℕ) → List (List ℕ)
stop_or none rest = []
stop_or (some n) rest = rest

abbrev pub given : Kernel → List (List ℕ) → List PcapPacket → List (List ℕ)
given k before [] = []
given k before (pkt ∷ pkts) =
    pkt.payload
    ∷ stop_or (k.send_to before pkt.payload) (given k (before ++ (pkt.payload ∷ [])) pkts)

abbrev pub sum_sent : Kernel → List (List ℕ) → List PcapPacket → Option ℕ
sum_sent k before [] = some 0
sum_sent k before (pkt ∷ pkts) = k.send_to before pkt.payload >>= λ n.
    sum_sent k (before ++ (pkt.payload ∷ [])) pkts >>= λ sum. some (n + sum)

-- With what was counted before.
abbrev pub total_sent : Kernel → List (List ℕ) → List PcapPacket → ℕ → Option ℕ
total_sent k before pkts total = sum_sent k before pkts >>= λ sum. some ((total + sum) % 2 ^ 32)

abbrev pub sent_on : CaptureKind → List (List ℕ)
sent_on (offline r) = []
sent_on (live r) = r.sent
sent_on (live_windows r) = []

abbrev pub value : Result CaptureError ℕ → Option ℕ
value (ok n) = some n
value (err e) = none

abbrev Transmits : List PcapPacket → Type 0
Transmits pkts =
    (total : ℕ) (c : Capture) (r : RawCapture)
    → total < 2 ^ 32
    → (sent_on (transmit pkts total (record c { kind = live r })).1.kind
        ≡ r.sent ++ given r.kernel r.sent pkts)
      × (value (transmit pkts total (record c { kind = live r })).0
          ≡ total_sent r.kernel r.sent pkts total)

-- The sum wraps at every packet or once.
wrap_once :
    (total n : ℕ) (o : Option ℕ)
    → (o >>= λ sum. some (((total + n % 2 ^ 32) % 2 ^ 32 + sum) % 2 ^ 32))
      ≡ ((o >>= λ sum. some (n + sum)) >>= λ sum. some ((total + sum) % 2 ^ 32))
wrap_once total n none = refl
wrap_once total n (some sum) = ap some (omega arith)

transmit-one :
    (payload : List ℕ) (pkts : List PcapPacket) (total : ℕ) (c : Capture) (r : RawCapture)
    → Transmits pkts
    → (o : Option ℕ)
    → let before = r.sent ++ (payload ∷ []) in
      let handed = record r { sent = before } in
      let after =
        transmitted
          (sent_frame c (answered handed o))
          (λ n c'. transmit pkts ((total + n % 2 ^ 32) % 2 ^ 32) c') in
      (sent_on after.1.kind ≡ r.sent ++ (payload ∷ stop_or o (given r.kernel before pkts)))
      × (value after.0
          ≡ (o >>= λ n. sum_sent r.kernel before pkts >>= λ sum. some (n + sum)) >>= λ sum.
              some ((total + sum) % 2 ^ 32))
transmit-one payload pkts total c r rest none = (refl, refl)
transmit-one payload pkts total c r rest (some n) =
    let before : List (List ℕ) = r.sent ++ (payload ∷ []) in
    let (sent, sum) =
      rest ((total + n % 2 ^ 32) % 2 ^ 32) c (record r { sent = before }) (omega arith) in
    (
      sent ∙ append_assoc r.sent (payload ∷ []) (given r.kernel before pkts),
      sum ∙ wrap_once total n (sum_sent r.kernel before pkts),
    )

-- The queue on a live capture, with a count below 2 ^ 32 so far: the socket is given its frames in
-- their order, up to the first that the kernel refuses, and the result is that count and the sum of the
-- kernel's answers, modulo 2 ^ 32, or an error if it refuses one.
pub transmit-live :
    (pkts : List PcapPacket) (total : ℕ) (c : Capture) (r : RawCapture)
    → total < 2 ^ 32
    → (sent_on (transmit pkts total (record c { kind = live r })).1.kind
        ≡ r.sent ++ given r.kernel r.sent pkts)
      × (value (transmit pkts total (record c { kind = live r })).0
          ≡ total_sent r.kernel r.sent pkts total)
unfolding transmit inject send_frame
transmit-live [] total c r h =
    let e : total ≡ (total + 0) % 2 ^ 32 = omega (arith, h) in (sym (append-nil r.sent), ap some e)
transmit-live (pkt ∷ pkts) total c r h =
    transmit-one pkt.payload pkts total c r (transmit-live pkts)
      (r.kernel.send_to r.sent pkt.payload)
