-- ===== src/Capture/Windows.antt =====
-- A capture on Windows: the datagrams that it sees, and what it refuses to send.
use we_nmap_in_rust.Prelude.{
  ℕ, zero, suc, ◌<◌, ◌≡◌, refl, ap, List, [], ◌∷◌, Bool, not, ◌&&◌, true, false, ltb, leb, ◌%◌, ◌^◌,
  length, map, arith, Bool-cases, inl, inr, if◌then◌else◌,
}
use we_nmap_in_rust.Prelude.Text.{is_empty}
use we_nmap_in_rust.Savefile.{PcapPacket}
use we_nmap_in_rust.Raw.Windows.{
  WinCapture, WinAnswer, would_block, failed, datagram, datagram_packet,
}
use we_nmap_in_rust.Raw.Windows as RawWindows
use we_nmap_in_rust.Capture.{live_windows, fetch}
use we_nmap_in_rust.Capture.Contents.{contents_within, contents}

-- A datagram: its time in seconds and microseconds, and its bytes.
abbrev pub Datagram : Type 0
Datagram = ℕ × ℕ × List ℕ

-- The datagrams that the socket has until it has nothing or fails.
abbrev pub datagrams_first : List WinAnswer → List Datagram
datagrams_first [] = []
datagrams_first (would_block ∷ answers) = []
datagrams_first (failed ∷ answers) = []
datagrams_first (datagram secs micros wire ∷ answers) =
    (secs, micros, wire) ∷ datagrams_first answers

abbrev pub take_while : (Datagram → Bool) → List Datagram → List Datagram
take_while p [] = []
take_while p (d ∷ ds) = if p d then d ∷ take_while p ds else []

-- A datagram that is not empty and fits into the buffer, whose length is an `i32`.
abbrev pub fits : ℕ → Datagram → Bool
fits room d = ltb room (2 ^ 31) && not (ltb room (length d.2)) && not (is_empty d.2)

-- The whole datagram, with its time.
abbrev pub packet_of : Datagram → PcapPacket
packet_of d = record {
  ts_sec = d.0 % 2 ^ 32;
  ts_frac = d.1;
  caplen = length d.2;
  origlen = length d.2;
  pkttype = 0;
  payload = d.2;
}

-- What the code makes of a datagram that fits.
packet-fits :
    (room secs micros : ℕ) (wire : List ℕ)
    → ltb room (2 ^ 31) ≡ true
    → ltb room (length wire) ≡ false
    → datagram_packet secs micros wire ≡ packet_of (secs, micros, wire)
packet-fits room secs micros wire i32 short =
    let e : length wire % 2 ^ 32 ≡ length wire = ground (arith, i32, short) in rw e refl

windows_contents :
    (r : WinCapture) (answers : List WinAnswer) (n : ℕ)
    → ltb r.room (2 ^ 31) ≡ true
    → leb (2 ^ 31) r.room ≡ false
    → length answers < n
    → contents_within n (live_windows (record r { answers = answers }))
      ≡ map packet_of (take_while (fits r.room) (datagrams_first answers))
unfolding contents_within fetch RawWindows.next_packet
windows_contents r answers zero i32 e h = absurd (omega arith)
windows_contents r [] (suc n) i32 e h = rw e refl
windows_contents r (would_block ∷ answers) (suc n) i32 e h = rw e refl
windows_contents r (failed ∷ answers) (suc n) i32 e h = rw e refl
windows_contents r (datagram secs micros wire ∷ answers) (suc n) i32 e h =
    elim (Bool-cases (ltb r.room (length wire))) [
      | inl long ↦ rw (e, i32, long) refl
      | inr short ↦ elim (Bool-cases (is_empty wire)) [
        | inl nothing ↦ rw (e, i32, short, nothing) refl
        | inr some_bytes ↦
            rw (e, i32, short, some_bytes, packet-fits r.room secs micros wire i32 short)
              (ap (λ l. packet_of (secs, micros, wire) ∷ l)
                (windows_contents r answers n i32 e (omega (arith, h))))
      ]
    ]

-- No datagram fits into a buffer that is too long.
too_long :
    (room : ℕ) (ds : List Datagram)
    → ltb room (2 ^ 31) ≡ false
    → map packet_of (take_while (fits room) ds) ≡ []
too_long room [] e = refl
too_long room (d ∷ ds) e = rw e refl

-- On Windows a capture holds the datagrams of its socket in their order, whole and with their times, up
-- to the first moment without one, the first error, the first empty datagram, and the first datagram
-- that is longer than the buffer. It holds none if the buffer has 2 ^ 31 bytes or more.
pub contents-windows :
    (r : WinCapture)
    → contents (live_windows r)
      ≡ map packet_of (take_while (fits r.room) (datagrams_first r.answers))
unfolding contents contents_within fetch RawWindows.next_packet
contents-windows r = elim (Bool-cases (leb (2 ^ 31) r.room)) [
  | inl long ↦ rw (long, too_long r.room (datagrams_first r.answers) (ground (arith, long))) refl
  | inr i32 ↦
      windows_contents r r.answers (suc (length r.answers)) (ground (arith, i32)) i32 (omega arith)
]
