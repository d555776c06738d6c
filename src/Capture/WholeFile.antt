-- ===== src/Capture/WholeFile.antt =====
-- A whole file, through the writer and `read_all`.
use we_nmap_in_rust.Prelude.{
  take, min, ℕ, zero, suc, ◌<◌, ◌≡◌, refl, sym, ap, ◌∙◌, List, [], ◌∷◌, ◌++◌, some, ◌>>=◌, false,
  length, map, All, arith,
}
use mathlib.Core.List.{append_assoc, append-nil}
use we_nmap_in_rust.Prelude.Bytes.{IsU32}
use we_nmap_in_rust.Prelude.Result.{ok}
use we_nmap_in_rust.Savefile.{
  PcapFileHeader, needs_swap, new_header, SavefileWriter, create, write_packet,
}
use we_nmap_in_rust.Savefile.Header.{open-create}
use we_nmap_in_rust.Savefile.Records.{
  record_of, next_packet-record, next_packet_short, write_packet_lem,
}
use we_nmap_in_rust.Capture.{
  Packet, Capture, new_capture, offline, fetch, open_offline, opened_offline, next_packet, fetched,
  filtered, read_from, read_opened, read_all,
}

-- A packet on the wire: its time and its bytes.
pub record Sent : Type 0 where
  pub ts_sec : ℕ
  pub ts_frac : ℕ
  pub wire : List ℕ

pub record IsSent (s : Sent) : Type 0 where
  pub sec_fits : IsU32 s.ts_sec
  pub frac_fits : IsU32 s.ts_frac
  pub small : IsU32 (length s.wire)

-- The packets written one after the other.
unfoldable pub write_all : List Sent → SavefileWriter → SavefileWriter
unfolding write_packet
write_all [] w = w
write_all (s ∷ sent) w = write_all sent (write_packet s.ts_sec s.ts_frac s.wire w)

-- What a reader is to see of a packet.
abbrev pub packet_of : ℕ → Sent → Packet
packet_of snaplen s =
    let kept = min (length s.wire) snaplen in
    (
      record { ts_sec = s.ts_sec; ts_frac = s.ts_frac; caplen = kept; len = length s.wire },
      take kept s.wire,
    )

records : ℕ → List Sent → List ℕ
records snaplen [] = []
records snaplen (s ∷ sent) = record_of snaplen s.ts_sec s.ts_frac s.wire ++ records snaplen sent

write_all-records :
    (sent : List Sent) (w : SavefileWriter)
    → (write_all sent w).out ≡ w.out ++ records w.header.snaplen sent
unfolding write_all records
write_all-records [] w = sym (append-nil w.out)
write_all-records (s ∷ sent) w =
    ap (λ w. (write_all sent w).out) (write_packet_lem s.ts_sec s.ts_frac s.wire w)
    ∙ write_all-records sent
        (record w { out = w.out ++ record_of w.header.snaplen s.ts_sec s.ts_frac s.wire })
    ∙ append_assoc w.out (record_of w.header.snaplen s.ts_sec s.ts_frac s.wire)
        (records w.header.snaplen sent)

module _ (h : PcapFileHeader) (native : needs_swap h ≡ false) where
  -- An open capture of that header without a filter.
  abbrev at : List ℕ → Capture
  at rest = new_capture (offline (record { header = h; rest = rest })) h.snaplen h.linktype

  read_from-records :
      (sent : List Sent) (fuel : ℕ)
      → All IsSent sent
      → length sent < fuel
      → read_from 0 fuel (at (records h.snaplen sent)) ≡ some (map (packet_of h.snaplen) sent)
  unfolding read_from next_packet fetch records fetched filtered
  read_from-records sent zero fits room = absurd (omega arith)
  read_from-records [] (suc fuel) fits room =
      rw (next_packet_short (record { header = h; rest = [] }) (omega arith)) refl
  read_from-records (s ∷ sent) (suc fuel) fits room =
      rw
        (
          next_packet-record h native s.ts_sec s.ts_frac s.wire (records h.snaplen sent)
              fits.0.sec_fits fits.0.frac_fits fits.0.small,
          read_from-records sent fuel fits.1 (omega arith),
        )
        refl

-- A file that the writer creates and fills with packets below 2 ^ 32 bytes, with times that fit:
-- `read_all` returns all of them, in their order, the data cut to the snapshot length and the length
-- on the wire kept, within as many reads as there are packets and one.
pub read_all-write_all :
    (snaplen linktype fuel : ℕ) (sent : List Sent)
    → IsU32 snaplen
    → IsU32 linktype
    → All IsSent sent
    → length sent < fuel
    → read_all fuel (write_all sent (create snaplen linktype)).out
      ≡ some (ok (map (packet_of snaplen) sent))
unfolding read_all open_offline read_opened create new_header
read_all-write_all snaplen linktype fuel sent hs hl fits room =
    ap (λ bytes. read_opened fuel (open_offline bytes))
      (write_all-records sent (create snaplen linktype))
    ∙ ap (λ r. read_opened fuel (opened_offline r))
        (open-create snaplen linktype (records (create snaplen linktype).header.snaplen sent) hs hl)
    ∙ ap (λ o. o >>= λ pkts. some (ok pkts))
        (read_from-records (create snaplen linktype).header
          (unfold create new_header needs_swap in refl) sent fuel fits room)
