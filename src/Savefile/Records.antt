-- ===== src/Savefile/Records.antt =====
-- Packet records of a savefile, written and read, whole, cut and corrupt.
use we_nmap_in_rust.Prelude.{
  ℕ, ◌%◌, ◌^◌, ◌≤◌, ◌<◌, ◌≡◌, refl, List, [], ◌++◌, none, some, false, le→ltb, length, length-take,
  take, min, arith,
}
use mathlib.Core.List.{append_assoc}
use we_nmap_in_rust.Prelude.Bytes.{IsU32}
use we_nmap_in_rust.Prelude.Result.{ok, err}
use we_nmap_in_rust.Savefile.{
  PcapFileHeader, PcapPacket, needs_swap, unexpected_eof, SavefileReader, packet_of, caplen_refused,
  read_data, read_record, next_packet, SavefileWriter, record_bytes, write_packet,
}
use we_nmap_in_rust.Savefile.Header.{u32-be, read_exact-append, read_exact_short}

-- The record that a packet of `wire` bytes leaves when it is cut to `snaplen`.
abbrev pub captured : ℕ → ℕ → ℕ → List ℕ → PcapPacket
captured snaplen ts_sec ts_frac wire = record {
  ts_sec = ts_sec;
  ts_frac = ts_frac;
  caplen = min (length wire) snaplen;
  origlen = length wire;
  pkttype = 0;
  payload = take (min (length wire) snaplen) wire;
}

-- The bytes of a record in the writer's order.
abbrev pub record_of : ℕ → ℕ → ℕ → List ℕ → List ℕ
record_of snaplen ts_sec ts_frac wire =
    record_bytes ts_sec ts_frac (min (length wire) snaplen) (length wire % 2 ^ 32)
    ++ take (min (length wire) snaplen) wire

caplen_accepted : (h : PcapFileHeader) (n : ℕ) → n ≤ h.snaplen → caplen_refused h n ≡ false
unfolding caplen_refused
caplen_accepted h n le = rw (le→ltb h.snaplen n le)

module _ (h : PcapFileHeader) (native : needs_swap h ≡ false) (ts_sec ts_frac : ℕ)
    (wire rest : List ℕ) (fits : IsU32 ts_sec) (frac_fits : IsU32 ts_frac)
    (small : IsU32 (length wire)) where
  abbrev caplen : ℕ
  caplen = min (length wire) h.snaplen

  read_data-record :
      read_data h ts_sec ts_frac caplen (length wire) (take caplen wire ++ rest)
      ≡ (ok (some (captured h.snaplen ts_sec ts_frac wire)), rest)
  unfolding read_data
  read_data-record = rw (
    caplen_accepted h caplen (omega arith),
    read_exact-append caplen (take caplen wire) rest (omega (arith, length-take caplen wire)),
    packet_of,
  )

  read_record-bytes :
      read_record h
        (some (record_bytes ts_sec ts_frac caplen (length wire % 2 ^ 32), take caplen wire ++ rest))
      ≡ (ok (some (captured h.snaplen ts_sec ts_frac wire)), rest)
  unfolding read_record record_bytes
  read_record-bytes =
      rw
        (
          native,
          u32-be ts_sec fits,
          u32-be ts_frac frac_fits,
          u32-be caplen (omega arith),
          u32-be (length wire % 2 ^ 32) (omega arith),
          cut,
        )
        read_data-record
    where
      cut : length wire % 2 ^ 32 ≡ length wire
      cut = omega arith

  record-length : length (record_bytes ts_sec ts_frac caplen (length wire % 2 ^ 32)) ≡ 16
  unfolding record_bytes
  record-length = refl

  -- A record in the writer's byte order, for a packet of less than 2 ^ 32 bytes, whatever follows it
  -- and whatever the snapshot length is: `next_packet` returns that packet, with the data cut to the
  -- snapshot length and the length on the wire, and leaves what follows.
  pub next_packet-record :
      next_packet (record { header = h; rest = record_of h.snaplen ts_sec ts_frac wire ++ rest })
      ≡ (ok (some (captured h.snaplen ts_sec ts_frac wire)), record { header = h; rest = rest })
  unfolding next_packet
  next_packet-record = rw (
    append_assoc (record_bytes ts_sec ts_frac caplen (length wire % 2 ^ 32)) _ rest,
    read_exact-append 16 _ (take caplen wire ++ rest) record-length,
    read_record-bytes,
  )

-- With fewer than 16 bytes left, none or a cut record header, `next_packet` reports the end of the
-- capture, and the reader has nothing left.
pub next_packet_short :
    (r : SavefileReader) → length r.rest < 16 → next_packet r ≡ (ok none, record r { rest = [] })
unfolding next_packet
next_packet_short r h = rw (read_exact_short 16 r.rest h, read_record)

-- A record of the writer whose data end early is an error: the end of the file, and not the end of
-- the capture.
pub next_packet_cut :
    (h : PcapFileHeader) (ts_sec ts_frac stored origlen : ℕ) (left : List ℕ)
    → needs_swap h ≡ false
    → IsU32 stored
    → stored ≤ h.snaplen
    → length left < stored
    → next_packet (record { header = h; rest = record_bytes ts_sec ts_frac stored origlen ++ left })
      ≡ (err unexpected_eof, record { header = h; rest = [] })
unfolding next_packet read_record read_data record_bytes
next_packet_cut h ts_sec ts_frac stored origlen left native fits le short = rw (
  read_exact-append 16 (record_bytes ts_sec ts_frac stored origlen) left refl,
  native,
  u32-be stored fits,
  caplen_accepted h stored le,
  read_exact_short stored left short,
)

-- The writer appends the record of the packet cut to its snapshot length.
pub write_packet_lem :
    (ts_sec ts_frac : ℕ) (wire : List ℕ) (w : SavefileWriter)
    → write_packet ts_sec ts_frac wire w
      ≡ record w { out = w.out ++ record_of w.header.snaplen ts_sec ts_frac wire }
unfolding write_packet
write_packet_lem ts_sec ts_frac wire w = refl
