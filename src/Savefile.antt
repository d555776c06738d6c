-- ===== src/Savefile.antt =====
-- wnr-pcap/src/savefile.rs. A file is the list of its bytes: a reader holds those that are not yet
-- read, a writer those written so far. Of the input errors only the end of the file is modelled.
pub mod Header
pub mod Records
mod Tests
use we_nmap_in_rust.Prelude.{
  ℕ, ◌+◌, ◌%◌, ◌^◌, List, [], ◌∷◌, ◌++◌, Option, none, some, Bool, not, ◌&&◌, ◌||◌, ltb, ◌==◌,
  if◌then◌else◌, length, take, drop, min,
}
use we_nmap_in_rust.Prelude.Bytes.{
  byte_at, u16_from_be, u16_from_le, u32_from_be, u32_from_le, u16_to_le, u32_to_le,
}
use we_nmap_in_rust.Prelude.Result.{Result, ok, err}

abbrev pub pcap_magic_number : ℕ
pcap_magic_number = 0xa1b2_c3d4

abbrev pub pcap_magic_number_nano : ℕ
pcap_magic_number_nano = 0xa1b2_3c4d

abbrev pub pcap_magic_number_be : ℕ
pcap_magic_number_be = 0xd4c3_b2a1

abbrev pub pcap_magic_number_nano_be : ℕ
pcap_magic_number_nano_be = 0x4d3c_b2a1

-- `thiszone` is the bit pattern of its `i32`.
pub record PcapFileHeader : Type 0 where
  pub magic : ℕ
  pub version_major : ℕ
  pub version_minor : ℕ
  pub thiszone : ℕ
  pub sigfigs : ℕ
  pub snaplen : ℕ
  pub linktype : ℕ

-- `PcapFileHeader::new`.
unfoldable pub new_header : ℕ → ℕ → PcapFileHeader
new_header snaplen linktype = record {
  magic = pcap_magic_number;
  version_major = 2;
  version_minor = 4;
  thiszone = 0;
  sigfigs = 0;
  snaplen = snaplen;
  linktype = linktype;
}

unfoldable pub is_nano : PcapFileHeader → Bool
is_nano h = h.magic == pcap_magic_number_nano || h.magic == pcap_magic_number_nano_be

unfoldable pub needs_swap : PcapFileHeader → Bool
needs_swap h = h.magic == pcap_magic_number_be || h.magic == pcap_magic_number_nano_be

pub record PcapPacket : Type 0 where
  pub ts_sec : ℕ
  pub ts_frac : ℕ
  pub caplen : ℕ
  pub origlen : ℕ
  pub pkttype : ℕ
  pub payload : List ℕ

-- The errors of `std::io` that the reader returns.
pub data Error : Type 0 where
  unexpected_eof bad_magic caplen_too_large : Error

pub record SavefileReader : Type 0 where
  pub header : PcapFileHeader
  pub rest : List ℕ

-- `Read::read_exact` of `n` bytes: the bytes and what follows them, or the end of the file.
unfoldable pub read_exact : ℕ → List ℕ → Option (List ℕ × List ℕ)
read_exact n bytes = if ltb (length bytes) n then none else some (take n bytes, drop n bytes)

-- The closures `read_u16`, `read_u32` and `ru32`, at an offset of the raw bytes.
unfoldable pub read_u16 : Bool → List ℕ → ℕ → ℕ
read_u16 swap b i =
    if swap
    then u16_from_be (byte_at b i) (byte_at b (i + 1))
    else u16_from_le (byte_at b i) (byte_at b (i + 1))

unfoldable pub read_u32 : Bool → List ℕ → ℕ → ℕ
read_u32 swap b i =
    if swap
    then u32_from_be (byte_at b i) (byte_at b (i + 1)) (byte_at b (i + 2)) (byte_at b (i + 3))
    else u32_from_le (byte_at b i) (byte_at b (i + 1)) (byte_at b (i + 2)) (byte_at b (i + 3))

-- The test of `SavefileReader::open` that the magic is one of the four.
unfoldable pub known_magic : ℕ → Bool
known_magic m =
    m == pcap_magic_number
    || m == pcap_magic_number_nano
    || m == pcap_magic_number_be
    || m == pcap_magic_number_nano_be

-- The rest of `SavefileReader::open` for the magic that begins the raw bytes.
unfoldable pub parse_with : ℕ → List ℕ → Result Error PcapFileHeader
parse_with magic raw =
    let swap =
      (magic == pcap_magic_number_be || magic == pcap_magic_number_nano_be)
      || not (known_magic magic) in
    if not (known_magic magic)
    then err bad_magic
    else ok (record {
      magic = magic;
      version_major = read_u16 swap raw 4;
      version_minor = read_u16 swap raw 6;
      thiszone = read_u32 swap raw 8;
      sigfigs = read_u32 swap raw 12;
      snaplen = read_u32 swap raw 16;
      linktype = read_u32 swap raw 20;
    })

-- The parse of the 24 raw bytes.
unfoldable pub parse_header : List ℕ → Result Error PcapFileHeader
unfolding parse_with
parse_header raw =
    parse_with (u32_from_le (byte_at raw 0) (byte_at raw 1) (byte_at raw 2) (byte_at raw 3)) raw

-- What `open` returns once the 24 bytes are read, or not, and then parsed.
unfoldable pub opened : List ℕ → Result Error PcapFileHeader → Result Error SavefileReader
opened rest (err e) = err e
opened rest (ok h) = ok (record { header = h; rest = rest })

unfoldable pub open_raw : Option (List ℕ × List ℕ) → Result Error SavefileReader
unfolding opened
open_raw none = err unexpected_eof
open_raw (some (raw, rest)) = opened rest (parse_header raw)

-- `SavefileReader::open`, on the bytes of the file.
unfoldable pub open_reader : List ℕ → Result Error SavefileReader
unfolding open_raw
open_reader bytes = open_raw (read_exact 24 bytes)

-- The packet of a record, once its data are read, or not.
unfoldable pub packet_of :
    ℕ → ℕ → ℕ → ℕ → Option (List ℕ × List ℕ) → Result Error (Option PcapPacket) × List ℕ
packet_of ts_sec ts_frac caplen origlen none = (err unexpected_eof, [])
packet_of ts_sec ts_frac caplen origlen (some (payload, rest)) = (
  ok (
      some (record {
        ts_sec = ts_sec;
        ts_frac = ts_frac;
        caplen = caplen;
        origlen = origlen;
        pkttype = 0;
        payload = payload;
      })),
  rest,
)

-- The test for a corrupt record.
unfoldable pub caplen_refused : PcapFileHeader → ℕ → Bool
caplen_refused h caplen = ltb h.snaplen caplen && not (is_nano h) && ltb 0x100_0000 caplen

-- The record whose four words are read: its data follow.
unfoldable pub read_data :
    PcapFileHeader → ℕ → ℕ → ℕ → ℕ → List ℕ → Result Error (Option PcapPacket) × List ℕ
unfolding packet_of
read_data h ts_sec ts_frac caplen origlen rest =
    if caplen_refused h caplen
    then (err caplen_too_large, rest)
    else packet_of ts_sec ts_frac caplen origlen (read_exact caplen rest)

-- `next_packet` once the 16 bytes of the record are read, or not. A read that meets the end of the
-- file leaves nothing to read.
unfoldable pub read_record :
    PcapFileHeader → Option (List ℕ × List ℕ) → Result Error (Option PcapPacket) × List ℕ
unfolding read_u32
read_record h none = (ok none, [])
read_record h (some (rh, rest)) =
    let swap = needs_swap h in
    read_data h (read_u32 swap rh 0) (read_u32 swap rh 4) (read_u32 swap rh 8) (read_u32 swap rh 12)
      rest

-- `SavefileReader::next_packet`: the result and the reader that is left.
unfoldable pub next_packet : SavefileReader → Result Error (Option PcapPacket) × SavefileReader
unfolding read_record
next_packet r =
    let (result, rest) = read_record r.header (read_exact 16 r.rest) in
    (result, record r { rest = rest })

pub record SavefileWriter : Type 0 where
  pub header : PcapFileHeader
  pub out : List ℕ

-- The 24 bytes that `SavefileWriter::create` writes for a header.
unfoldable pub header_bytes : PcapFileHeader → List ℕ
header_bytes h =
    u32_to_le h.magic
    ++ (u16_to_le h.version_major
        ++ (u16_to_le h.version_minor
            ++ (u32_to_le h.thiszone
                ++ (u32_to_le h.sigfigs ++ (u32_to_le h.snaplen ++ u32_to_le h.linktype)))))

-- `SavefileWriter::create`.
unfoldable pub create : ℕ → ℕ → SavefileWriter
create snaplen linktype =
    let h = new_header snaplen linktype in record { header = h; out = header_bytes h }

-- The 16 bytes that `write_packet` puts in front of the data.
unfoldable pub record_bytes : ℕ → ℕ → ℕ → ℕ → List ℕ
record_bytes ts_sec ts_frac caplen origlen =
    u32_to_le ts_sec ++ (u32_to_le ts_frac ++ (u32_to_le caplen ++ u32_to_le origlen))

-- `SavefileWriter::write_packet`.
unfoldable pub write_packet : ℕ → ℕ → List ℕ → SavefileWriter → SavefileWriter
write_packet ts_sec ts_frac payload w =
    let caplen = min (length payload) w.header.snaplen in
    let origlen = length payload % 2 ^ 32 in
    record w { out = w.out ++ (record_bytes ts_sec ts_frac caplen origlen ++ take caplen payload) }
