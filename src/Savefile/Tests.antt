-- ===== src/Savefile/Tests.antt =====
-- Two packets in a small file, and the theorems at concrete files.
use we_nmap_in_rust.Prelude.{◌≡◌, refl, [], ◌∷◌, ◌++◌, some, arith}
use we_nmap_in_rust.Prelude.Result.{ok}
use we_nmap_in_rust.Savefile.{
  PcapFileHeader, read_exact, known_magic, needs_swap, is_nano, caplen_refused, open_reader,
  next_packet, read_data, new_header, record_bytes,
}
use we_nmap_in_rust.Savefile.Header.{encode_header, open-encode_header}
use we_nmap_in_rust.Savefile.Records.{captured, record_of, next_packet-record}

abbrev header : PcapFileHeader
unfolding new_header
header = new_header 3 1

abbrev big_endian : PcapFileHeader
big_endian = record {
  magic = 0xd4c3_b2a1;
  version_major = 2;
  version_minor = 4;
  thiszone = 0xffff_ffff;
  sigfigs = 0;
  snaplen = 65535;
  linktype = 1;
}

-- The first packet of a file is cut to the snapshot length 3.
first_of_two :
    (next_packet
      (record { header = header; rest = record_of 3 1000 500 (222 ∷ 173 ∷ 190 ∷ 239 ∷ []) })).0
    ≡ ok (some (captured 3 1000 500 (222 ∷ 173 ∷ 190 ∷ 239 ∷ [])))
unfolding next_packet read_exact needs_swap is_nano read_data caplen_refused record_bytes new_header
first_of_two = refl

open-encode_header_example :
    open_reader (encode_header big_endian ++ (7 ∷ []))
    ≡ ok (record { header = big_endian; rest = 7 ∷ [] })
unfolding known_magic
open-encode_header_example = open-encode_header big_endian (7 ∷ []) (omega arith) refl

next_packet-record_example :
    next_packet (record {
      header = new_header 3 1;
      rest = record_of (new_header 3 1).snaplen 1000 500 (222 ∷ 173 ∷ 190 ∷ 239 ∷ []) ++ (5 ∷ []);
    })
    ≡ (
      ok (some (captured (new_header 3 1).snaplen 1000 500 (222 ∷ 173 ∷ 190 ∷ 239 ∷ []))),
      record { header = new_header 3 1; rest = 5 ∷ [] },
    )
next_packet-record_example =
    next_packet-record (new_header 3 1) (unfold needs_swap new_header in refl) 1000 500
      (222 ∷ 173 ∷ 190 ∷ 239 ∷ []) (5 ∷ []) (omega arith) (omega arith) (omega arith)
