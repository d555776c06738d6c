-- ===== src/Cli/Pcap.antt =====
-- `cmd_pcap` of wnr/src/main.rs: a savefile through a filter, and the summary of its packets.
pub mod Summaries
use we_nmap_in_rust.Prelude.{
  ℕ, zero, suc, ◌+◌, ◌%◌, ◌^◌, ◌<◌, ◌≤◌, ◌≡◌, refl, sym, ap, ◌∙◌, List, [], ◌∷◌, ◌++◌, Option, none,
  some, ◌>>=◌, Bool, true, false, leb, ◌&&◌, if◌then◌else◌, length, map, All, take, arith,
}
use we_nmap_in_rust.Prelude.Bytes.{bytes_eq}
use we_nmap_in_rust.Prelude.Result.{Result, ok, err}
use we_nmap_in_rust.Prelude.Text.{Text, chars}
use we_nmap_in_rust.Bpf.Parser.{ParseError}
use we_nmap_in_rust.Bpf.Parser.Meaning.{intended}
use we_nmap_in_rust.Capture.{
  CaptureError, Capture, Packet, handed_out, open_offline, set_filter, read_from, strip_link_header,
}
use we_nmap_in_rust.Capture.Contents.{pending, contents}
use we_nmap_in_rust.Capture.Filtered.{IsSmall, accepted, read_from-set_filter}
use we_nmap_in_rust.Capture.Control.{drain}
use we_nmap_in_rust.Capture.Loops.{fold_left, drain-read_from}
use we_nmap_in_rust.Cli.{is_option}

pub record PcapArgs : Type 0 where
  pub file : Option Text
  pub filter : Option Text

abbrev pub pcap_alone : Text → PcapArgs → PcapArgs
pcap_alone a s = if is_option a then s else record s { file = some a }

-- The loop over the arguments.
unfoldable pub pcap_args : List Text → PcapArgs → PcapArgs
unfolding bytes_eq
pcap_args [] s = s
pcap_args (a ∷ []) s = pcap_alone a s
pcap_args (a ∷ v ∷ args) s =
    if bytes_eq a (chars "--filter")
    then pcap_args args (record s { filter = some v })
    else pcap_args (v ∷ args) (pcap_alone a s)

-- The line of a packet: its lengths, and the length and the offset of what follows the link header.
pub record Line : Type 0 where
  pub caplen : ℕ
  pub len : ℕ
  pub l3_len : ℕ
  pub l3_off : ℕ

pub record Summary : Type 0 where
  pub total : ℕ
  pub bytes : ℕ
  pub lines : List Line

abbrev stripped : Option (ℕ × ℕ × List ℕ) → ℕ × ℕ
stripped none = (0, 0)
stripped (some (off, len, rest)) = (off, len)

abbrev pub line_of : ℕ → Packet → Line
line_of linktype (hdr, payload) =
    let (off, len) = stripped (strip_link_header linktype payload) in
    record { caplen = hdr.caplen; len = hdr.len; l3_len = len; l3_off = off }

-- One packet: the counters are `u64`, and the first ten packets have a line.
unfoldable pub summarise : ℕ → Summary → Packet → Summary
unfolding strip_link_header
summarise linktype s pkt = record {
  total = (s.total + 1) % 2 ^ 64;
  bytes = (s.bytes + pkt.0.caplen) % 2 ^ 64;
  lines =
      if leb ((s.total + 1) % 2 ^ 64) 10 then s.lines ++ (line_of linktype pkt ∷ []) else s.lines;
}

-- What the command prints, and the errors that end it.
pub data PcapReport : Type 0 where
  no_file : PcapReport
  failed_to_open : CaptureError → PcapReport
  invalid_filter : ParseError → PcapReport
  read : Summary → PcapReport

abbrev pub no_packets : Summary
no_packets = record { total = 0; bytes = 0; lines = [] }

abbrev pub count_packets : ℕ → ℕ → Capture → Option PcapReport
count_packets rounds fuel c =
    drain (summarise c.linktype) no_packets rounds fuel c >>= λ s. some (read s)

abbrev pub with_filter : ℕ → ℕ → Result ParseError (Unit {0}) × Capture → Option PcapReport
with_filter rounds fuel (err e, c) = some (invalid_filter e)
with_filter rounds fuel (ok _, c) = count_packets rounds fuel c

abbrev pub filter_and_count : ℕ → ℕ → Option Text → Capture → Option PcapReport
filter_and_count rounds fuel none c = count_packets rounds fuel c
filter_and_count rounds fuel (some f) c = with_filter rounds fuel (set_filter f c)

abbrev pub opened : ℕ → ℕ → Option Text → Result CaptureError Capture → Option PcapReport
opened rounds fuel f (err e) = some (failed_to_open e)
opened rounds fuel f (ok c) = filter_and_count rounds fuel f c

abbrev on_file : (Text → List ℕ) → ℕ → ℕ → Option Text → Option Text → Option PcapReport
on_file files rounds fuel f none = some no_file
on_file files rounds fuel f (some path) = opened rounds fuel f (open_offline (files path))

abbrev pub with_args : (Text → List ℕ) → ℕ → ℕ → PcapArgs → Option PcapReport
with_args files rounds fuel s = on_file files rounds fuel s.filter s.file

-- `cmd_pcap`, where every path is a file of some bytes.
unfoldable pub cmd_pcap : (Text → List ℕ) → ℕ → ℕ → List Text → Option PcapReport
unfolding pcap_args drain open_offline set_filter
cmd_pcap files rounds fuel args =
    with_args files rounds fuel (pcap_args args (record { file = none; filter = none }))

-- The summary of a list of packets.
abbrev pub sum_caplen : List Packet → ℕ
sum_caplen [] = 0
sum_caplen (pkt ∷ pkts) = pkt.0.caplen + sum_caplen pkts

abbrev pub summary_of : ℕ → List Packet → Summary
summary_of linktype pkts = record {
  total = length pkts % 2 ^ 64;
  bytes = sum_caplen pkts % 2 ^ 64;
  lines = map (line_of linktype) (take 10 pkts);
}
