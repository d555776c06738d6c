-- ===== src/Cli/Tests.antt =====
-- Lists of ports, a small file through `cmd_pcap`, and the theorems there.
use we_nmap_in_rust.Prelude.{
  ℕ, ◌+◌, none, true, ◌≡◌, refl, ap, List, [], ◌∷◌, ◌++◌, some, arith, map, replicate,
}
use we_nmap_in_rust.Prelude.Bytes.{bytes_eq}
use we_nmap_in_rust.Prelude.Result.{ok}
use we_nmap_in_rust.Prelude.Text.{
  Text, chars, is_whitespace, lower_char, split, split_by, from_str_radix, read_digits, to_digit,
}
use we_nmap_in_rust.Datalink.{link_header_len}
use we_nmap_in_rust.Savefile.{
  create, new_header, needs_swap, is_nano, next_packet, read_exact, read_record, read_u32,
  read_data, packet_of, caplen_refused,
}
use we_nmap_in_rust.Savefile.Header.{open-create}
use we_nmap_in_rust.Bpf.Filter.{proto}
use we_nmap_in_rust.Bpf.Filter.Correct.{passes}
use we_nmap_in_rust.Bpf.Parser.{tokenize, word_tokens, keyword, parse_primitive}
use we_nmap_in_rust.Bpf.Parser.Meaning.{intended}
use we_nmap_in_rust.Capture.{
  Capture, new_capture, offline, handed_out, fetch, open_offline, opened_offline,
}
use we_nmap_in_rust.Capture.Contents.{contents, contents_within}
use we_nmap_in_rust.Capture.Filtered.{accepted}
use we_nmap_in_rust.Cli.Pcap.{pcap_args, cmd_pcap, read, summary_of}
use we_nmap_in_rust.Cli.Pcap.Summaries.{cmd_pcap-summary_of}
use mathlib.Core.List.{Memᴰ}
use we_nmap_in_rust.Nsock.{connect_result}
use we_nmap_in_rust.Nsock.Io.{Answers, would_block}
use we_nmap_in_rust.Nsock.Loop.{Round}
use we_nmap_in_rust.Cli.Scans.{cmd_scan-scanned}
use we_nmap_in_rust.Cli.{
  ScanArgs, scan_args, scanned, cmd_scan, has, parse_ports, insert_parts, insert_part, insert_range,
  insert,
}
use we_nmap_in_rust.Cli.PortList.{Distinct, any_names, parse_ports-Distinct}

ports_once : parse_ports (chars "1-5,3-7,80,80") ≡ 1 ∷ 2 ∷ 3 ∷ 4 ∷ 5 ∷ 6 ∷ 7 ∷ 80 ∷ []
unfolding split_by parse_ports insert_parts insert_part insert_range insert from_str_radix
    read_digits to_digit
ports_once = refl

parse_ports-Distinct_example :
    Distinct (parse_ports (chars "1-3,80"))
    × (has 2 (parse_ports (chars "1-3,80")) ≡ any_names (split b',' (chars "1-3,80")) 2)
parse_ports-Distinct_example = parse_ports-Distinct (chars "1-3,80") 2

-- A savefile of one frame of protocol 6.
abbrev tcp_frame : List ℕ
tcp_frame = replicate 23 0 ++ (6 ∷ [])

abbrev records : List ℕ
records = (1 ∷ 0 ∷ 0 ∷ 0 ∷ 2 ∷ 0 ∷ 0 ∷ 0 ∷ 24 ∷ 0 ∷ 0 ∷ 0 ∷ 30 ∷ 0 ∷ 0 ∷ 0 ∷ []) ++ tcp_frame

abbrev file : Text → List ℕ
file path = (create 65535 1).out ++ records

abbrev opened_file : Capture
opened_file =
    new_capture (offline (record { header = (create 65535 1).header; rest = records })) 65535 1

file_opens : open_offline (file (chars "x")) ≡ ok opened_file
unfolding open_offline create new_header
file_opens = ap opened_offline (open-create 65535 1 records (omega arith) (omega arith))

cmd_pcap-summary_of_example :
    cmd_pcap file 4 50 (chars "--filter" ∷ chars "tcp" ∷ chars "x" ∷ [])
    ≡ some (
        read (
          summary_of 1
            (map handed_out (accepted (passes (proto 6) 1) (contents opened_file.kind)))))
unfolding pcap_args bytes_eq intended tokenize word_tokens keyword parse_primitive split_by
    is_whitespace lower_char contents contents_within fetch next_packet read_exact read_record
    read_u32 read_data packet_of caplen_refused create new_header needs_swap is_nano link_header_len
cmd_pcap-summary_of_example =
    cmd_pcap-summary_of file 4 50 (chars "--filter" ∷ chars "tcp" ∷ chars "x" ∷ []) (chars "x")
      (chars "tcp") opened_file (passes (proto 6) 1) refl file_opens refl (omega arith)
      (omega arith) (omega arith, tt) (omega arith)

-- Two ports, of which one answers in the first round and the other never.
abbrev quiet_sockets : Answers
quiet_sockets = record { read = λ _. would_block; write = λ _ _. would_block }

abbrev early : Round
early = record {
  arrived = connect_result 1 (some (record { handle = 7; peer_addr = none })) ∷ [];
  now = 5;
  answers = quiet_sockets;
  elapsed = 5;
}

abbrev late : Round
late = record { arrived = []; now = 3200; answers = quiet_sockets; elapsed = 3200 }

abbrev two_ports : ScanArgs
two_ports = record { host = some (chars "h"); ports = 22 ∷ 80 ∷ []; timeout = some 3000 }

cmd_scan-scanned_example :
    (opened : ℕ) × (closed : ℕ) × (cmd_scan
        (λ host. true)
        (λ i. 100)
        (early ∷ late ∷ [])
        (chars "-p" ∷ chars "22,80" ∷ chars "h" ∷ [])
      ≡ scanned (chars "h") 2 2 opened closed)
    × (opened + closed ≡ 2)
unfolding scan_args bytes_eq split_by parse_ports insert_parts insert_part insert_range insert
    from_str_radix read_digits to_digit
cmd_scan-scanned_example =
    cmd_scan-scanned (λ host. true) (λ i. 100) (early ∷ late ∷ [])
      (chars "-p" ∷ chars "22,80" ∷ chars "h" ∷ []) two_ports (chars "h") late refl refl refl
      (omega arith) (tt, (tt, tt)) (Memᴰ.tail (Memᴰ.head refl)) (λ i. omega arith)
