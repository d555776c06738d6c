-- ===== src/Capture/SocketTests.antt =====
-- Captures of a packet socket with two frames: a filter, a callback, a copy to a file, the queue.
use we_nmap_in_rust.Prelude.{
  ℕ, ◌≡◌, refl, List, [], ◌∷◌, ◌++◌, none, some, ◌>>=◌, true, length, map, keep, replicate, arith,
  suc, inl,
}
use we_nmap_in_rust.Prelude.Bytes.{bytes_eq}
use we_nmap_in_rust.Prelude.Result.{ok}
use we_nmap_in_rust.Prelude.Text.{chars, is_whitespace, split_by, lower_char}
use we_nmap_in_rust.Savefile.{PcapPacket}
use we_nmap_in_rust.Raw.{
  Kernel, RawCapture, frame, would_block, dir_in, dir_in_out, receive, received,
  pkttype_matches_dir,
}
use we_nmap_in_rust.Raw as Raw
use we_nmap_in_rust.Bpf.Filter.{proto}
use we_nmap_in_rust.Bpf.Filter.Correct.{passes}
use we_nmap_in_rust.Bpf.Parser.{tokenize, word_tokens, keyword, parse_primitive}
use we_nmap_in_rust.Bpf.Parser.Meaning.{intended}
use we_nmap_in_rust.Capture.{
  Packet, PacketHeader, Capture, live, new_capture, fetch, fetched, filtered, next_packet,
  handed_out, read_from, read_all, set_filter,
}
use we_nmap_in_rust.Capture.Contents.{contents, contents_within}
use we_nmap_in_rust.Capture.Filtered.{accepted, read_from-set_filter}
use we_nmap_in_rust.Capture.WholeFile.{packet_of}
use we_nmap_in_rust.Capture.Loops.{sent_of, read_all-capture_to_file}
use we_nmap_in_rust.Capture.Control.{LoopControl, continue_loop, loop_, capture_to_file, transmit}
use we_nmap_in_rust.Capture.Callbacks.{Agrees, feed, reads_end, loop_-feed}
use we_nmap_in_rust.Raw.Windows.{WinCapture, datagram}
use we_nmap_in_rust.Capture.{live_windows}
use we_nmap_in_rust.Capture.Windows as Windows
use we_nmap_in_rust.Capture.Windows.{contents-windows}
use we_nmap_in_rust.Capture.Sockets.{
  packets_of, goes, frames_first, contents-live, sent_on, given, value, total_sent, transmit-live,
}

-- A frame of protocol 6, and one of protocol 17.
abbrev tcp_frame : List ℕ
tcp_frame = replicate 23 0 ++ (6 ∷ [])

abbrev udp_frame : List ℕ
udp_frame = replicate 23 0 ++ (17 ∷ [])

abbrev socket : RawCapture
socket = record {
  kernel = record {
    send_to = λ before payload. some (length payload);
    statistics = none;
    set_flags = λ nb. true;
  };
  answers = frame 0 udp_frame ∷ frame 4 tcp_frame ∷ would_block ∷ [];
  sent = [];
  direction = dir_in_out;
  room = 64;
}

abbrev capture : Capture
capture = new_capture (live socket) 64 1

abbrev both_packets : List Packet
both_packets = handed_out (received 64 0 udp_frame) ∷ handed_out (received 64 4 tcp_frame) ∷ []

both_read : read_from 4 4 capture ≡ some both_packets
unfolding read_from next_packet fetch fetched filtered Raw.next_packet receive pkttype_matches_dir
both_read = refl

read_from-set_filter_example :
    read_from 4 4 (set_filter (chars "tcp") capture).1
    ≡ some (map handed_out (accepted (passes (proto 6) 1) (contents (live socket))))
unfolding intended tokenize word_tokens keyword parse_primitive split_by is_whitespace lower_char
    bytes_eq contents contents_within fetch Raw.next_packet receive pkttype_matches_dir
read_from-set_filter_example =
    read_from-set_filter 4 4 (chars "tcp") capture (passes (proto 6) 1) refl (omega arith)
      (omega arith) (omega arith, (omega arith, tt))

abbrev counts : ℕ → PacketHeader → List ℕ → LoopControl × ℕ
counts n hdr payload = (continue_loop, suc n)

both_end : reads_end 4 4 capture ≡ some none
unfolding reads_end next_packet fetch fetched filtered Raw.next_packet receive pkttype_matches_dir
both_end = refl

loop_-feed_example :
    Agrees counts 1 (feed counts 1 both_packets 0 0) none (loop_ counts 4 4 1 capture 0)
loop_-feed_example =
    loop_-feed counts 4 4 1 1 capture 0 both_packets none (inl (omega arith, omega arith, refl))
      both_read both_end

read_all-capture_to_file_example :
    (capture_to_file 4 4 1 capture >>= λ r. read_all 3 r.0.out)
    ≡ some (ok (map (packet_of 64) (map sent_of both_packets)))
read_all-capture_to_file_example =
    read_all-capture_to_file 4 4 1 3 capture both_packets both_read (omega arith) (omega arith)
      (
        record { sec_fits = omega arith; frac_fits = omega arith; small = omega arith },
        (record { sec_fits = omega arith; frac_fits = omega arith; small = omega arith }, tt),
      )
      (omega arith)

contents-live_example :
    contents (live socket) ≡ packets_of 64 (keep (goes dir_in_out) (frames_first socket.answers))
contents-live_example = contents-live socket

abbrev staged : List PcapPacket
staged = received 64 0 tcp_frame ∷ received 64 0 udp_frame ∷ []

transmit-live_example :
    (sent_on (transmit staged 0 capture).1.kind ≡ [] ++ given socket.kernel [] staged)
    × (value (transmit staged 0 capture).0 ≡ total_sent socket.kernel [] staged 0)
transmit-live_example = transmit-live staged 0 capture socket (omega arith)

-- A datagram of three bytes, one that is too long, and one behind it.
abbrev datagrams : WinCapture
datagrams = record {
  set_mode = λ nb. true;
  answers =
      datagram 5 6 (1 ∷ 2 ∷ 3 ∷ []) ∷ datagram 7 8 (replicate 65 9) ∷ datagram 9 9 (1 ∷ []) ∷ [];
  room = 64;
}

contents-windows_example :
    contents (live_windows datagrams) ≡ Windows.packet_of (5, 6, 1 ∷ 2 ∷ 3 ∷ []) ∷ []
contents-windows_example = contents-windows datagrams
