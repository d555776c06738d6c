-- ===== src/Cli/Pcap/Summaries.antt =====
-- What `cmd_pcap` reports of a file.
use we_nmap_in_rust.Prelude.{
  ℕ, zero, suc, ◌+◌, ◌-◌, ◌%◌, ◌^◌, ◌<◌, ◌≤◌, ◌≡◌, refl, sym, ap, ◌∙◌, List, [], ◌∷◌, ◌++◌, none,
  some, Bool, length, map, All, take, arith, le→leb, lt→leb, length-map,
}
use mathlib.Core.List.{append_assoc, append-nil}
use we_nmap_in_rust.Prelude.Result.{ok}
use we_nmap_in_rust.Prelude.Text.{Text}
use we_nmap_in_rust.Bpf.Parser.Meaning.{intended}
use we_nmap_in_rust.Capture.{Capture, Packet, handed_out, open_offline, filter_set, read_from}
use we_nmap_in_rust.Capture.Contents.{pending, contents}
use we_nmap_in_rust.Capture.Filtered.{IsSmall, accepted, read_from-set_filter}
use we_nmap_in_rust.Capture.SetFilter.{set_filter_accepted}
use we_nmap_in_rust.Capture.Loops.{fold_left, drain-read_from}
use we_nmap_in_rust.Cli.Pcap.{
  pcap_args, Summary, line_of, summarise, read, no_packets, sum_caplen, summary_of, opened,
  with_filter, with_args, cmd_pcap,
}

carry : (b x rest : ℕ) → ((b + x) % 2 ^ 64 + rest) % 2 ^ 64 ≡ (b + (x + rest)) % 2 ^ 64
carry b x rest = omega arith

same_summary : (s t : Summary) → s.total ≡ t.total → s.bytes ≡ t.bytes → s.lines ≡ t.lines → s ≡ t
same_summary s t p q r =
    ap (λ n. record s { total = n }) p
    ∙ ap (λ n. record s { total = t.total; bytes = n }) q
    ∙ ap (λ l. record t { lines = l }) r

-- The fold from a summary that has `k` lines to go.
fold-summarise :
    (linktype : ℕ) (pkts : List Packet) (k : ℕ) (s : Summary)
    → k ≡ 10 - s.total
    → s.total + length pkts < 2 ^ 64
    → s.bytes < 2 ^ 64
    → fold_left (summarise linktype) s pkts ≡ record {
      total = s.total + length pkts;
      bytes = (s.bytes + sum_caplen pkts) % 2 ^ 64;
      lines = s.lines ++ map (line_of linktype) (take k pkts);
    }
unfolding summarise
fold-summarise linktype [] zero s room fits small =
    same_summary _ _ (omega arith) (omega arith) (sym (append-nil s.lines))
fold-summarise linktype [] (suc k) s room fits small =
    same_summary _ _ (omega arith) (omega arith) (sym (append-nil s.lines))
fold-summarise linktype (pkt ∷ pkts) zero s room fits small =
    fold-summarise linktype pkts zero (summarise linktype s pkt) (omega arith) (omega arith)
      (omega arith)
    ∙ same_summary _ _ (omega arith) (carry s.bytes pkt.0.caplen (sum_caplen pkts))
        (rw (lt→leb ((s.total + 1) % 2 ^ 64) 10 (omega arith)) refl)
fold-summarise linktype (pkt ∷ pkts) (suc k) s room fits small =
    fold-summarise linktype pkts k (summarise linktype s pkt) (omega arith) (omega arith)
      (omega arith)
    ∙ same_summary _ _ (omega arith) (carry s.bytes pkt.0.caplen (sum_caplen pkts)) (
        rw (le→leb ((s.total + 1) % 2 ^ 64) 10 (omega arith))
          (append_assoc s.lines (line_of linktype pkt ∷ []) (map (line_of linktype) (take k pkts))))

-- `cmd_pcap` with arguments that give a file and a filter, the file being a savefile and the filter a
-- text with a meaning: it reports the number of the packets of the file that the meaning accepts, the
-- sum of their captured lengths below 2 ^ 64, and the lines of the first ten.
pub cmd_pcap-summary_of :
    (files : Text → List ℕ) (rounds fuel : ℕ) (args : List Text) (path expr : Text) (c : Capture)
    (test : List ℕ → Bool)
    → pcap_args args (record { file = none; filter = none })
      ≡ record { file = some path; filter = some expr }
    → open_offline (files path) ≡ ok c
    → intended expr c.linktype ≡ ok test
    → 4 ≤ rounds
    → pending c.kind < fuel
    → All IsSmall (contents c.kind)
    → length (accepted test (contents c.kind)) < 2 ^ 64
    → cmd_pcap files rounds fuel args
      ≡ some (read (summary_of c.linktype (map handed_out (accepted test (contents c.kind)))))
unfolding cmd_pcap
cmd_pcap-summary_of files rounds fuel args path expr c test parsed opens means room left small few =
    let (insns, e) = set_filter_accepted expr c test means in
    let reads =
      sym (ap (λ x. read_from rounds fuel x.1) e)
      ∙ read_from-set_filter rounds fuel expr c test means room left small in
    ap (with_args files rounds fuel) parsed
    ∙ ap (opened rounds fuel (some expr)) opens
    ∙ ap (with_filter rounds fuel) e
    ∙ rw
        (
          drain-read_from (summarise c.linktype) rounds fuel no_packets (filter_set c (ok insns)).1,
          reads,
          fold-summarise c.linktype (map handed_out (accepted test (contents c.kind))) 10 no_packets
              refl (omega (arith, length-map handed_out (accepted test (contents c.kind))))
              (omega arith),
        )
        (ap (λ s. some (read s))
          (same_summary _ _ (omega (arith, length-map handed_out (accepted test (contents c.kind))))
            (omega arith) refl))
