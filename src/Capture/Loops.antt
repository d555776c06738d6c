-- ===== src/Capture/Loops.antt =====
-- The loops over a capture against the list of the packets that are read from it.
use we_nmap_in_rust.Prelude.{
  ℕ, zero, suc, ◌<◌, ◌≡◌, inl, inr, refl, ◌∙◌, List, [], ◌∷◌, Option, none, some, ◌>>=◌, length,
  map, All, arith, length-map, Option-cases,
}
use we_nmap_in_rust.Prelude.Result.{ok, err}
use we_nmap_in_rust.Prelude.Bytes.{IsU32}
use we_nmap_in_rust.Savefile.{SavefileWriter, create}
use we_nmap_in_rust.Capture.{Packet, Capture, Fetched, next_packet, collected, read_from, read_all}
use we_nmap_in_rust.Capture.WholeFile.{Sent, IsSent, write_all, packet_of, read_all-write_all}
use we_nmap_in_rust.Capture.Control.{drained, drain, write_next, capture_to_file}

abbrev pub fold_left {ℓ κ} : {S : Type ℓ} {A : Type κ} → (S → A → S) → S → List A → S
fold_left step s [] = s
fold_left step s (x ∷ xs) = fold_left step (step s x) xs

module _ {ℓ} {S : Type ℓ} (step : S → Packet → S) (rounds : ℕ) where
  drained-collected :
      (fuel : ℕ) (s : S) (r : Fetched)
      → ((s : S)
          → drain step s rounds fuel r.1
            ≡ (read_from rounds fuel r.1 >>= λ pkts. some (fold_left step s pkts)))
      → drained step s r.0 (λ s'. drain step s' rounds fuel r.1)
        ≡ (collected r.0 (read_from rounds fuel r.1) >>= λ pkts. some (fold_left step s pkts))
  drained-collected fuel s (err e, c) rest = refl
  drained-collected fuel s (ok none, c) rest = refl
  drained-collected fuel s (ok (some pkt), c) rest =
      rest (step s pkt) ∙ push (read_from rounds fuel c)
    where
      push :
          (o : Option (List Packet))
          → (o >>= λ pkts. some (fold_left step (step s pkt) pkts))
            ≡ ((o >>= λ pkts. some (pkt ∷ pkts)) >>= λ pkts. some (fold_left step s pkts))
      push none = refl
      push (some pkts) = refl

  -- A loop that updates a state with every packet is a fold over the packets that are read.
  pub drain-read_from :
      (fuel : ℕ) (s : S) (c : Capture)
      → drain step s rounds fuel c
        ≡ (read_from rounds fuel c >>= λ pkts. some (fold_left step s pkts))
  unfolding drain read_from
  drain-read_from zero s c = refl
  drain-read_from (suc fuel) s c = elim (Option-cases (next_packet rounds (suc fuel) c)) [
    | inl e ↦ rw e refl
    | inr (r, e) ↦ rw e (drained-collected fuel s r (λ s'. drain-read_from fuel s' r.1))
  ]

-- A packet as it is written.
abbrev pub sent_of : Packet → Sent
sent_of (hdr, payload) = record { ts_sec = hdr.ts_sec; ts_frac = hdr.ts_frac; wire = payload }

fold-write_next :
    (pkts : List Packet) (w : SavefileWriter) (count : ℕ)
    → (fold_left write_next (w, count) pkts).0 ≡ write_all (map sent_of pkts) w
unfolding write_all
fold-write_next [] w count = refl
fold-write_next (pkt ∷ pkts) w count = fold-write_next pkts _ _

-- What `capture_to_file` writes, read again: the packets that the capture gives, each cut to the
-- snapshot length, with the length of its data as its length on the wire.
pub read_all-capture_to_file :
    (rounds fuel linktype again : ℕ) (c : Capture) (pkts : List Packet)
    → read_from rounds fuel c ≡ some pkts
    → IsU32 c.snaplen
    → IsU32 linktype
    → All IsSent (map sent_of pkts)
    → length pkts < again
    → (capture_to_file rounds fuel linktype c >>= λ r. read_all again r.0.out)
      ≡ some (ok (map (packet_of c.snaplen) (map sent_of pkts)))
unfolding capture_to_file
read_all-capture_to_file rounds fuel linktype again c pkts e hs hl fits room =
    rw
      (
        drain-read_from write_next rounds fuel (create c.snaplen linktype, 0) c,
        e,
        fold-write_next pkts (create c.snaplen linktype) 0,
      )
      (read_all-write_all c.snaplen linktype again (map sent_of pkts) hs hl fits
        (omega (arith, length-map sent_of pkts)))
