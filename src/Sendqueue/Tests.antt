-- ===== src/Sendqueue/Tests.antt =====
-- The send queue at concrete packets.
use we_nmap_in_rust.Prelude.{◌≡◌, refl, [], ◌∷◌, arith, replicate}
use we_nmap_in_rust.Prelude.Result.{err}
use we_nmap_in_rust.Savefile.{PcapPacket}
use we_nmap_in_rust.Sendqueue.{Sendqueue, queue_full, add}
use we_nmap_in_rust.Sendqueue.Bounds.{IsValid, add_lem}

abbrev six : PcapPacket
six = record {
  ts_sec = 1006;
  ts_frac = 0;
  caplen = 6;
  origlen = 6;
  pkttype = 0;
  payload = replicate 6 6;
}

abbrev half_full : Sendqueue
half_full = record { capacity = 10; bytes = 6; pkts = six ∷ [] }

second_refused : add six half_full ≡ (err (queue_full 6 6 10), half_full)
unfolding add
second_refused = refl

add_lem_example : IsValid (add six half_full).1
add_lem_example = (add_lem six half_full (omega arith) (omega arith)).2
