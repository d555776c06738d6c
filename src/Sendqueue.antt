-- ===== src/Sendqueue.antt =====
-- wnr-pcap/src/sendqueue.rs. `&mut self` is a queue passed in and returned; the fields are `u32`.
pub mod Bounds
mod Tests
use we_nmap_in_rust.Prelude.{
  ℕ, ◌+◌, ◌-◌, ◌%◌, ◌^◌, List, [], ◌∷◌, ◌++◌, Bool, ltb, if◌then◌else◌, length, min,
}
use we_nmap_in_rust.Prelude.Result.{Result, ok, err}
use we_nmap_in_rust.Savefile.{PcapPacket}

pub record Sendqueue : Type 0 where
  pub capacity : ℕ
  pub bytes : ℕ
  pub pkts : List PcapPacket

-- The error of a full queue, with the numbers that its message shows.
pub data Error : Type 0 where
  queue_full : (bytes need capacity : ℕ) → Error

-- `Sendqueue::new`.
unfoldable pub alloc : ℕ → Sendqueue
alloc capacity = record { capacity = capacity; bytes = 0; pkts = [] }

-- `u32::saturating_add`.
unfoldable pub saturating_add : ℕ → ℕ → ℕ
saturating_add a b = min (a + b) (2 ^ 32 - 1)

unfoldable pub add : PcapPacket → Sendqueue → Result Error (Unit {0}) × Sendqueue
unfolding saturating_add
add pkt q =
    let need = length pkt.payload % 2 ^ 32 in
    if ltb q.capacity (saturating_add q.bytes need)
    then (err (queue_full q.bytes need q.capacity), q)
    else (ok tt, record q { bytes = (q.bytes + need) % 2 ^ 32; pkts = q.pkts ++ (pkt ∷ []) })

-- The packet that `add_raw` stages.
unfoldable pub raw_packet : ℕ → ℕ → List ℕ → PcapPacket
raw_packet ts_sec ts_frac payload = record {
  ts_sec = ts_sec;
  ts_frac = ts_frac;
  caplen = length payload % 2 ^ 32;
  origlen = length payload % 2 ^ 32;
  pkttype = 0;
  payload = payload;
}

unfoldable pub add_raw : ℕ → ℕ → List ℕ → Sendqueue → Result Error (Unit {0}) × Sendqueue
unfolding raw_packet add
add_raw ts_sec ts_frac payload q = add (raw_packet ts_sec ts_frac payload) q

unfoldable pub clear : Sendqueue → Sendqueue
clear q = record q { pkts = []; bytes = 0 }

unfoldable pub len : Sendqueue → ℕ
len q = length q.pkts

-- `capacity.saturating_sub(bytes)`.
unfoldable pub remaining : Sendqueue → ℕ
remaining q = q.capacity - q.bytes
