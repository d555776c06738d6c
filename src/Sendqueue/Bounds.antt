-- ===== src/Sendqueue/Bounds.antt =====
-- The byte count of a send queue, what is staged, and the capacity.
use we_nmap_in_rust.Prelude.{ℕ, ◌+◌, ◌-◌, ◌^◌, ◌≤◌, ◌<◌, ◌≡◌, List, [], ◌∷◌, ◌++◌, length, arith}
use we_nmap_in_rust.Prelude.Result.{ok, err}
use we_nmap_in_rust.Savefile.{PcapPacket}
use we_nmap_in_rust.Sendqueue.{Sendqueue, queue_full, alloc, add}

-- The bytes of the staged frames.
abbrev pub total : List PcapPacket → ℕ
total [] = 0
total (p ∷ ps) = length p.payload + total ps

total-append : (ps qs : List PcapPacket) → total (ps ++ qs) ≡ total ps + total qs
total-append [] qs = omega arith
total-append (p ∷ ps) qs = omega (arith, total-append ps qs)

-- The capacity `u32::MAX` is left out: see `add_wraps`.
pub record IsValid (q : Sendqueue) : Type 0 where
  pub counted : q.bytes ≡ total q.pkts
  pub within : q.bytes ≤ q.capacity
  pub bounded : q.capacity < 2 ^ 32 - 1

pub alloc-IsValid : (capacity : ℕ) → capacity < 2 ^ 32 - 1 → IsValid (alloc capacity)
unfolding alloc
alloc-IsValid capacity h = omega arith

module _ (pkt : PcapPacket) (q : Sendqueue) (valid : IsValid q)
    (small : length pkt.payload < 2 ^ 32) where
  -- On a valid queue, whose capacity is below 2 ^ 32 - 1, and for a packet below 2 ^ 32 bytes: a packet
  -- that fits goes to the end, and its bytes are counted; one that does not fit is
  -- refused with the numbers of the queue, which stays as it was. In both cases the queue stays
  -- valid: the count is the sum of the staged frames, and within the capacity.
  pub add_lem :
      (q.bytes + length pkt.payload ≤ q.capacity
        → add pkt q
          ≡ (ok tt, record q { bytes = q.bytes + length pkt.payload; pkts = q.pkts ++ (pkt ∷ []) }))
      × (q.capacity < q.bytes + length pkt.payload
          → add pkt q ≡ (err (queue_full q.bytes (length pkt.payload) q.capacity), q))
      × IsValid (add pkt q).1
  unfolding add
  add_lem = (λ h. ground arith, λ h. ground arith, ground (arith, total-append q.pkts (pkt ∷ [])))

-- With the capacity `u32::MAX` the saturating test lets every packet in: two frames that together
-- pass 2 ^ 32 bytes are both staged, and the count wraps.
pub add_wraps :
    (pkt : PcapPacket) (q : Sendqueue)
    → q.capacity ≡ 2 ^ 32 - 1
    → q.bytes < 2 ^ 32
    → length pkt.payload < 2 ^ 32
    → 2 ^ 32 ≤ q.bytes + length pkt.payload
    → add pkt q ≡ (
      ok tt,
      record q { bytes = q.bytes + length pkt.payload - 2 ^ 32; pkts = q.pkts ++ (pkt ∷ []) },
    )
unfolding add
add_wraps pkt q cap b small over = ground arith
