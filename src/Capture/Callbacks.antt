-- ===== src/Capture/Callbacks.antt =====
-- `Capture::loop_` against the list of the packets that are read.
use we_nmap_in_rust.Prelude.{
  ℕ, zero, suc, ◌+◌, ◌-◌, ◌^◌, ◌≤◌, ◌<◌, ◌≡◌, ◌⊎◌, inl, inr, refl, sym, ap, ◌∙◌, List, [], ◌∷◌,
  Option, none, some, ◌>>=◌, Bool, true, false, leb, if◌then◌else◌, arith, Option-cases, Bool-cases,
}
use mathlib.Core.Path.{subst}
use mathlib.Core.Option.{some-injective}
use we_nmap_in_rust.Prelude.Result.{Result, ok, err}
use we_nmap_in_rust.Capture.{
  PacketHeader, Packet, CaptureError, Capture, Fetched, next_packet, collected, read_from,
}
use we_nmap_in_rust.Capture.Control.{
  LoopControl, continue_loop, break_loop, limit_of, Looped, called, dispatched, loop_from, loop_,
}

-- How the reads of a capture end: with an error, or with the end of its packets.
abbrev pub ended :
    Result CaptureError (Option Packet)
    → Option (Option CaptureError)
    → Option (Option CaptureError)
ended (err e) rest = some (some e)
ended (ok none) rest = some none
ended (ok (some pkt)) rest = rest

unfoldable pub reads_end : ℕ → ℕ → Capture → Option (Option CaptureError)
unfolding next_packet
reads_end rounds zero c = none
reads_end rounds (suc fuel) c =
    next_packet rounds (suc fuel) c >>= λ r. ended r.0 (reads_end rounds fuel r.1)

-- What a loop returns that was stopped after some packets, or came to the end of the reads.
abbrev pub outcome : Bool → ℕ → Option CaptureError → Result CaptureError ℕ
outcome true n last = ok n
outcome false n none = ok n
outcome false n (some e) = err e

-- The limit for a count, which is the bit pattern of an `i32`: a positive count is the limit, and any
-- other is none below 2 ^ 32 - 1.
abbrev pub IsLimit : ℕ → ℕ → Type 0
IsLimit count limit =
    ((1 ≤ count) × (count < 2 ^ 31) × (limit ≡ count))
    ⊎ (((count ≡ 0) ⊎ (2 ^ 31 ≤ count)) × (limit ≡ 2 ^ 32 - 1))

limit_of-IsLimit : (count limit : ℕ) → IsLimit count limit → limit_of count ≡ limit
limit_of-IsLimit count limit h = ground (arith, h)

module _ {ℓ} {S : Type ℓ} (cb : S → PacketHeader → List ℕ → LoopControl × S) (limit : ℕ) where
  -- The callback fed with a list: how many packets it has had, its state, and whether it or the limit
  -- has ended the loop.
  abbrev pub Fed : Type ℓ
  Fed = ℕ × S × Bool

  abbrev after : LoopControl × S → ℕ → (S → Fed) → Fed
  after (continue_loop, s) processed rest = rest s
  after (break_loop, s) processed rest = (processed, s, true)

  abbrev pub feed : List Packet → ℕ → S → Fed
  feed [] processed s = (processed, s, leb limit processed)
  feed ((hdr, payload) ∷ pkts) processed s =
      if leb limit processed
      then (processed, s, true)
      else after (cb s hdr payload) (processed + 1) (feed pkts (processed + 1))

  -- A loop returns as the reads end, unless it was stopped, and with that state.
  abbrev pub Agrees : Fed → Option CaptureError → Option (Looped S) → Type ℓ
  Agrees (n, s, stopped) last o = (c : Capture) × (o ≡ some (outcome stopped n last, c, s))

  feed_limit :
      (pkts : List Packet) (processed : ℕ) (s : S)
      → leb limit processed ≡ true
      → feed pkts processed s ≡ (processed, s, true)
  feed_limit [] processed s e = rw e refl
  feed_limit (pkt ∷ pkts) processed s e = rw e refl

  module _ (rounds : ℕ) where
    abbrev Reads : ℕ → Capture → List Packet → Option CaptureError → Type 0
    Reads fuel c pkts last =
        (read_from rounds fuel c ≡ some pkts) × (reads_end rounds fuel c ≡ some last)

    abbrev Loops : ℕ → Type ℓ
    Loops fuel =
        (pkts : List Packet) (last : Option CaptureError) (processed : ℕ) (c : Capture) (s : S)
        → Reads fuel c pkts last
        → Agrees (feed pkts processed s) last (loop_from cb rounds fuel limit processed c s)

    call :
        (fuel : ℕ)
        → Loops fuel
        → (answer : LoopControl × S) (pkts : List Packet) (last : Option CaptureError)
          (processed : ℕ) (c : Capture)
        → Reads fuel c pkts last
        → Agrees
            (after answer processed (feed pkts processed))
            last
            (called cb answer processed c (loop_from cb rounds fuel limit processed))
    call fuel rest (continue_loop, s) pkts last processed c h = rest pkts last processed c s h
    call fuel rest (break_loop, s) pkts last processed c h = (c, refl)

    abbrev Dispatches : ℕ → Fetched → List Packet → Option CaptureError → ℕ → S → Type ℓ
    Dispatches fuel r pkts last processed s =
        Agrees (feed pkts processed s) last
          (dispatched cb r processed s (loop_from cb rounds fuel limit (processed + 1)))

    call_first :
        (fuel : ℕ)
        → Loops fuel
        → (pkt : Packet) (c : Capture) (pkts : List Packet) (last : Option CaptureError)
          (processed : ℕ) (s : S)
        → leb limit processed ≡ false
        → Reads fuel c pkts last
        → Dispatches fuel (ok (some pkt), c) (pkt ∷ pkts) last processed s
    call_first fuel rest (hdr, payload) c pkts last processed s below h =
        rw below (call fuel rest (cb s hdr payload) pkts last (processed + 1) c h)

    dispatch :
        (fuel : ℕ)
        → Loops fuel
        → (r : Fetched) (pkts : List Packet) (last : Option CaptureError) (processed : ℕ) (s : S)
        → leb limit processed ≡ false
        → collected r.0 (read_from rounds fuel r.1) ≡ some pkts
        → ended r.0 (reads_end rounds fuel r.1) ≡ some last
        → Dispatches fuel r pkts last processed s
    dispatch fuel rest (err e, c) [] last processed s below h k =
        (c, rw (below, sym (some-injective _ _ k)) refl)
    dispatch fuel rest (err e, c) (pkt ∷ pkts) last processed s below h k =
        absurd (ground (arith, h))
    dispatch fuel rest (ok none, c) [] last processed s below h k =
        (c, rw (below, sym (some-injective _ _ k)) refl)
    dispatch fuel rest (ok none, c) (pkt ∷ pkts) last processed s below h k =
        absurd (ground (arith, h))
    dispatch fuel rest (ok (some pkt), c) pkts last processed s below h k =
        elim (Option-cases (read_from rounds fuel c)) [
          | inl e ↦ absurd (ground (arith, h, e))
          | inr (ps, e) ↦
              subst (λ l. Dispatches fuel (ok (some pkt), c) l last processed s)
                (some-injective _ _ (sym (ap (λ o. o >>= λ l. some (pkt ∷ l)) e) ∙ h))
                (call_first fuel rest pkt c ps last processed s below (e, k))
        ]

    loop_from-Agrees : (fuel : ℕ) → Loops fuel
    unfolding loop_from read_from reads_end
    loop_from-Agrees zero pkts last processed c s h = absurd (ground (arith, h.0))
    loop_from-Agrees (suc fuel) pkts last processed c s h =
        elim (Bool-cases (leb limit processed)) [
          | inl e ↦ rw (e, feed_limit pkts processed s e) (c, refl)
          | inr below ↦ elim (Option-cases (next_packet rounds (suc fuel) c)) [
            | inl e ↦ absurd (ground (arith, h.0, e))
            | inr (r, e) ↦
                rw (below, e)
                  (dispatch fuel (loop_from-Agrees fuel) r pkts last processed s below
                    (sym (ap (λ o. o >>= λ x. collected x.0 (read_from rounds fuel x.1)) e) ∙ h.0)
                    (sym (ap (λ o. o >>= λ x. ended x.0 (reads_end rounds fuel x.1)) e) ∙ h.1))
          ]
        ]

-- `loop_` on a capture that gives certain packets and whose reads then end with an error or without:
-- the callback has the packets in their order, up to the one at which it breaks or the limit is
-- reached, where a `count` that is not positive is no limit below 2 ^ 32 - 1; `loop_` returns their
-- number if it was stopped or the packets end without an error, and otherwise that error.
pub loop_-feed {ℓ} :
    {S : Type ℓ} (cb : S → PacketHeader → List ℕ → LoopControl × S) (rounds fuel count limit : ℕ)
    (c : Capture) (s : S) (pkts : List Packet) (last : Option CaptureError)
    → IsLimit count limit
    → read_from rounds fuel c ≡ some pkts
    → reads_end rounds fuel c ≡ some last
    → Agrees cb limit (feed cb limit pkts 0 s) last (loop_ cb rounds fuel count c s)
unfolding loop_
loop_-feed cb rounds fuel count limit c s pkts last is h k =
    rw (limit_of-IsLimit count limit is)
      (loop_from-Agrees cb limit rounds fuel pkts last 0 c s (h, k))
