-- ===== src/Capture/Filtered.antt =====
-- A capture with a filter against the packets of its source.
use we_nmap_in_rust.Prelude.{
  ℕ, zero, suc, ◌^◌, ◌<◌, ◌≤◌, ◌≡◌, refl, ap, ◌∙◌, List, ◌∷◌, Option, none, some, ◌>>=◌, Bool, true,
  false, if◌then◌else◌, length, map, keep, All, arith,
}
use mathlib.Core.Option.{some-injective}
use we_nmap_in_rust.Prelude.Result.{Result, ok, err, ok-injective}
use we_nmap_in_rust.Savefile.{PcapPacket}
use we_nmap_in_rust.Bpf.Isa.{BpfInsn}
use we_nmap_in_rust.Bpf.Vm.{BpfVm, run, filter_ok}
use we_nmap_in_rust.Bpf.Filter as Bpf
use we_nmap_in_rust.Prelude.Text.{Text}
use we_nmap_in_rust.Bpf.Parser.{ParseError, compile}
use we_nmap_in_rust.Bpf.Parser.Meaning.{intended, Compiled, compile-Compiled}
use we_nmap_in_rust.Capture.{
  CaptureKind, CaptureError, Capture, Packet, Fetched, handed_out, judged, filtered, fetched, fetch,
  next_packet, collected, read_from, filter_set, set_filter,
}
use we_nmap_in_rust.Capture.Contents.{
  pending, fetched_first, contents_within, contents, Consumes, fetch-Consumes,
}

-- A filter does what a test says, on every packet below 2 ^ 32 bytes.
abbrev pub Describes : ℕ → Option (List BpfInsn) → (List ℕ → Bool) → Type 0
Describes rounds none test = (pkt : List ℕ) → test pkt ≡ true
Describes rounds (some insns) test =
    (pkt : List ℕ) → length pkt < 2 ^ 32 → Bpf.filter rounds insns pkt ≡ some (test pkt)

abbrev pub IsSmall : PcapPacket → Type 0
IsSmall pkt = length pkt.payload < 2 ^ 32

-- The machine of the capture starts anew for every packet.
answer_of :
    (o : Option (Bool × BpfVm)) {b : Bool}
    → (o >>= λ a. some a.0) ≡ some b
    → (vm : BpfVm) × (o ≡ some (b, vm))
answer_of none e = absurd (ground (arith, e))
answer_of (some (a, vm)) e = (vm, ap (λ x. some (x, vm)) (some-injective _ _ e))

filter_ok-filter :
    (rounds : ℕ) (insns : List BpfInsn) (pkt : List ℕ) (vm : BpfVm) {b : Bool}
    → Bpf.filter rounds insns pkt ≡ some b
    → (left : BpfVm) × (filter_ok rounds insns pkt vm ≡ some (b, left))
unfolding Bpf.filter filter_ok run
filter_ok-filter rounds insns pkt vm e = answer_of (filter_ok rounds insns pkt vm) e

abbrev pub accepted : (List ℕ → Bool) → List PcapPacket → List PcapPacket
accepted test pkts = keep (λ pkt. test pkt.payload) pkts

module _ (rounds : ℕ) (test : List ℕ → Bool) where
  -- One read and the reads after it.
  abbrev reads : ℕ → Option Fetched → Option (List Packet)
  reads g o = o >>= λ r. collected r.0 (read_from rounds g r.1)

  abbrev Reads : ℕ → (Capture → Option (List Packet)) → Type 0
  Reads bound outcome =
      (n : ℕ) (c : Capture)
      → Describes rounds c.filter test
      → pending c.kind < bound
      → pending c.kind < n
      → All IsSmall (contents_within n c.kind)
      → outcome c ≡ some (map handed_out (accepted test (contents_within n c.kind)))

  -- The same of one read that has the fuel `f`.
  abbrev Fetches : ℕ → ℕ → Type 0
  Fetches f g =
      (n : ℕ) (c : Capture)
      → Describes rounds c.filter test
      → pending c.kind < f
      → pending c.kind ≤ g
      → pending c.kind < n
      → All IsSmall (contents_within n c.kind)
      → reads g (next_packet rounds f c)
        ≡ some (map handed_out (accepted test (contents_within n c.kind)))

  module _ (f g n : ℕ) (skip : Fetches f g) (rest : Reads g (read_from rounds g)) where
    judge :
        (b : Bool) (vm : BpfVm) (c : Capture) (pkt : PcapPacket)
        → Describes rounds c.filter test
        → pending c.kind < f
        → pending c.kind < g
        → pending c.kind < n
        → All IsSmall (contents_within n c.kind)
        → reads g (judged (next_packet rounds f) c pkt (b, vm))
          ≡ some (
              map handed_out (
                if b
                then pkt ∷ accepted test (contents_within n c.kind)
                else accepted test (contents_within n c.kind)))
    judge true vm c pkt d hf hg hn small =
        rw (rest n (record c { filter_vm = vm }) d hg hn small) refl
    judge false vm c pkt d hf hg hn small =
        skip n (record c { filter_vm = vm }) d hf (omega (arith, hg)) hn small

    filter_packet :
        (program : Option (List BpfInsn)) (c : Capture) (pkt : PcapPacket)
        → Describes rounds program test
        → IsSmall pkt
        → Describes rounds c.filter test
        → pending c.kind < f
        → pending c.kind < g
        → pending c.kind < n
        → All IsSmall (contents_within n c.kind)
        → reads g (filtered rounds (next_packet rounds f) c pkt program)
          ≡ some (map handed_out (accepted test (pkt ∷ contents_within n c.kind)))
    unfolding filtered
    filter_packet none c pkt p fits d hf hg hn small =
        rw (p pkt.payload, rest n c d hg hn small) refl
    filter_packet (some insns) c pkt p fits d hf hg hn small =
        let (vm, e) = filter_ok-filter rounds insns pkt.payload c.filter_vm (p pkt.payload fits) in
        rw e (judge (test pkt.payload) vm c pkt d hf hg hn small)

    read_fetched :
        (x : Result CaptureError (Option PcapPacket) × CaptureKind) (c : Capture) (total : ℕ)
        → Consumes total x
        → Describes rounds c.filter test
        → total ≤ f
        → total ≤ g
        → total ≤ n
        → All IsSmall (fetched_first x.0 (contents_within n x.1))
        → reads g (fetched rounds (next_packet rounds f) x.0 (record c { kind = x.1 }))
          ≡ some (map handed_out (accepted test (fetched_first x.0 (contents_within n x.1))))
    unfolding fetched
    read_fetched (err e, kind) c total less d hf hg hn small = refl
    read_fetched (ok none, kind) c total less d hf hg hn small = refl
    read_fetched (ok (some pkt), kind) c total less d hf hg hn small =
        filter_packet c.filter (record c { kind = kind }) pkt d small.0 d (omega (arith, less))
          (omega (arith, less)) (omega (arith, less)) small.1

  read_next : (g : ℕ) → Reads g (read_from rounds g) → (f : ℕ) → Fetches f g
  unfolding next_packet contents_within
  read_next g rest zero n c d hf hg hn small = absurd (omega arith)
  read_next g rest (suc f) zero c d hf hg hn small = absurd (omega arith)
  read_next g rest (suc f) (suc n) c d hf hg hn small =
      read_fetched f g n (read_next g rest f) rest (fetch c.kind) c (pending c.kind)
        (fetch-Consumes c.kind) d (omega arith) (omega arith) (omega arith) small

  read_all_left : (g : ℕ) → Reads g (read_from rounds g)
  unfolding read_from
  read_all_left zero n c d hg hn small = absurd (omega arith)
  read_all_left (suc g) n c d hg hn small =
      read_next g (read_all_left g) (suc g) n c d hg (omega arith) hn small

-- A compiled filter, and what it leaves of the source.
program_set :
    (rounds fuel : ℕ) (c : Capture) (test : List ℕ → Bool) (r : Result ParseError (List BpfInsn))
    (i : Result ParseError (List ℕ → Bool))
    → Compiled r i
    → i ≡ ok test
    → 4 ≤ rounds
    → pending c.kind < fuel
    → All IsSmall (contents c.kind)
    → read_from rounds fuel (filter_set c r).1
      ≡ some (map handed_out (accepted test (contents c.kind)))
unfolding contents
program_set rounds fuel c test (err e) (err f) h m room left small = absurd (ground (arith, m))
program_set rounds fuel c test (err e) (ok t) h m room left small = absurd h
program_set rounds fuel c test (ok insns) (err e) h m room left small = absurd h
program_set rounds fuel c test (ok insns) (ok t) h m room left small =
    read_all_left rounds test fuel (suc (pending c.kind)) (filter_set c (ok insns)).1
      (λ pkt short. h rounds pkt room short ∙ ap (λ f. some (f pkt)) (ok-injective m)) left
      (omega arith) small

-- A capture of a file or a socket after `set_filter` of a text that has a meaning: the reads give, in
-- their order, the packets of the source that the meaning accepts, and no other, and end, with four
-- rounds for the filter, more fuel than there is to read, and packets below 2 ^ 32 bytes.
pub read_from-set_filter :
    (rounds fuel : ℕ) (expr : Text) (c : Capture) (test : List ℕ → Bool)
    → intended expr c.linktype ≡ ok test
    → 4 ≤ rounds
    → pending c.kind < fuel
    → All IsSmall (contents c.kind)
    → read_from rounds fuel (set_filter expr c).1
      ≡ some (map handed_out (accepted test (contents c.kind)))
unfolding set_filter
read_from-set_filter rounds fuel expr c test m room left small =
    program_set rounds fuel c test (compile expr c.linktype) (intended expr c.linktype)
      (compile-Compiled expr c.linktype) m room left small
