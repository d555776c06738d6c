-- ===== src/Bpf/Filter/Correct.antt =====
-- What a compiled primitive accepts, said of the bytes of the packet.
use we_nmap_in_rust.Prelude.{
  ℕ, zero, suc, ◌+◌, ◌*◌, ◌%◌, ◌^◌, ◌≤◌, ◌<◌, ◌≡◌, ◌≢◌, refl, List, [], ◌∷◌, Option, none, some,
  Bool, true, false, ◌&&◌, ◌||◌, leb, ◌==◌, if◌then◌else◌, length, get_elem?, ◌>>=◌, arith,
  get_elem?-some, Bool-cases, inl, inr, ap, ne→==, ◌∙◌,
}
use we_nmap_in_rust.Prelude.Bytes.{u32_from_be}
use we_nmap_in_rust.Net.{Ipv4Addr}
use we_nmap_in_rust.Datalink.{link_header_len}
use we_nmap_in_rust.Bpf.Isa.{BpfInsn}
use we_nmap_in_rust.Bpf.Vm.{load, exec_ld, exec_jmp, next_or_zero, jump_or_zero, step}
use we_nmap_in_rust.Bpf.Filter.{
  Primitive, proto, port, port_range, host_ipv4, broadcast, multicast, all, load_insn, jmp_insn,
  ret, compile_parsed, filter,
}

-- The byte, the 16-bit and the 32-bit value at an offset, in network order, where it lies wholly
-- inside the packet.
abbrev pub byte_field : List ℕ → ℕ → Option ℕ
byte_field pkt i = get_elem? pkt i

abbrev pub half_field : List ℕ → ℕ → Option ℕ
half_field pkt i = do a ← get_elem? pkt i; b ← get_elem? pkt (i + 1); some (a * 256 + b)

abbrev pub word_field : List ℕ → ℕ → Option ℕ
word_field pkt i = do
  a ← get_elem? pkt i
  b ← get_elem? pkt (i + 1)
  c ← get_elem? pkt (i + 2)
  d ← get_elem? pkt (i + 3)
  some (((a * 256 + b) * 256 + c) * 256 + d)

get_elem?-none {ℓ} : {A : Type ℓ} (xs : List A) (i : ℕ) → length xs ≤ i → get_elem? xs i ≡ none
get_elem?-none [] i h = refl
get_elem?-none (x ∷ xs) zero h = absurd (omega arith)
get_elem?-none (x ∷ xs) (suc i) h = get_elem?-none xs i (omega arith)

load_word : (pkt : List ℕ) (n i : ℕ) → load pkt n i 0 ≡ word_field pkt i
unfolding load
load_word pkt n i = ground (
  arith,
  get_elem?-some pkt i 0,
  get_elem?-some pkt (i + 1) 0,
  get_elem?-some pkt (i + 2) 0,
  get_elem?-some pkt (i + 3) 0,
  get_elem?-none pkt (i + 3),
)

load_half : (pkt : List ℕ) (n i : ℕ) → load pkt n i 8 ≡ half_field pkt i
unfolding load
load_half pkt n i =
    ground (arith, get_elem?-some pkt i 0, get_elem?-some pkt (i + 1) 0, get_elem?-none pkt (i + 1))

load_byte : (pkt : List ℕ) (n i : ℕ) → n ≡ length pkt → load pkt n i 16 ≡ byte_field pkt i
unfolding load
load_byte pkt n i e = ground (arith, get_elem?-some pkt i 0, get_elem?-none pkt i)

-- Whether a field is there and passes a test.
abbrev pub field_passes : (ℕ → Bool) → Option ℕ → Bool
field_passes test none = false
field_passes test (some v) = test v

-- The instructions of a comparison, in front of any other.
module _ (pkt : List ℕ) (i v fuel : ℕ) (rest : List BpfInsn) where
  abbrev comparison : ℕ → List BpfInsn
  comparison size = load_insn 0 size i ∷ jmp_insn 16 v 1 0 ∷ ret 0 ∷ ret 0xffff_ffff ∷ rest

  abbrev Compares : ℕ → Option ℕ → Type 0
  Compares size o =
      filter (suc (suc (suc (suc fuel)))) (comparison size) pkt
      ≡ some (field_passes (λ w. w == v) o)

  compare_w : (o : Option ℕ) → load pkt (length pkt % 2 ^ 32) i 0 ≡ o → Compares 0 o
  unfolding filter step exec_ld exec_jmp load_insn jmp_insn ret next_or_zero jump_or_zero
  compare_w none e = rw (e, ◌>>=◌)
  compare_w (some w) e = rw (e, ◌>>=◌) (ground arith)

  compare_h : (o : Option ℕ) → load pkt (length pkt % 2 ^ 32) i 8 ≡ o → Compares 8 o
  unfolding filter step exec_ld exec_jmp load_insn jmp_insn ret next_or_zero jump_or_zero
  compare_h none e = rw (e, ◌>>=◌)
  compare_h (some w) e = rw (e, ◌>>=◌) (ground arith)

  compare_b : (o : Option ℕ) → load pkt (length pkt % 2 ^ 32) i 16 ≡ o → Compares 16 o
  unfolding filter step exec_ld exec_jmp load_insn jmp_insn ret next_or_zero jump_or_zero
  compare_b none e = rw (e, ◌>>=◌)
  compare_b (some w) e = rw (e, ◌>>=◌) (ground arith)

-- What a primitive accepts on a link type, by the bytes of the frame. `host` looks at the
-- destination alone.
abbrev pub passes : Primitive → ℕ → List ℕ → Bool
passes (proto p) linktype pkt =
    if p == 0x0806 || p == 0x0800 || p == 0x86dd
    then field_passes (λ w. w == p) (half_field pkt 12)
    else field_passes (λ w. w == p) (byte_field pkt (link_header_len linktype + 9))
passes (port _) linktype pkt = true
passes (port_range _ _) linktype pkt = true
passes (host_ipv4 ip) linktype pkt =
    field_passes (λ w. w == u32_from_be ip.a ip.b ip.c ip.d)
      (word_field pkt (link_header_len linktype + 16))
passes broadcast linktype pkt =
    field_passes (λ w. w == 0xffff_ffff) (word_field pkt (link_header_len linktype + 16))
passes multicast linktype pkt =
    field_passes (λ w. leb 224 w && leb w 239) (byte_field pkt (link_header_len linktype + 16))
passes all linktype pkt = true

accepts_all :
    (fuel : ℕ) (rest : List BpfInsn) (pkt : List ℕ)
    → filter (suc fuel) (ret 0xffff_ffff ∷ rest) pkt ≡ some true
unfolding filter step ret
accepts_all fuel rest pkt = refl

multicast_runs :
    (pkt : List ℕ) (i fuel : ℕ) (rest : List BpfInsn) (o : Option ℕ)
    → load pkt (length pkt % 2 ^ 32) i 16 ≡ o
    → filter
        (suc (suc (suc (suc fuel))))
        (load_insn 0 16 i
          ∷ jmp_insn 48 224 0 1
          ∷ jmp_insn 32 239 0 1
          ∷ ret 0
          ∷ ret 0xffff_ffff
          ∷ rest)
        pkt
      ≡ some (field_passes (λ w. leb 224 w && leb w 239) o)
unfolding filter step exec_ld exec_jmp load_insn jmp_insn ret next_or_zero jump_or_zero
multicast_runs pkt i fuel rest none e = rw (e, ◌>>=◌)
multicast_runs pkt i fuel rest (some w) e = rw (e, ◌>>=◌) (ground arith)

module _ (linktype fuel : ℕ) (pkt : List ℕ) (small : length pkt < 2 ^ 32) where
  whole_packet : length pkt % 2 ^ 32 ≡ length pkt
  whole_packet = omega arith

  compiled :
      (p : Primitive)
      → filter (suc (suc (suc (suc fuel)))) (compile_parsed p linktype) pkt
        ≡ some (passes p linktype pkt)
  unfolding compile_parsed
  compiled all = accepts_all _ _ pkt
  compiled (proto p) = elim (Bool-cases (p == 0x0806 || p == 0x0800 || p == 0x86dd)) [
    | inl e ↦ rw e (compare_h pkt 12 p fuel _ _ (load_half pkt _ 12))
    | inr e ↦ rw e (compare_b pkt _ p fuel _ _ (load_byte pkt _ _ whole_packet))
  ]
  compiled (port _) = accepts_all _ _ pkt
  compiled (port_range _ _) = accepts_all _ _ pkt
  compiled (host_ipv4 ip) = compare_w pkt _ _ fuel _ _ (load_word pkt _ _)
  compiled broadcast = compare_w pkt _ _ fuel _ _ (load_word pkt _ _)
  compiled multicast = multicast_runs pkt _ fuel _ _ (load_byte pkt _ _ whole_packet)

-- Four rounds are enough for every compiled primitive, and the filter accepts exactly the frames
-- that the primitive describes: the EtherType at offset 12, the IP protocol, or the destination
-- address, where those bytes are in the frame.
pub filter-compile :
    (p : Primitive) (linktype fuel : ℕ) (pkt : List ℕ)
    → length pkt < 2 ^ 32
    → 4 ≤ fuel
    → filter fuel (compile_parsed p linktype) pkt ≡ some (passes p linktype pkt)
filter-compile p linktype zero pkt small h = absurd (omega arith)
filter-compile p linktype (suc zero) pkt small h = absurd (omega arith)
filter-compile p linktype (suc (suc zero)) pkt small h = absurd (omega arith)
filter-compile p linktype (suc (suc (suc zero))) pkt small h = absurd (omega arith)
filter-compile p linktype (suc (suc (suc (suc fuel)))) pkt small h =
    compiled linktype fuel pkt small p

-- `host A` rejects every frame whose destination is not A, also when its source is A, although the
-- code that it compiles to holds a second comparison, with the source.
pub filter-host_source :
    (ip : Ipv4Addr) (linktype fuel dst : ℕ) (pkt : List ℕ)
    → length pkt < 2 ^ 32
    → 4 ≤ fuel
    → word_field pkt (link_header_len linktype + 12) ≡ some (u32_from_be ip.a ip.b ip.c ip.d)
    → word_field pkt (link_header_len linktype + 16) ≡ some dst
    → dst ≢ u32_from_be ip.a ip.b ip.c ip.d
    → filter fuel (compile_parsed (host_ipv4 ip) linktype) pkt ≡ some false
filter-host_source ip linktype fuel dst pkt small h src e ne =
    filter-compile (host_ipv4 ip) linktype fuel pkt small h ∙ ap some (rw e (ne→== _ _ ne))
