-- ===== src/Bpf/Filter.antt =====
-- wnr-pcap/src/bpf.rs: the filter primitives, their compilation and `BpfProgram`.
pub mod Correct
use we_nmap_in_rust.Prelude.{
  ℕ, ◌+◌, List, [], ◌∷◌, ◌++◌, Option, some, Bool, ◌==◌, ◌||◌, if◌then◌else◌, bit_or, ◌>>=◌,
}
use we_nmap_in_rust.Prelude.Bytes.{u32_from_be}
use we_nmap_in_rust.Net.{Ipv4Addr}
use we_nmap_in_rust.Datalink.{link_header_len}
use we_nmap_in_rust.Bpf.Isa.{
  bpf_ld, bpf_jmp, bpf_ret, bpf_w, bpf_h, bpf_b, bpf_abs, bpf_jeq, bpf_jgt, bpf_jge, bpf_k,
  bpf_accept, bpf_reject, BpfInsn, insn,
}
use we_nmap_in_rust.Bpf.Vm.{new, filter_ok}

pub data Primitive : Type 0 where
  proto : ℕ → Primitive
  port : ℕ → Primitive
  port_range : ℕ → ℕ → Primitive
  host_ipv4 : Ipv4Addr → Primitive
  broadcast : Primitive
  multicast : Primitive
  all : Primitive

unfoldable pub load_insn : ℕ → ℕ → ℕ → BpfInsn
load_insn cls size k = insn (bit_or (bit_or cls size) bpf_abs) 0 0 k

unfoldable pub jmp_insn : ℕ → ℕ → ℕ → ℕ → BpfInsn
jmp_insn op k jt jf = insn (bit_or bpf_jmp op) jt jf k

unfoldable pub ret : ℕ → BpfInsn
ret k = insn (bit_or bpf_ret bpf_k) 0 0 k

-- `compile_primitive`: it has no failing branch, so the `Ok` is left out.
unfoldable pub compile_primitive : Primitive → ℕ → List BpfInsn
unfolding load_insn jmp_insn ret
compile_primitive all linktype = ret bpf_accept ∷ []
compile_primitive (proto p) linktype =
    if p == 0x0806 || p == 0x0800 || p == 0x86dd
    then load_insn bpf_ld bpf_h 12 ∷ jmp_insn bpf_jeq p 1 0 ∷ ret bpf_reject ∷ ret bpf_accept ∷ []
    else load_insn bpf_ld bpf_b (link_header_len linktype + 9)
      ∷ jmp_insn bpf_jeq p 1 0
      ∷ ret bpf_reject
      ∷ ret bpf_accept
      ∷ []
compile_primitive (port _) linktype = ret bpf_accept ∷ []
compile_primitive (port_range _ _) linktype = ret bpf_accept ∷ []
compile_primitive (host_ipv4 ip) linktype =
    let ip_hdr = link_header_len linktype in
    let target = u32_from_be ip.a ip.b ip.c ip.d in
    load_insn bpf_ld bpf_w (ip_hdr + 16)
    ∷ jmp_insn bpf_jeq target 1 0
    ∷ ret bpf_reject
    ∷ ret bpf_accept
    ∷ load_insn bpf_ld bpf_w (ip_hdr + 12)
    ∷ jmp_insn bpf_jeq target 1 0
    ∷ ret bpf_reject
    ∷ ret bpf_accept
    ∷ []
compile_primitive broadcast linktype =
    let ip_hdr = link_header_len linktype in
    load_insn bpf_ld bpf_w (ip_hdr + 16)
    ∷ jmp_insn bpf_jeq 0xffff_ffff 1 0
    ∷ ret bpf_reject
    ∷ ret bpf_accept
    ∷ []
compile_primitive multicast linktype =
    let ip_hdr = link_header_len linktype in
    load_insn bpf_ld bpf_b (ip_hdr + 16)
    ∷ jmp_insn bpf_jge 224 0 1
    ∷ jmp_insn bpf_jgt 239 0 1
    ∷ ret bpf_reject
    ∷ ret bpf_accept
    ∷ []

-- What `FilterBuilder::compile` makes of a parsed primitive: the code, then an accept.
unfoldable pub compile_parsed : Primitive → ℕ → List BpfInsn
unfolding compile_primitive
compile_parsed p linktype = compile_primitive p linktype ++ (ret bpf_accept ∷ [])

-- `BpfProgram::filter`: a fresh machine for every packet. `none` is a run that did not end.
unfoldable pub filter : ℕ → List BpfInsn → List ℕ → Option Bool
unfolding filter_ok
filter fuel insns pkt = do (accepted, _) ← filter_ok fuel insns pkt new; some accepted
