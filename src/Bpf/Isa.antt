-- ===== src/Bpf/Isa.antt =====
-- wnr-pcap/src/bpf.rs: opcodes and instructions. A `u8`, `u16` or `u32` is a native number.
use we_nmap_in_rust.Prelude.{ℕ}

abbrev pub bpf_ld : ℕ
bpf_ld = 0x00

abbrev pub bpf_ldx : ℕ
bpf_ldx = 0x01

abbrev pub bpf_st : ℕ
bpf_st = 0x02

abbrev pub bpf_stx : ℕ
bpf_stx = 0x03

abbrev pub bpf_alu : ℕ
bpf_alu = 0x04

abbrev pub bpf_jmp : ℕ
bpf_jmp = 0x05

abbrev pub bpf_ret : ℕ
bpf_ret = 0x06

abbrev pub bpf_misc : ℕ
bpf_misc = 0x07

abbrev pub bpf_w : ℕ
bpf_w = 0x00

abbrev pub bpf_h : ℕ
bpf_h = 0x08

abbrev pub bpf_b : ℕ
bpf_b = 0x10

abbrev pub bpf_imm : ℕ
bpf_imm = 0x00

abbrev pub bpf_abs : ℕ
bpf_abs = 0x20

abbrev pub bpf_ind : ℕ
bpf_ind = 0x40

abbrev pub bpf_mem : ℕ
bpf_mem = 0x60

abbrev pub bpf_len : ℕ
bpf_len = 0x80

abbrev pub bpf_msh : ℕ
bpf_msh = 0xa0

abbrev pub bpf_add : ℕ
bpf_add = 0x00

abbrev pub bpf_sub : ℕ
bpf_sub = 0x10

abbrev pub bpf_mul : ℕ
bpf_mul = 0x20

abbrev pub bpf_div : ℕ
bpf_div = 0x30

abbrev pub bpf_or : ℕ
bpf_or = 0x40

abbrev pub bpf_and : ℕ
bpf_and = 0x50

abbrev pub bpf_lsh : ℕ
bpf_lsh = 0x60

abbrev pub bpf_rsh : ℕ
bpf_rsh = 0x70

abbrev pub bpf_neg : ℕ
bpf_neg = 0x80

abbrev pub bpf_mod : ℕ
bpf_mod = 0x90

abbrev pub bpf_xor : ℕ
bpf_xor = 0xa0

abbrev pub bpf_ja : ℕ
bpf_ja = 0x00

abbrev pub bpf_jeq : ℕ
bpf_jeq = 0x10

abbrev pub bpf_jgt : ℕ
bpf_jgt = 0x20

abbrev pub bpf_jge : ℕ
bpf_jge = 0x30

abbrev pub bpf_jset : ℕ
bpf_jset = 0x40

abbrev pub bpf_k : ℕ
bpf_k = 0x00

abbrev pub bpf_x : ℕ
bpf_x = 0x08

abbrev pub bpf_tax : ℕ
bpf_tax = 0x00

abbrev pub bpf_txa : ℕ
bpf_txa = 0x80

abbrev pub bpf_accept : ℕ
bpf_accept = 0xffff_ffff

abbrev pub bpf_reject : ℕ
bpf_reject = 0

pub record BpfInsn : Type 0 where
  pub code : ℕ
  pub jt : ℕ
  pub jf : ℕ
  pub k : ℕ

-- `BpfInsn::new`.
abbrev pub insn : ℕ → ℕ → ℕ → ℕ → BpfInsn
insn code jt jf k = record { code = code; jt = jt; jf = jf; k = k }
