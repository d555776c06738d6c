-- ===== src/Bpf/Vm.antt =====
-- wnr-pcap/src/bpf.rs: `BpfVm`. One call of `step` is one round of the `while` loop of `run`,
-- and `run_from` is the loop on fuel: `none` says that the fuel ran out, since a jump may go back.
-- `usize` has 64 bits, so the `checked_add` of `load` does not fail; the sums of `u32` that the
-- source writes with `+` wrap, as in the release profile.
pub mod Termination
use we_nmap_in_rust.Prelude.{
  ℕ, zero, suc, ◌+◌, ◌-◌, ◌*◌, ◌/◌, ◌%◌, ◌^◌, bit_and, bit_or, bit_xor, List, Option, none, some,
  Bool, true, false, not, ◌||◌, ltb, leb, ◌==◌, if◌then◌else◌, length, get_elem?, get_or, set,
  replicate, ◌>>=◌,
}
use we_nmap_in_rust.Prelude.Bytes.{byte_at, u16_from_be, u32_from_be}
use we_nmap_in_rust.Bpf.Isa.{
  bpf_ld, bpf_ldx, bpf_st, bpf_stx, bpf_alu, bpf_jmp, bpf_ret, bpf_misc, bpf_w, bpf_h, bpf_b,
  bpf_imm, bpf_abs, bpf_ind, bpf_mem, bpf_len, bpf_msh, bpf_add, bpf_sub, bpf_mul, bpf_div, bpf_or,
  bpf_and, bpf_lsh, bpf_rsh, bpf_neg, bpf_mod, bpf_xor, bpf_ja, bpf_jeq, bpf_jgt, bpf_jge, bpf_jset,
  bpf_tax, bpf_txa, BpfInsn,
}

pub record BpfVm : Type 0 where
  pub acc : ℕ
  pub x : ℕ
  pub mem : List ℕ

abbrev pub u32 : ℕ → ℕ
u32 n = n % 2 ^ 32

-- `BpfVm::new`, and the state to which `run` resets the machine.
abbrev pub new : BpfVm
new = record { acc = 0; x = 0; mem = replicate 16 0 }

-- `load`: a value of the given size at an absolute offset, if it lies inside the packet.
unfoldable pub load : List ℕ → ℕ → ℕ → ℕ → Option ℕ
load pkt pkt_len idx size =
    if size == bpf_w
    then (if ltb (length pkt) (idx + 4)
        then none
        else some (
            u32_from_be (byte_at pkt idx) (byte_at pkt (idx + 1)) (byte_at pkt (idx + 2))
              (byte_at pkt (idx + 3))))
    else if size == bpf_h
    then (if ltb (length pkt) (idx + 2)
        then none
        else some (u16_from_be (byte_at pkt idx) (byte_at pkt (idx + 1))))
    else if leb pkt_len idx
    then none
    else some (byte_at pkt idx)

-- `if cls == BPF_LD { self.acc = v } else { self.x = v }`.
unfoldable pub load_into : ℕ → ℕ → BpfVm → BpfVm
load_into cls v vm = if cls == bpf_ld then record vm { acc = v } else record vm { x = v }

-- The arm of `BPF_LD | BPF_LDX`; `none` is `return 0`.
unfoldable pub exec_ld : List ℕ → ℕ → BpfInsn → BpfVm → Option BpfVm
unfolding load_into
exec_ld pkt cls ins vm =
    let pkt_len = u32 (length pkt) in
    let size = bit_and ins.code 0x18 in
    let mode = bit_and ins.code 0xe0 in
    if mode == bpf_imm
    then some (load_into cls ins.k vm)
    else if mode == bpf_abs || mode == bpf_ind
    then (do
      v ← load pkt pkt_len (if mode == bpf_ind then u32 (vm.x + ins.k) else ins.k) size
      some (load_into cls v vm))
    else if mode == bpf_mem
    then (if leb (length vm.mem) ins.k
        then none
        else some (load_into cls (get_or vm.mem ins.k 0) vm))
    else if mode == bpf_len
    then some (load_into cls pkt_len vm)
    else if mode == bpf_msh
    then (do
      v ← load pkt pkt_len ins.k bpf_b
      let hlen = u32 (bit_and v 0x0f * 2 ^ 2)
      if ltb pkt_len hlen then none else some (record vm { x = hlen }))
    else none

-- The arm of `BPF_ST | BPF_STX`.
unfoldable pub exec_st : ℕ → BpfInsn → BpfVm → Option BpfVm
exec_st cls ins vm =
    if leb (length vm.mem) ins.k
    then none
    else some (record vm { mem = set vm.mem ins.k (if cls == bpf_st then vm.acc else vm.x) })

-- `checked_shl(v).unwrap_or(0)` and `checked_shr(v).unwrap_or(0)`.
unfoldable pub shl_or_zero : ℕ → ℕ → ℕ
shl_or_zero a v = elim (ltb v 32) [ true ↦ u32 (a * 2 ^ v) | false ↦ 0 ]

unfoldable pub shr_or_zero : ℕ → ℕ → ℕ
shr_or_zero a v = elim (ltb v 32) [ true ↦ a / 2 ^ v | false ↦ 0 ]

-- The new accumulator of `alu`.
unfoldable pub alu_value : ℕ → ℕ → ℕ → ℕ
unfolding shl_or_zero shr_or_zero
alu_value op a v =
    if op == bpf_add
    then u32 (a + v)
    else if op == bpf_sub
    then u32 (a + 2 ^ 32 - v)
    else if op == bpf_mul
    then u32 (a * v)
    else if op == bpf_div
    then (if not (v == 0) then a / v else 0)
    else if op == bpf_or
    then bit_or a v
    else if op == bpf_and
    then bit_and a v
    else if op == bpf_lsh
    then shl_or_zero a v
    else if op == bpf_rsh
    then shr_or_zero a v
    else if op == bpf_neg
    then u32 (2 ^ 32 - a)
    else if op == bpf_mod
    then (if not (v == 0) then a % v else 0)
    else if op == bpf_xor
    then bit_xor a v
    else a

unfoldable pub alu : ℕ → Bool → ℕ → BpfVm → BpfVm
unfolding alu_value
alu op use_x k vm = let v = if use_x then vm.x else k in record vm { acc = alu_value op vm.acc v }

-- The arm of `BPF_JMP`: the next `pc`; `none` is `return 0`. `BPF_JA` sets `pc` to `k`.
unfoldable pub exec_jmp : BpfInsn → ℕ → BpfVm → Option ℕ
exec_jmp ins pc vm =
    let op = bit_and ins.code 0x70 in
    let v = if not (bit_and ins.code 0x08 == 0) then vm.x else ins.k in
    let true_target = u32 (u32 pc + ins.jt + 1) in
    let false_target = u32 (u32 pc + ins.jf + 1) in
    if op == bpf_ja
    then some ins.k
    else if op == bpf_jeq
    then some (if vm.acc == v then true_target else false_target)
    else if op == bpf_jgt
    then some (if ltb v vm.acc then true_target else false_target)
    else if op == bpf_jge
    then some (if leb v vm.acc then true_target else false_target)
    else if op == bpf_jset
    then some (if not (bit_and vm.acc v == 0) then true_target else false_target)
    else none

-- The arm of `BPF_MISC`.
unfoldable pub exec_misc : BpfInsn → BpfVm → BpfVm
exec_misc ins vm =
    if bit_and ins.code 0xf0 == bpf_tax
    then record vm { x = vm.acc }
    else if bit_and ins.code 0xf0 == bpf_txa
    then record vm { acc = vm.x }
    else vm

-- What one round does: go on at a `pc`, or return a value.
pub data Step : Type 0 where
  goto : ℕ → BpfVm → Step
  halt : ℕ → BpfVm → Step

-- `pc += 1`, or `return 0`.
unfoldable pub next_or_zero : ℕ → BpfVm → Option BpfVm → Step
next_or_zero pc vm none = halt 0 vm
next_or_zero pc vm (some vm') = goto (pc + 1) vm'

unfoldable pub jump_or_zero : BpfVm → Option ℕ → Step
jump_or_zero vm none = halt 0 vm
jump_or_zero vm (some pc) = goto pc vm

unfoldable pub step : List ℕ → BpfInsn → ℕ → BpfVm → Step
step pkt ins pc vm =
    let cls = bit_and ins.code 0x07 in
    if cls == bpf_ld || cls == bpf_ldx
    then next_or_zero pc vm (exec_ld pkt cls ins vm)
    else if cls == bpf_st || cls == bpf_stx
    then next_or_zero pc vm (exec_st cls ins vm)
    else if cls == bpf_alu
    then goto (pc + 1) (alu (bit_and ins.code 0xf0) (not (bit_and ins.code 0x08 == 0)) ins.k vm)
    else if cls == bpf_jmp
    then jump_or_zero vm (exec_jmp ins pc vm)
    else if cls == bpf_ret
    then halt (if not (bit_and ins.code 0x08 == 0) then vm.x else ins.k) vm
    else if cls == bpf_misc
    then goto (pc + 1) (exec_misc ins vm)
    else halt 0 vm

-- What follows a round.
abbrev pub resume : (ℕ → BpfVm → Option (ℕ × BpfVm)) → Step → Option (ℕ × BpfVm)
resume rest (goto pc vm) = rest pc vm
resume rest (halt r vm) = some (r, vm)

-- `while pc < program.len()`, with the instruction at `pc` when there is one.
unfoldable pub fetch :
    (ℕ → BpfVm → Option (ℕ × BpfVm)) → List ℕ → ℕ → BpfVm → Option BpfInsn → Option (ℕ × BpfVm)
fetch rest pkt pc vm none = some (vm.acc, vm)
fetch rest pkt pc vm (some ins) = resume rest (step pkt ins pc vm)

-- The loop from `pc` on: the returned value and the machine that is left.
unfoldable pub run_from : ℕ → List BpfInsn → List ℕ → ℕ → BpfVm → Option (ℕ × BpfVm)
unfolding fetch
run_from zero program pkt pc vm = none
run_from (suc fuel) program pkt pc vm =
    fetch (run_from fuel program pkt) pkt pc vm (get_elem? program pc)

-- `BpfVm::run`: the machine is reset, whatever it held.
unfoldable pub run : ℕ → List BpfInsn → List ℕ → BpfVm → Option (ℕ × BpfVm)
unfolding run_from
run fuel program pkt vm = run_from fuel program pkt 0 new

-- `BpfVm::filter_ok`.
unfoldable pub filter_ok : ℕ → List BpfInsn → List ℕ → BpfVm → Option (Bool × BpfVm)
unfolding run
filter_ok fuel program pkt vm = do (r, vm') ← run fuel program pkt vm; some (not (r == 0), vm')
