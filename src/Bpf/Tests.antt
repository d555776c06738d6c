-- ===== src/Bpf/Tests.antt =====
-- Runs of the filter machine on small frames, and the theorems at concrete programs.
use we_nmap_in_rust.Prelude.{
  ℕ, ◌≡◌, refl, List, [], ◌∷◌, ◌++◌, Option, some, true, false, replicate, arith,
}
use we_nmap_in_rust.Net.{Ipv4Addr}
use we_nmap_in_rust.Datalink.{link_header_len}
use we_nmap_in_rust.Bpf.Isa.{BpfInsn, insn}
use we_nmap_in_rust.Bpf.Vm.{
  BpfVm, new, load, exec_ld, exec_st, alu, exec_jmp, exec_misc, next_or_zero, jump_or_zero, step,
  run,
}
use we_nmap_in_rust.Bpf.Vm.Termination.{Returns, run-Returns}
use we_nmap_in_rust.Bpf.Filter.{proto, host_ipv4, multicast, compile_parsed, filter}
use we_nmap_in_rust.Bpf.Filter.Correct.{passes, filter-compile}

-- An Ethernet header for IPv4, and a header with protocol 6 from 9.9.9.9 to 1.2.3.4.
abbrev frame : List ℕ
frame =
    replicate 12 0
    ++ (8 ∷ 0 ∷ 0x45 ∷ replicate 8 0)
    ++ (6 ∷ 0 ∷ 0 ∷ 9 ∷ 9 ∷ 9 ∷ 9 ∷ 1 ∷ 2 ∷ 3 ∷ 4 ∷ [])

abbrev nines : Ipv4Addr
nines = record { a = 9; b = 9; c = 9; d = 9 }

abbrev ones : Ipv4Addr
ones = record { a = 1; b = 2; c = 3; d = 4 }

-- Counts down from 2 by a jump of the second instruction to itself if the test fails.
abbrev store_program : List BpfInsn
store_program =
    insn 0x00 0 0 7 ∷ insn 0x02 0 0 3 ∷ insn 0x61 0 0 3 ∷ insn 0x2c 0 0 0 ∷ insn 0x16 0 0 5 ∷ []

runs : Option (ℕ × BpfVm)
unfolding run step exec_ld exec_st alu exec_jmp exec_misc next_or_zero jump_or_zero load
runs = run 9 store_program frame new

tcp_accepted : filter 4 (compile_parsed (proto 6) 1) frame ≡ some true
unfolding filter compile_parsed step exec_ld exec_jmp next_or_zero jump_or_zero load link_header_len
tcp_accepted = refl

udp_rejected : filter 4 (compile_parsed (proto 17) 1) frame ≡ some false
unfolding filter compile_parsed step exec_ld exec_jmp next_or_zero jump_or_zero load link_header_len
udp_rejected = refl

destination_accepted : filter 4 (compile_parsed (host_ipv4 ones) 1) frame ≡ some true
unfolding filter compile_parsed step exec_ld exec_jmp next_or_zero jump_or_zero load link_header_len
destination_accepted = refl

run-Returns_example : Returns (run 6 store_program frame new)
run-Returns_example =
    run-Returns store_program frame (omega arith) refl (omega arith) 6 new (omega arith)

filter-compile_example :
    filter 4 (compile_parsed multicast 1) frame ≡ some (passes multicast 1 frame)
filter-compile_example = filter-compile multicast 1 4 frame (omega arith) (omega arith)
