-- ===== src/Bpf.antt =====
-- wnr-pcap/src/bpf.rs: the packet filter machine and the filter compiler.
pub mod Isa
pub mod Vm
pub mod Filter
pub mod Parser
mod Tests
