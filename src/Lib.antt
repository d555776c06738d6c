-- ===== src/Lib.antt =====
-- We-Nmap-in-Rust: the libraries behind a network scanner. wnr-pcap reads and writes capture files
-- and filters packets, wnr-dnet holds addresses, Ethernet and ARP headers and tables, wnr-nsock runs
-- an event loop over sockets.
--
-- The files, and the code that they model:
--   Bpf/Isa, Bpf/Vm, Bpf/Filter    wnr-pcap/src/bpf.rs: the instructions; `BpfVm::run`, one round of
--       which is `step`; `compile_primitive` and `BpfProgram::filter`.
--   Bpf/Parser   the text of a filter there: `tokenize`, `parse_primitive`, `FilterBuilder::compile`;
--       Bpf/Parser/Expressions says how an expression is written and what it is to accept.
--   Datalink     wnr-pcap/src/datalink.rs: `link_header_len`, which the compiler reads; the names.
--   Savefile     wnr-pcap/src/savefile.rs: the reader takes its bytes from a list and leaves the
--       rest, the writer appends to one.
--   Sendqueue    wnr-pcap/src/sendqueue.rs, which stages the packets of Savefile.
--   Raw          wnr-pcap/src/raw.rs, the Linux backend: `open` (as `open_socket`), `next_packet`,
--       `send_frame`. What the kernel answers is a part of the state. Raw/Windows is the Windows
--       backend, Raw/Stub that of the systems without one.
--   Capture      wnr-pcap/src/capture.rs: `open_offline`, `open_live`, `set_filter`, `next_packet`
--       with the filter of Bpf over the reader of Savefile or the socket of Raw, `read_all`,
--       `strip_link_header`; Capture/Control is `loop_`, `capture_to_file`, `inject`,
--       `transmit_sendqueue`, the modes and the statistics; Capture/Devices is `findalldevs` and
--       `lookupdev`.
--   Net, Addr    the addresses of the standard library; wnr-dnet/src/addr.rs, masks and comparison.
--   Net/Ipv4Text, Addr/Text, Eth/Text    addresses as text, printed and parsed.
--   Eth, Arp     wnr-dnet/src/eth.rs and wnr-dnet/src/arp.rs: headers, messages, the cache.
--   Route        wnr-dnet/src/route.rs: the routing table, over the networks of Addr.
--       Route/Probe is `route_to`, over a probe that is a parameter.
--   Intf         wnr-dnet/src/intf.rs: entries, flags, source addresses; Intf/Unix and Intf/MacOs
--       are the entries of Linux and macOS, made from those of `getifaddrs`, Intf/Windows is the
--       list of Windows, made from the answers of `GetAdaptersAddresses`.
--   Table        the laws that the ARP cache and the routing table share.
--   Nsock        wnr-nsock/src/event.rs, wnr-nsock/src/iod.rs, wnr-nsock/src/pool.rs: the state;
--       Nsock/Start creates descriptors and events, Nsock/Close cancels and deletes, Nsock/Io is
--       `try_read` and `try_write`, Nsock/Loop is `drain_commands` and `run`, Nsock/Nap is the
--       sleep between its rounds, Nsock/Bounded is `connect_bounded`, Nsock/Descriptors what a
--       descriptor tells. Nsock/Operations performs a list of the operations; Nsock/Preserve is what a run keeps of any property that its single
--       moves keep, which Nsock/Once and Nsock/Kept use.
--   Cli          wnr/src/main.rs: `parse_ports`, and the arguments and the work of `cmd_scan`, over
--       the pool of Nsock, of `cmd_pcap` (Cli/Pcap), over a capture, and of `cmd_route`
--       (Cli/Routes); the choice of the command and `cmd_interfaces` (Cli/Interfaces).
--   Prelude      lists, bytes, texts, results, tests, and the iterator methods of the standard
--       library. A text is the list of its code points.
-- The other files hold the theorems of the part in whose folder they stand, and the tests.
--
-- How it is modelled. A `u32` is a native number with its wrap-around written out, an `i32` result
-- its bit pattern. `None`, an error and a `return 0` are values; `none` is also what a call gives
-- where the code panics on a buffer that is too short. `&mut self` is a state that is returned.
-- `BpfVm::run` takes fuel, one unit for a round: `run-Returns` shows how much is enough.
-- `next_packet` of a capture takes a unit for each packet that it skips, the loops one for each that
-- they read, and the bytes of the file, or the answers of the socket, and one are enough. The run
-- of a leading byte in a mask takes nine units, since eight shifts empty the byte. The loop of the
-- pool takes the list of the rounds that it meets, each with the commands that arrive, the time
-- and the answers of the sockets; the calls of handlers are a log, since a handler cannot reach
-- the pool. A `HashMap` is a list with one entry for a key, and its order of iteration that of the
-- list.
--
-- The loop of `windows_interfaces` takes fuel, of which two units are enough where the system keeps
-- asking for one size. `connect_bounded` takes the list of its attempts, and one for every ten
-- milliseconds up to the deadline is enough.
--
-- Not modelled: the layout of what wnr/src/main.rs prints, the derived and formatting traits, the
-- options that are set on a socket and whose results are ignored, and the threads, of which only
-- `connect_bounded` runs in one: its result arrives as a command. Parameters are the IPv6 text and
-- the UTF-8 and UTF-16 decoding of the standard library, the resolver of host names, the probe of a
-- route, the answers of the kernel, and the list of the interfaces. Sums and counters of fixed width
-- wrap, as in a release build. A file is there and has some bytes: the errors of the file
-- system are left out.
pub mod Prelude
pub mod Net
pub mod Addr
pub mod Eth
pub mod Table
pub mod Capture
pub mod Nsock
pub mod Arp
pub mod Cli
pub mod Intf
pub mod Raw
pub mod Route
pub mod Bpf
pub mod Datalink
pub mod Savefile
pub mod Sendqueue
