-- ===== src/Raw/Stub.antt =====
-- The backend of wnr-pcap/src/raw.rs for the systems that have none: it cannot be opened.
use we_nmap_in_rust.Prelude.{ℕ, List, Option, none, Bool}
use we_nmap_in_rust.Prelude.Result.{Result, ok, err}
use we_nmap_in_rust.Prelude.Text.{Text}
use we_nmap_in_rust.Savefile.{PcapPacket}
use we_nmap_in_rust.Raw.{IoError, unsupported, Direction}

pub data StubCapture : Type 0 where
  stub : StubCapture

unfoldable pub open_stub : Text → ℕ → Bool → Result IoError StubCapture
open_stub device snaplen promisc = err unsupported

unfoldable pub next_packet : StubCapture → Result IoError (Option PcapPacket)
next_packet r = ok none

unfoldable pub set_direction : Direction → StubCapture → StubCapture
set_direction dir r = r

unfoldable pub set_nonblock : Bool → StubCapture → Result IoError (Unit {0})
set_nonblock nb r = ok tt

unfoldable pub poll_stats : StubCapture → Result IoError (ℕ × ℕ)
poll_stats r = ok (0, 0)

unfoldable pub send_frame : List ℕ → StubCapture → Result IoError ℕ
send_frame payload r = err unsupported
