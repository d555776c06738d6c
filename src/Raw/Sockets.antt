-- ===== src/Raw/Sockets.antt =====
-- Opening a packet socket.
use we_nmap_in_rust.Prelude.{ℕ, ◌≡◌, Bool, true, false, ◌||◌, ◌&&◌, arith}
use we_nmap_in_rust.Prelude.Result.{Result, ok, err}
use we_nmap_in_rust.Prelude.Text.{Text, contains}
use we_nmap_in_rust.Raw.{IoError, RawCapture, Opening, open_socket}

abbrev pub is_ok : Result IoError RawCapture → Bool
is_ok (ok r) = true
is_ok (err e) = false

-- Where `open` leaves a socket open: exactly if it succeeds, or the name has a NUL and the socket was
-- made, which is then not closed.
pub open_socket_lem :
    (o : Opening) (device : Text) (snaplen : ℕ)
    → (open_socket o device snaplen).1
      ≡ (is_ok (open_socket o device snaplen).0 || (o.has_socket && contains 0 device))
unfolding open_socket
open_socket_lem o device snaplen = ground arith
