-- ===== src/Nsock/Descriptors.antt =====
-- What wnr-nsock/src/iod.rs tells of a descriptor. The calls on its socket are parameters.
use we_nmap_in_rust.Prelude.{ℕ, List, Option, none, some, Bool, true, ◌&&◌, ◌>>=◌}
use we_nmap_in_rust.Net.{SocketAddr, Socket}
use we_nmap_in_rust.Nsock.{Iod, Pool, find_iod}

-- `Pool::iod`.
unfoldable pub iod : ℕ → Pool → Option Iod
iod id p = find_iod id p.iods

-- The socket that `fd` and `local_addr` ask: the stream, if there is one.
abbrev pub socket_of : Option Socket → Option Socket → Option Socket
socket_of (some t) u = some t
socket_of none u = u

-- `fd`; `none` stands for -1.
unfoldable pub fd : Iod → Option ℕ
fd i = socket_of i.tcp i.udp >>= λ (s : Socket). some s.handle

unfoldable pub local_addr : (Socket → Option SocketAddr) → Iod → Option SocketAddr
local_addr bound i = socket_of i.tcp i.udp >>= bound

unfoldable pub remote_ip : Iod → Option (List ℕ)
remote_ip i = i.peer >>= λ (a : SocketAddr). some a.host

abbrev pub timeouts : (Socket → Bool) → (Socket → Bool) → Option Socket → Bool
timeouts set_read set_write none = true
timeouts set_read set_write (some s) = set_read s && set_write s

-- `set_timeout`: whether every call on the sockets that are there succeeds.
unfoldable pub set_timeout : (Socket → Bool) → (Socket → Bool) → Iod → Bool
set_timeout set_read set_write i =
    timeouts set_read set_write i.tcp && timeouts set_read set_write i.udp
