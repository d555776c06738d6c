-- ===== src/Nsock/Io.antt =====
-- `try_read` and `try_write` of wnr-nsock/src/pool.rs. What a socket answers is an argument.
use we_nmap_in_rust.Prelude.{
  ℕ, ◌+◌, ◌%◌, ◌^◌, List, [], ◌∷◌, ◌++◌, Option, none, some, ◌>>=◌, Bool, true, false, ◌||◌, leb,
  ◌==◌, if◌then◌else◌, length, drop,
}
use we_nmap_in_rust.Net.{Socket}
use we_nmap_in_rust.Nsock.{
  Iod, IodKind, tcp, udp, Pending, Pool, EventStatus, success, error, eof, find_event, modify_event,
  find_iod, modify_iod,
}

-- `Ok` with what was transferred, `Err` of kind `WouldBlock`, another `Err`.
pub data IoResult (A : Type 0) : Type 0 where
  ok : A → IoResult A
  would_block : IoResult A
  failed : IoResult A

-- The bytes that `read` or `recv` gives, and how many bytes `write` or `send` takes.
pub record Answers : Type 0 where
  pub read : ℕ → IoResult (List ℕ)
  pub write : ℕ → List ℕ → IoResult ℕ

abbrev contains : ℕ → List ℕ → Bool
contains b [] = false
contains b (x ∷ xs) = if x == b then true else contains b xs

abbrev pub count_read : ℕ → ℕ → Pool → Pool
count_read iod_id n p = record p {
  iods =
      modify_iod iod_id (λ (iod : Iod). record iod { read_count = (iod.read_count + n) % 2 ^ 64 })
        p.iods;
}

abbrev pub count_write : ℕ → ℕ → Pool → Pool
count_write iod_id n p = record p {
  iods =
      modify_iod iod_id (λ (iod : Iod). record iod { write_count = (iod.write_count + n) % 2 ^ 64 })
        p.iods;
}

-- A line read is complete at a newline or at the longest line, another one at its target.
abbrev pub complete : Pending → List ℕ → Bool
complete e buf =
    if e.line_read then contains 10 buf || leb e.target (length buf) else leb e.target (length buf)

abbrev pub tcp_read : ℕ → Pending → ℕ → IoResult (List ℕ) → Pool → Option EventStatus × Pool
tcp_read id e iod_id (ok []) p = (some eof, p)
tcp_read id e iod_id (ok (b ∷ bytes)) p =
    let buf = e.buf ++ (b ∷ bytes) in
    (
      if complete e buf then some success else none,
      count_read iod_id (length (b ∷ bytes)) (record p {
        pending = modify_event id (λ (e : Pending). record e { buf = buf }) p.pending;
      }),
    )
tcp_read id e iod_id would_block p = (none, p)
tcp_read id e iod_id failed p = (some error, p)

abbrev pub udp_read : ℕ → ℕ → IoResult (List ℕ) → Pool → Option EventStatus × Pool
udp_read id iod_id (ok bytes) p = (
  some success,
  count_read iod_id (length bytes) (record p {
    pending = modify_event id (λ (e : Pending). record e { buf = bytes }) p.pending;
  }),
)
udp_read id iod_id would_block p = (none, p)
udp_read id iod_id failed p = (some error, p)

abbrev pub read_kind : IodKind → ℕ → Pending → ℕ → Iod → Answers → Pool → Option EventStatus × Pool
read_kind tcp id e iod_id iod io p = on_socket iod.tcp
  where
    on_socket : Option Socket → Option EventStatus × Pool
    on_socket none = (none, p)
    on_socket (some stream) = tcp_read id e iod_id (io.read stream.handle) p
read_kind udp id e iod_id iod io p = on_socket iod.udp
  where
    on_socket : Option Socket → Option EventStatus × Pool
    on_socket none = (none, p)
    on_socket (some sock) = udp_read id iod_id (io.read sock.handle) p

-- The event and its descriptor, if both are there.
abbrev pub event_iod : ℕ → Pool → Option (Pending × ℕ × Iod)
event_iod id p = find_event id p.pending >>= λ (e : Pending).
    e.iod >>= λ iod_id. find_iod iod_id p.iods >>= λ iod. some (e, iod_id, iod)

unfoldable pub try_read : Answers → ℕ → Pool → Option EventStatus × Pool
try_read io id p = with_iod (event_iod id p)
  where
    with_iod : Option (Pending × ℕ × Iod) → Option EventStatus × Pool
    with_iod none = (none, p)
    with_iod (some (e, iod_id, iod)) = read_kind iod.kind id e iod_id iod io p

-- What is left to write after `n` bytes.
abbrev pub rest_of : List ℕ → Option (List ℕ)
rest_of [] = none
rest_of (b ∷ rest) = some (b ∷ rest)

abbrev finished : Option (List ℕ) → Option EventStatus
finished none = some success
finished (some rest) = none

abbrev pub tcp_write : ℕ → ℕ → List ℕ → IoResult ℕ → Pool → Option EventStatus × Pool
tcp_write id iod_id bytes (ok n) p =
    let rest = rest_of (drop n bytes) in
    if n == 0 then (some eof, p) else (
      finished rest,
      count_write iod_id n (record p {
        pending = modify_event id (λ (e : Pending). record e { wbuf = rest }) p.pending;
      }),
    )
tcp_write id iod_id bytes would_block p = (none, p)
tcp_write id iod_id bytes failed p = (some error, p)

abbrev pub udp_write : ℕ → ℕ → List ℕ → IoResult ℕ → Pool → Option EventStatus × Pool
udp_write id iod_id bytes (ok n) p = (
  some success,
  count_write iod_id (length bytes) (record p {
    pending = modify_event id (λ (e : Pending). record e { wbuf = none }) p.pending;
  }),
)
udp_write id iod_id bytes would_block p = (none, p)
udp_write id iod_id bytes failed p = (some error, p)

abbrev pub write_kind : IodKind → ℕ → ℕ → Iod → List ℕ → Answers → Pool → Option EventStatus × Pool
write_kind tcp id iod_id iod bytes io p = on_socket iod.tcp
  where
    on_socket : Option Socket → Option EventStatus × Pool
    on_socket none = (none, p)
    on_socket (some stream) = tcp_write id iod_id bytes (io.write stream.handle bytes) p
write_kind udp id iod_id iod bytes io p = on_socket iod.udp
  where
    on_socket : Option Socket → Option EventStatus × Pool
    on_socket none = (none, p)
    on_socket (some sock) = udp_write id iod_id bytes (io.write sock.handle bytes) p

unfoldable pub try_write : Answers → ℕ → Pool → Option EventStatus × Pool
try_write io id p = with_iod (event_iod id p)
  where
    with_bytes : ℕ → Iod → Option (List ℕ) → Option EventStatus × Pool
    with_bytes iod_id iod none = (none, p)
    with_bytes iod_id iod (some bytes) = write_kind iod.kind id iod_id iod bytes io p

    with_iod : Option (Pending × ℕ × Iod) → Option EventStatus × Pool
    with_iod none = (none, p)
    with_iod (some (e, iod_id, iod)) = with_bytes iod_id iod e.wbuf
