-- ===== src/Nsock/Start.antt =====
-- The operations of wnr-nsock/src/pool.rs that create descriptors and events.
use we_nmap_in_rust.Prelude.{
  ℕ, ◌+◌, ◌*◌, List, [], Option, none, some, Bool, true, false, length, max,
}
use we_nmap_in_rust.Prelude.Text.{Text}
use we_nmap_in_rust.Net.{SocketAddr, Socket}
use we_nmap_in_rust.Nsock.{
  EventType, connect, read, write, timer, Iod, udp, new_tcp, from_tcp_stream, from_udp_socket, Pool,
  next_id, insert_event, insert_iod, modify_iod,
}

unfoldable pub create_iod_tcp : Pool → ℕ × Pool
create_iod_tcp p =
    let id = next_id p.iod_counter in
    (id, record p { iod_counter = id; iods = insert_iod (record new_tcp { id = id }) p.iods })

-- `UdpSocket::bind` gives a socket or fails: the descriptor is then a half-backed one.
unfoldable pub create_iod_udp : Option Socket → Pool → ℕ × Pool
create_iod_udp socket p =
    let id = next_id p.iod_counter in
    (
      id,
      record p {
        iod_counter = id;
        iods = insert_iod (record new_tcp { id = id; udp = socket; kind = udp }) p.iods;
      },
    )

unfoldable pub create_iod_tcp_from : Socket → Pool → ℕ × Pool
create_iod_tcp_from stream p =
    let id = next_id p.iod_counter in
    (id, record p { iod_counter = id; iods = insert_iod (from_tcp_stream stream id) p.iods })

unfoldable pub create_iod_udp_from : Socket → Pool → ℕ × Pool
create_iod_udp_from sock p =
    let id = next_id p.iod_counter in
    (id, record p { iod_counter = id; iods = insert_iod (from_udp_socket sock id) p.iods })

-- An event with the next number, that is neither done nor cancelled.
abbrev pub start : Option ℕ → EventType → Option ℕ → Option (List ℕ) → ℕ → Bool → Pool → ℕ × Pool
start iod kind deadline wbuf target line_read p =
    let id = next_id p.event_counter in
    (
      id,
      record p {
        event_counter = id;
        pending =
            insert_event
              (record {
                id = id;
                iod = iod;
                kind = kind;
                deadline = deadline;
                buf = [];
                wbuf = wbuf;
                target = target;
                line_read = line_read;
                cancelled = false;
                done = false;
              })
              p.pending;
      },
    )

-- A timeout in milliseconds, `none` for a negative `i32`.
abbrev pub deadline_of : ℕ → Option ℕ → Option ℕ
deadline_of now none = none
deadline_of now (some ms) = some (now + ms)

-- A connect without a timeout has one of an hour.
abbrev pub or_hour : Option ℕ → ℕ
or_hour none = 3600 * 1000
or_hour (some ms) = ms

-- `connect_tcp`; its thread sends the result as a command later.
unfoldable pub connect_tcp : ℕ → ℕ → Option ℕ → Pool → ℕ × Pool
connect_tcp now iod_id timeout p =
    start (some iod_id) connect (some (now + or_hour timeout)) none 0 false p

unfoldable pub connect_udp : ℕ → SocketAddr → Pool → Pool
connect_udp iod_id addr p = record p {
  iods =
      modify_iod iod_id
        (λ (iod : Iod). record iod { peer = some addr; connected = true; kind = udp }) p.iods;
}

unfoldable pub read_event : ℕ → ℕ → Option ℕ → Pool → ℕ × Pool
read_event now iod_id timeout p = start (some iod_id) read (deadline_of now timeout) none 1 false p

unfoldable pub read_bytes : ℕ → ℕ → Option ℕ → ℕ → Pool → ℕ × Pool
read_bytes now iod_id timeout nbytes p =
    start (some iod_id) read (deadline_of now timeout) none (max nbytes 1) false p

unfoldable pub readlines : ℕ → ℕ → Option ℕ → ℕ → Pool → ℕ × Pool
readlines now iod_id timeout maxline p =
    start (some iod_id) read (deadline_of now timeout) none (max maxline 1) true p

unfoldable pub write_event : ℕ → ℕ → List ℕ → Option ℕ → Pool → ℕ × Pool
write_event now iod_id data_bytes timeout p =
    start (some iod_id) write (deadline_of now timeout) (some data_bytes) (length data_bytes) false
      p

-- `write_fmt` of what `format!` makes, and `printf` of a text: a write of its bytes.
unfoldable pub write_fmt : ℕ → ℕ → Text → Option ℕ → Pool → ℕ × Pool
unfolding write_event
write_fmt now iod_id formatted timeout p = write_event now iod_id formatted timeout p

unfoldable pub printf : ℕ → ℕ → Text → Option ℕ → Pool → ℕ × Pool
unfolding write_event
printf now iod_id text timeout p = write_event now iod_id text timeout p

unfoldable pub send_udp : ℕ → ℕ → SocketAddr → List ℕ → Option ℕ → Pool → ℕ × Pool
unfolding connect_udp write_event
send_udp now iod_id addr data_bytes timeout p =
    write_event now iod_id data_bytes timeout (connect_udp iod_id addr p)

unfoldable pub timer_create : ℕ → ℕ → Pool → ℕ × Pool
timer_create now timeout p = start none timer (some (now + timeout)) none 0 false p
