-- ===== src/Nsock/Operations.antt =====
-- The operations of a client of wnr-nsock/src/pool.rs, and their runs one after the other.
use we_nmap_in_rust.Prelude.{ℕ, List, [], ◌∷◌, Option, Bool}
use we_nmap_in_rust.Net.{SocketAddr, Socket}
use we_nmap_in_rust.Nsock.{Pool, take_read_buf, set_udata, set_broadcast}
use we_nmap_in_rust.Nsock.Start.{
  create_iod_tcp, create_iod_udp, create_iod_tcp_from, create_iod_udp_from, connect_tcp,
  connect_udp, read_event, read_bytes, readlines, write_event, send_udp, timer_create,
}
use we_nmap_in_rust.Nsock.Close.{cancel, delete_iod, delete, loop_quit}
use we_nmap_in_rust.Nsock.Loop.{Round, run}

-- The operations of a client, with what they read of the clock and of the system.
pub data Op : Type 0 where
  op_create_iod_tcp : Op
  op_create_iod_udp : Option Socket → Op
  op_create_iod_tcp_from : Socket → Op
  op_create_iod_udp_from : Socket → Op
  op_connect_tcp : ℕ → ℕ → Option ℕ → Op
  op_connect_udp : ℕ → SocketAddr → Op
  op_read : ℕ → ℕ → Option ℕ → Op
  op_read_bytes : ℕ → ℕ → Option ℕ → ℕ → Op
  op_readlines : ℕ → ℕ → Option ℕ → ℕ → Op
  op_write : ℕ → ℕ → List ℕ → Option ℕ → Op
  op_send_udp : ℕ → ℕ → SocketAddr → List ℕ → Option ℕ → Op
  op_timer_create : ℕ → ℕ → Op
  op_cancel : ℕ → Bool → Op
  op_delete_iod : ℕ → Op
  op_delete : Op
  op_loop_quit : Op
  op_take_read_buf : ℕ → Op
  op_set_udata : ℕ → Op
  op_set_broadcast : Bool → Op
  op_run : Option ℕ → List Round → Op

unfoldable pub perform : Op → Pool → Pool
unfolding create_iod_tcp create_iod_udp create_iod_tcp_from create_iod_udp_from connect_tcp
    connect_udp read_event read_bytes readlines write_event send_udp timer_create cancel delete_iod
    delete loop_quit take_read_buf set_udata set_broadcast run
perform op_create_iod_tcp p = (create_iod_tcp p).1
perform (op_create_iod_udp socket) p = (create_iod_udp socket p).1
perform (op_create_iod_tcp_from stream) p = (create_iod_tcp_from stream p).1
perform (op_create_iod_udp_from sock) p = (create_iod_udp_from sock p).1
perform (op_connect_tcp now iod limit) p = (connect_tcp now iod limit p).1
perform (op_connect_udp iod addr) p = connect_udp iod addr p
perform (op_read now iod limit) p = (read_event now iod limit p).1
perform (op_read_bytes now iod limit n) p = (read_bytes now iod limit n p).1
perform (op_readlines now iod limit n) p = (readlines now iod limit n p).1
perform (op_write now iod bytes limit) p = (write_event now iod bytes limit p).1
perform (op_send_udp now iod addr bytes limit) p = (send_udp now iod addr bytes limit p).1
perform (op_timer_create now limit) p = (timer_create now limit p).1
perform (op_cancel id notify) p = (cancel id notify p).1
perform (op_delete_iod id) p = (delete_iod id p).1
perform op_delete p = delete p
perform op_loop_quit p = loop_quit p
perform (op_take_read_buf id) p = (take_read_buf id p).1
perform (op_set_udata udata) p = set_udata udata p
perform (op_set_broadcast on) p = set_broadcast on p
perform (op_run limit rounds) p = (run limit rounds p).1

unfoldable pub perform_all : List Op → Pool → Pool
unfolding perform
perform_all [] p = p
perform_all (op ∷ ops) p = perform_all ops (perform op p)
