-- ===== src/Nsock.antt =====
-- wnr-nsock/src/event.rs, wnr-nsock/src/iod.rs and the state of wnr-nsock/src/pool.rs.
-- A handler is `FnMut(EventId, EventStatus)` and has no access to the pool: calling one is an entry
-- of `fired`. A `HashMap` is a list with one entry for a key; times are milliseconds of one clock.
pub mod Start
pub mod Close
pub mod Io
pub mod Loop
pub mod Once
pub mod Ends
pub mod Connects
pub mod Preserve
pub mod Operations
pub mod Descriptors
pub mod Kept
pub mod Bounded
pub mod Nap
mod Tests
use we_nmap_in_rust.Prelude.{
  ℕ, ◌+◌, ◌%◌, ◌^◌, List, [], ◌∷◌, Option, none, some, Bool, true, false, not, ◌==◌, if◌then◌else◌,
  length, map,
}
use we_nmap_in_rust.Prelude.Search.{find, filter_list}
use we_nmap_in_rust.Prelude.Text.{Text}
use we_nmap_in_rust.Net.{SocketAddr, Socket}

pub data EventType : Type 0 where
  connect : EventType
  read : EventType
  write : EventType
  timer : EventType

abbrev pub is_connect : EventType → Bool
is_connect connect = true
is_connect read = false
is_connect write = false
is_connect timer = false

abbrev pub is_read : EventType → Bool
is_read connect = false
is_read read = true
is_read write = false
is_read timer = false

pub data EventStatus : Type 0 where
  success : EventStatus
  error : EventStatus
  timeout : EventStatus
  cancelled : EventStatus
  kill : EventStatus
  eof : EventStatus

pub data LoopStatus : Type 0 where
  no_events : LoopStatus
  timed_out : LoopStatus
  failed : LoopStatus
  quit : LoopStatus

pub data IodKind : Type 0 where
  tcp : IodKind
  udp : IodKind

pub record Iod : Type 0 where
  pub id : ℕ
  pub tcp : Option Socket
  pub udp : Option Socket
  pub kind : IodKind
  pub peer : Option SocketAddr
  pub hostname : Option Text
  pub read_count : ℕ
  pub write_count : ℕ
  pub connected : Bool
  pub udata : ℕ

-- `Iod::new_tcp`.
abbrev pub new_tcp : Iod
new_tcp = record {
  id = 0;
  tcp = none;
  udp = none;
  kind = tcp;
  peer = none;
  hostname = none;
  read_count = 0;
  write_count = 0;
  connected = false;
  udata = 0;
}

abbrev has_peer : Option SocketAddr → Bool
has_peer none = false
has_peer (some peer) = true

-- `Iod::from_tcp_stream` and `Iod::from_udp_socket`.
abbrev pub from_tcp_stream : Socket → ℕ → Iod
from_tcp_stream stream id = record new_tcp {
  id = id;
  tcp = some stream;
  peer = stream.peer_addr;
  connected = has_peer stream.peer_addr;
}

abbrev pub from_udp_socket : Socket → ℕ → Iod
from_udp_socket sock id = record new_tcp { id = id; udp = some sock; kind = udp }

pub record Pending : Type 0 where
  pub id : ℕ
  pub iod : Option ℕ
  pub kind : EventType
  pub deadline : Option ℕ
  pub buf : List ℕ
  pub wbuf : Option (List ℕ)
  pub target : ℕ
  pub line_read : Bool
  pub cancelled : Bool
  pub done : Bool

pub data Cmd : Type 0 where
  connect_result : ℕ → Option Socket → Cmd
  quit_cmd : Cmd

pub record Pool : Type 0 where
  pub iod_counter : ℕ
  pub event_counter : ℕ
  pub iods : List Iod
  pub pending : List Pending
  pub read_bufs : List (ℕ × List ℕ)
  pub queue : List Cmd
  pub quit : Bool
  pub broadcast : Bool
  pub udata : ℕ
  pub fired : List (ℕ × EventStatus)

unfoldable pub new : ℕ → Pool
new udata = record {
  iod_counter = 0;
  event_counter = 0;
  iods = [];
  pending = [];
  read_bufs = [];
  queue = [];
  quit = false;
  broadcast = false;
  udata = udata;
  fired = [];
}

-- The maps of the pool: `get`, `insert`, `remove` and a change through `get_mut`.
abbrev pub find_event : ℕ → List Pending → Option Pending
find_event id xs = find (λ (e : Pending). e.id == id) xs

abbrev pub remove_event : ℕ → List Pending → List Pending
remove_event id xs = filter_list (λ (e : Pending). not (e.id == id)) xs

abbrev pub insert_event : Pending → List Pending → List Pending
insert_event e xs = e ∷ remove_event e.id xs

abbrev pub modify_event : ℕ → (Pending → Pending) → List Pending → List Pending
modify_event id f [] = []
modify_event id f (e ∷ xs) = (if e.id == id then f e else e) ∷ modify_event id f xs

abbrev pub find_iod : ℕ → List Iod → Option Iod
find_iod id xs = find (λ (i : Iod). i.id == id) xs

abbrev pub insert_iod : Iod → List Iod → List Iod
insert_iod iod xs = iod ∷ filter_list (λ (i : Iod). not (i.id == iod.id)) xs

abbrev pub modify_iod : ℕ → (Iod → Iod) → List Iod → List Iod
modify_iod id f [] = []
modify_iod id f (i ∷ xs) = (if i.id == id then f i else i) ∷ modify_iod id f xs

abbrev pub find_buf : ℕ → List (ℕ × List ℕ) → Option (ℕ × List ℕ)
find_buf id bufs = find (λ (b : ℕ × List ℕ). b.0 == id) bufs

abbrev pub remove_buf : ℕ → List (ℕ × List ℕ) → List (ℕ × List ℕ)
remove_buf id bufs = filter_list (λ (b : ℕ × List ℕ). not (b.0 == id)) bufs

-- `event_counter += 1` on a `u64`.
abbrev pub next_id : ℕ → ℕ
next_id n = (n + 1) % 2 ^ 64

-- The call of an event's handler.
abbrev pub fire : ℕ → EventStatus → Pool → Pool
fire id status p = record p { fired = (id, status) ∷ p.fired }

unfoldable pub has_pending : Pool → Bool
has_pending p = has_live p.pending
  where
    has_live : List Pending → Bool
    has_live [] = false
    has_live (e ∷ xs) = if not e.done then true else has_live xs

unfoldable pub pending_count : Pool → ℕ
pending_count p = length (filter_list (λ (e : Pending). not e.done) p.pending)

unfoldable pub take_read_buf : ℕ → Pool → List ℕ × Pool
take_read_buf id p = take_buf (find_buf id p.read_bufs) (find_event id p.pending)
  where
    take_buf : Option (ℕ × List ℕ) → Option Pending → List ℕ × Pool
    take_buf (some b) e = (b.1, record p { read_bufs = remove_buf id p.read_bufs })
    take_buf none (some e) = (e.buf, p)
    take_buf none none = ([], p)

unfoldable pub set_udata : ℕ → Pool → Pool
set_udata udata p = record p { udata = udata }

unfoldable pub set_broadcast : Bool → Pool → Pool
set_broadcast on p = record p { broadcast = on }
