-- ===== src/Nsock/Close.antt =====
-- The operations of wnr-nsock/src/pool.rs that end events and descriptors.
use we_nmap_in_rust.Prelude.{
  ℕ, List, [], ◌∷◌, ◌++◌, Option, none, some, Bool, true, false, not, ◌&&◌, ◌==◌, if◌then◌else◌,
  map,
}
use we_nmap_in_rust.Prelude.Search.{filter_list}
use we_nmap_in_rust.Nsock.{
  Iod, Pending, Pool, EventStatus, kill, find_event, remove_event, modify_event, find_iod,
  remove_buf, fire, quit_cmd,
}

-- `cancel`: whether there was such an event, and the pool.
unfoldable pub cancel : ℕ → Bool → Pool → Bool × Pool
cancel id notify p = cancel_found (find_event id p.pending)
  where
    marked : Pool
    marked = record p {
      pending =
          modify_event id (λ (e : Pending). record e { cancelled = true; done = true }) p.pending;
    }

    cancel_found : Option Pending → Bool × Pool
    cancel_found none = (false, p)
    cancel_found (some e) =
        (true, if notify && not e.done then fire id EventStatus.cancelled marked else marked)

-- The handler of an event that is killed, if it has not run.
abbrev pub kill_found : ℕ → Option Pending → Pool → Pool
kill_found id none p = p
kill_found id (some e) p = if not e.done && not e.cancelled then fire id kill p else p

-- One round of the loops of `delete_iod` and `delete`: the event is killed and removed.
abbrev pub kill_event : ℕ → Pool → Pool
kill_event id p =
    let killed = kill_found id (find_event id p.pending) p in
    record killed {
      read_bufs = remove_buf id killed.read_bufs;
      pending = remove_event id killed.pending;
    }

abbrev pub kill_events : List ℕ → Pool → Pool
kill_events [] p = p
kill_events (id ∷ ids) p = kill_events ids (kill_event id p)

abbrev pub on_iod : ℕ → Option ℕ → Bool
on_iod id none = false
on_iod id (some iod) = iod == id

abbrev pub found : Option Iod → Bool
found none = false
found (some i) = true

abbrev pub events_of : ℕ → Pool → List ℕ
events_of id p =
    map (λ (e : Pending). e.id) (filter_list (λ (e : Pending). on_iod id e.iod) p.pending)

-- `delete_iod`: whether there was such a descriptor, and the pool.
unfoldable pub delete_iod : ℕ → Pool → Bool × Pool
delete_iod id p =
    let killed = kill_events (events_of id p) p in
    (
      found (find_iod id killed.iods),
      record killed { iods = filter_list (λ (i : Iod). not (i.id == id)) killed.iods },
    )

unfoldable pub delete_iods : List ℕ → Pool → Pool
unfolding delete_iod
delete_iods [] p = p
delete_iods (id ∷ ids) p = delete_iods ids (delete_iod id p).1

abbrev pub iod_ids : Pool → List ℕ
iod_ids p = map (λ (i : Iod). i.id) p.iods

abbrev pub event_ids : Pool → List ℕ
event_ids p = map (λ (e : Pending). e.id) p.pending

-- `delete`.
unfoldable pub delete : Pool → Pool
unfolding delete_iods
delete p =
    let closed = delete_iods (iod_ids p) p in
    let killed = kill_events (event_ids closed) closed in record killed { quit = true }

unfoldable pub loop_quit : Pool → Pool
loop_quit p = record p { quit = true; queue = p.queue ++ (quit_cmd ∷ []) }
