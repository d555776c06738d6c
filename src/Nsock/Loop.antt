-- ===== src/Nsock/Loop.antt =====
-- The event loop of wnr-nsock/src/pool.rs: `drain_commands` and `run`.
use we_nmap_in_rust.Prelude.{
  ℕ, List, [], ◌∷◌, ◌++◌, Option, none, some, Bool, true, false, not, ◌&&◌, ◌||◌, leb, ◌==◌,
  if◌then◌else◌, map,
}
use we_nmap_in_rust.Prelude.Search.{find, filter_list}
use we_nmap_in_rust.Net.{Socket}
use we_nmap_in_rust.Nsock.{
  EventType, connect, read, write, timer, is_connect, is_read, EventStatus, success, error, timeout,
  LoopStatus, no_events, timed_out, Iod, tcp, Pending, Pool, Cmd, connect_result, quit_cmd,
  find_event, remove_event, modify_iod, remove_buf, fire, has_pending,
}
use we_nmap_in_rust.Nsock.Io.{Answers, try_read, try_write}

abbrev pub on_iod : ℕ → Option ℕ → Bool
on_iod id none = false
on_iod id (some iod) = iod == id

-- The connect event that a result completes: the first one for its descriptor in the map's order.
abbrev pub connect_target : ℕ → List Pending → Option Pending
connect_target iod_id xs =
    find (λ (e : Pending). on_iod iod_id e.iod)
      (filter_list (λ (e : Pending). is_connect e.kind && not e.done) xs)

abbrev pub attach : ℕ → Option Socket → Pool → Pool
attach iod_id none p = p
attach iod_id (some stream) p = record p {
  iods =
      modify_iod iod_id
        (λ (iod : Iod). record iod {
          tcp = some stream;
          kind = tcp;
          peer = stream.peer_addr;
          connected = true;
        })
        p.iods;
}

abbrev pub connect_status : Option Socket → EventStatus
connect_status none = error
connect_status (some stream) = success

-- The entry found is removed from the map, and its handler runs unless it was cancelled.
abbrev pub finish_connect : EventStatus → Pending → Pool → Pool
finish_connect status e p =
    let removed = record p { pending = remove_event e.id p.pending } in
    if e.cancelled then removed else fire e.id status removed

abbrev pub connected : ℕ → Option Socket → Option Pending → Pool → Pool
connected iod_id res none p = p
connected iod_id res (some e) p = finish_connect (connect_status res) e (attach iod_id res p)

unfoldable pub drain_commands : List Cmd → Pool → Pool
drain_commands [] p = p
drain_commands (connect_result iod_id res ∷ cmds) p =
    drain_commands cmds (connected iod_id res (connect_target iod_id p.pending) p)
drain_commands (quit_cmd ∷ cmds) p = drain_commands cmds (record p { quit = true })

abbrev pub is_due : ℕ → Option ℕ → Bool
is_due now none = false
is_due now (some d) = leb d now

abbrev pub due_status : EventType → EventStatus
due_status timer = success
due_status connect = timeout
due_status read = timeout
due_status write = timeout

-- The first loop of a round: the deadlines that have passed.
unfoldable pub due_events : ℕ → List Pending → List (ℕ × EventStatus)
due_events now [] = []
due_events now (e ∷ xs) =
    if not e.done && is_due now e.deadline
    then (e.id, due_status e.kind) ∷ due_events now xs
    else due_events now xs

abbrev pub mentions : ℕ → List (ℕ × EventStatus) → Bool
mentions id [] = false
mentions id (d ∷ ds) = if d.0 == id then true else mentions id ds

unfoldable pub try_kind : EventType → Answers → ℕ → Pool → Option EventStatus × Pool
unfolding try_read try_write
try_kind connect io id p = (none, p)
try_kind read io id p = try_read io id p
try_kind write io id p = try_write io id p
try_kind timer io id p = (none, p)

unfoldable pub try_found : Option Pending → Answers → ℕ → Pool → Option EventStatus × Pool
unfolding try_kind
try_found none io id p = (none, p)
try_found (some e) io id p = try_kind e.kind io id p

abbrev pub appended : List (ℕ × EventStatus) → ℕ → Option EventStatus → List (ℕ × EventStatus)
appended ds id none = ds
appended ds id (some status) = ds ++ ((id, status) ∷ [])

-- The second loop: input and output on the events that are not yet resolved.
unfoldable pub try_events :
    Answers → List ℕ → List (ℕ × EventStatus) → Pool → List (ℕ × EventStatus) × Pool
unfolding try_found
try_events io [] ds p = (ds, p)
try_events io (id ∷ ids) ds p =
    let (status, tried) = try_found (find_event id p.pending) io id p in
    let skipped = try_events io ids ds p in
    let rest = try_events io ids (appended ds id status) tried in
    if mentions id ds then skipped else rest

-- One delivery; an event that is done or cancelled stays as it is.
abbrev pub deliver_found : ℕ → EventStatus → Option Pending → Pool → Pool
deliver_found id status none p = record p { pending = remove_event id p.pending }
deliver_found id status (some e) p =
    let kept =
      if is_read e.kind
      then record p { read_bufs = (id, e.buf) ∷ remove_buf id p.read_bufs }
      else p in
    if e.done || e.cancelled
    then p
    else fire id status (record kept { pending = remove_event id p.pending })

unfoldable pub deliver : List (ℕ × EventStatus) → Pool → Pool
deliver [] p = p
deliver ((id, status) ∷ ds) p = deliver ds (deliver_found id status (find_event id p.pending) p)

-- What a round of the loop meets: the commands that have arrived, the time, the sockets' answers,
-- and the time since the start that the test of the limit reads.
pub record Round : Type 0 where
  pub arrived : List Cmd
  pub now : ℕ
  pub answers : Answers
  pub elapsed : ℕ

abbrev pub live_ids : Pool → List ℕ
live_ids p = map (λ (e : Pending). e.id) (filter_list (λ (e : Pending). not e.done) p.pending)

-- The two loops of a round that collect what to deliver, after the commands.
unfoldable pub collect : Round → Pool → List (ℕ × EventStatus) × Pool
unfolding due_events try_events
collect r p = try_events r.answers (live_ids p) (due_events r.now p.pending) p

unfoldable pub drain : Round → Pool → Pool
unfolding drain_commands
drain r p = drain_commands (p.queue ++ r.arrived) (record p { queue = [] })

-- A round up to the tests at its end.
unfoldable pub round : Round → Pool → Pool
unfolding drain collect deliver
round r p = let (ds, tried) = collect r (drain r p) in deliver ds tried

abbrev pub past_limit : Option ℕ → ℕ → Bool
past_limit none elapsed = false
past_limit (some m) elapsed = leb m elapsed

-- The loop, over the rounds to come; `none` if they are used up before it returns.
unfoldable pub rounds : Option ℕ → List Round → Pool → Option LoopStatus × Pool
unfolding round has_pending
rounds limit [] p = (none, p)
rounds limit (r ∷ rs) p =
    let after = round r p in
    let next = rounds limit rs after in
    if not (has_pending after)
    then (some no_events, after)
    else if after.quit
    then (some LoopStatus.quit, record after { quit = false })
    else if past_limit limit r.elapsed
    then (some timed_out, after)
    else next

unfoldable pub run : Option ℕ → List Round → Pool → Option LoopStatus × Pool
unfolding rounds
run limit rs p = rounds limit rs (record p { quit = false })
