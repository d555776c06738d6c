-- ===== src/Nsock/Once/Operations.antt =====
-- The invariant of Nsock/Once over the operations of the pool.
use we_nmap_in_rust.Prelude.{
  ℕ, ◌+◌, ◌^◌, ◌≤◌, ◌<◌, ◌≡◌, refl, sym, List, [], ◌∷◌, Option, some, Bool, true, false, not, ◌&&◌,
  ◌==◌, ==_iff, length, arith, if_cases, Option-cases, inl, inr,
}
use we_nmap_in_rust.Nsock.{
  EventType, EventStatus, kill, Pending, Pool, new, find_event, remove_event, modify_event,
  take_read_buf, find_buf, set_udata, set_broadcast,
}
use we_nmap_in_rust.Nsock.Start.{
  start, create_iod_tcp, create_iod_udp, create_iod_tcp_from, create_iod_udp_from, connect_tcp,
  connect_udp, read_event, read_bytes, readlines, write_event, send_udp, timer_create,
}
use we_nmap_in_rust.Nsock.Close.{
  cancel, kill_found, events_of, iod_ids, event_ids, kill_event, kill_events, delete_iod,
  delete_iods, delete, loop_quit,
}
use we_nmap_in_rust.Nsock.Loop.{run}
use we_nmap_in_rust.Nsock.Operations.{
  Op, perform, perform_all, op_create_iod_tcp, op_create_iod_udp, op_create_iod_tcp_from,
  op_create_iod_udp_from, op_connect_tcp, op_connect_udp, op_read, op_read_bytes, op_readlines,
  op_write, op_send_udp, op_timer_create, op_cancel, op_delete_iod, op_delete, op_loop_quit,
  op_take_read_buf, op_set_udata, op_set_broadcast, op_run,
}
use we_nmap_in_rust.Nsock.Once.{
  Waiting, IsPool, FiredOnce, All-find, modify-Waiting, mark-Waiting, Once-fire, Once-insert,
}
use we_nmap_in_rust.Nsock.Preserve.Runs.{run-keeps}
use we_nmap_in_rust.Nsock.Once.Steps.{Held, Held-pending, Held-remove, Held-fire, Held-Keeps}

module _ (counter : ℕ) where
  pub cancel-Held :
      (id : ℕ) (notify : Bool) (p : Pool) → Held counter p → Held counter (cancel id notify p).1
  unfolding cancel
  cancel-Held id notify p h = elim (Option-cases (find_event id p.pending)) [
    | inl gone ↦ rw gone h
    | inr (e, is) ↦
        rw is (if_cases (Held counter) (notify && not e.done) (fired e is) (λ _. marked))
  ]
    where
      mark : Pending → Pending
      mark e = record e { cancelled = true; done = true }

      marked : Held counter (record p { pending = modify_event id mark p.pending })
      marked = Held-pending counter p (modify_event id mark p.pending) h (
          modify-Waiting counter p.fired id mark
            (λ e w. (w.0, λ (live : true ≡ false). absurd (ground (arith, live)))) p.pending
            h.1.waiting)

      not_done : (a b : Bool) → (a && not b) ≡ true → b ≡ false
      not_done true false e = refl
      not_done true true e = absurd (ground (arith, e))
      not_done false b e = absurd (ground (arith, e))

      fired :
          (e : Pending)
          → find_event id p.pending ≡ some e
          → (notify && not e.done) ≡ true
          → Held counter (record p {
            pending = modify_event id mark p.pending;
            fired = (id, EventStatus.cancelled) ∷ p.fired;
          })
      fired e is t =
          let target =
            All-find (Waiting counter p.fired) (λ (e : Pending). e.id == id) p.pending e h.1.waiting
              is in
          let same : e.id ≡ id = (==_iff e.id id).0 target.1 in
          (
            h.0,
            rw same at (
                Once-fire counter p.pending (modify_event e.id mark p.pending) p.fired e
                  EventStatus.cancelled h.1 target.0 (not_done notify e.done t)
                  (mark-Waiting counter p.fired e.id EventStatus.cancelled p.pending h.1.waiting)),
          )

  kill_event-Held : (id : ℕ) (p : Pool) → Held counter p → Held counter (kill_event id p)
  kill_event-Held id p h = elim (Option-cases (find_event id p.pending)) [
    | inl gone ↦ rw gone (Held-remove counter p id h)
    | inr (e, is) ↦ rw is (killed e is)
  ]
    where
      removed : Pool → Pool
      removed q = record q { pending = remove_event id q.pending }

      not_done : (a b : Bool) → (not a && not b) ≡ true → a ≡ false
      not_done false b e = refl
      not_done true b e = absurd (ground (arith, e))

      killed :
          (e : Pending)
          → find_event id p.pending ≡ some e
          → Held counter (removed (kill_found id (some e) p))
      killed e is =
          if_cases (λ q. Held counter (removed q)) (not e.done && not e.cancelled)
            (λ t.
              let target =
                All-find (Waiting counter p.fired) (λ (e : Pending). e.id == id) p.pending e
                  h.1.waiting is in
              let same : e.id ≡ id = (==_iff e.id id).0 target.1 in
              rw same at (Held-fire counter p e kill h target.0 (not_done e.done e.cancelled t)))
            (λ _. Held-remove counter p id h)

  kill_events-Held : (ids : List ℕ) (p : Pool) → Held counter p → Held counter (kill_events ids p)
  kill_events-Held [] p h = h
  kill_events-Held (id ∷ ids) p h = kill_events-Held ids (kill_event id p) (kill_event-Held id p h)

  pub delete_iod-Held : (id : ℕ) (p : Pool) → Held counter p → Held counter (delete_iod id p).1
  unfolding delete_iod
  delete_iod-Held id p h = kill_events-Held (events_of id p) p h

  delete_iods-Held : (ids : List ℕ) (p : Pool) → Held counter p → Held counter (delete_iods ids p)
  unfolding delete_iods
  delete_iods-Held [] p h = h
  delete_iods-Held (id ∷ ids) p h =
      delete_iods-Held ids (delete_iod id p).1 (delete_iod-Held id p h)

  pub delete-Held : (p : Pool) → Held counter p → Held counter (delete p)
  unfolding delete
  delete-Held p h =
      kill_events-Held (event_ids (delete_iods (iod_ids p) p)) (delete_iods (iod_ids p) p)
        (delete_iods-Held (iod_ids p) p h)

  pub take-Held : (id : ℕ) (p : Pool) → Held counter p → Held counter (take_read_buf id p).1
  unfolding take_read_buf
  take-Held id p h = elim (Option-cases (find_buf id p.read_bufs)) [
    | inl gone ↦ elim (Option-cases (find_event id p.pending)) [
      | inl none_left ↦ rw (gone, none_left) h
      | inr (e, is) ↦ rw (gone, is) h
    ]
    | inr (b, is) ↦ rw is h
  ]

-- What one operation does: the counter moves by one at most, and the invariant holds after it.
abbrev pub Invariant : Pool → Pool → Type 0
Invariant p q = (q.event_counter ≤ p.event_counter + 1) × IsPool q

held : (p q : Pool) → Held p.event_counter q → Invariant p q
held p q (same, o) = (omega arith, rw (sym same) at o)

module _ (p : Pool) (h : IsPool p) (room : p.event_counter + 1 < 2 ^ 64) where
  start-IsPool :
      (iod : Option ℕ) (kind : EventType) (deadline : Option ℕ) (wbuf : Option (List ℕ))
      (target : ℕ) (line_read : Bool)
      → Invariant p (start iod kind deadline wbuf target line_read p).1
  start-IsPool iod kind deadline wbuf target line_read =
      (omega arith, Once-insert p.event_counter p.pending p.fired _ room refl h)

  pub perform-IsPool : (op : Op) → Invariant p (perform op p)
  unfolding perform create_iod_tcp create_iod_udp create_iod_tcp_from create_iod_udp_from
      connect_tcp connect_udp read_event read_bytes readlines write_event send_udp timer_create
      loop_quit set_udata set_broadcast
  perform-IsPool op_create_iod_tcp = (omega arith, h)
  perform-IsPool (op_create_iod_udp socket) = (omega arith, h)
  perform-IsPool (op_create_iod_tcp_from stream) = (omega arith, h)
  perform-IsPool (op_create_iod_udp_from sock) = (omega arith, h)
  perform-IsPool (op_connect_tcp now iod limit) = start-IsPool _ _ _ _ _ _
  perform-IsPool (op_connect_udp iod addr) = (omega arith, h)
  perform-IsPool (op_read now iod limit) = start-IsPool _ _ _ _ _ _
  perform-IsPool (op_read_bytes now iod limit n) = start-IsPool _ _ _ _ _ _
  perform-IsPool (op_readlines now iod limit n) = start-IsPool _ _ _ _ _ _
  perform-IsPool (op_write now iod bytes limit) = start-IsPool _ _ _ _ _ _
  perform-IsPool (op_send_udp now iod addr bytes limit) =
      (omega arith, Once-insert p.event_counter p.pending p.fired _ room refl h)
  perform-IsPool (op_timer_create now limit) = start-IsPool _ _ _ _ _ _
  perform-IsPool (op_cancel id notify) =
      held p (cancel id notify p).1 (cancel-Held p.event_counter id notify p (refl, h))
  perform-IsPool (op_delete_iod id) =
      held p (delete_iod id p).1 (delete_iod-Held p.event_counter id p (refl, h))
  perform-IsPool op_delete = held p (delete p) (delete-Held p.event_counter p (refl, h))
  perform-IsPool op_loop_quit = (omega arith, h)
  perform-IsPool (op_take_read_buf id) =
      held p (take_read_buf id p).1 (take-Held p.event_counter id p (refl, h))
  perform-IsPool (op_set_udata udata) = (omega arith, h)
  perform-IsPool (op_set_broadcast on) = (omega arith, h)
  perform-IsPool (op_run limit rounds) =
      held p (run limit rounds p).1
        (run-keeps (Held p.event_counter) (Held-Keeps p.event_counter) limit rounds p (refl, h))

perform_all-IsPool :
    (ops : List Op) (p : Pool)
    → IsPool p
    → p.event_counter + length ops < 2 ^ 64
    → IsPool (perform_all ops p)
unfolding perform_all
perform_all-IsPool [] p h room = h
perform_all-IsPool (op ∷ ops) p h room =
    let (moved, after) = perform-IsPool p h (omega arith) op in
    perform_all-IsPool ops (perform op p) after (omega arith)

-- From a new pool, whatever fewer than 2 ^ 64 operations do, with whatever commands, times and answers
-- of sockets in the rounds of `run`: no event's handler is called twice.
pub fired_once :
    (udata : ℕ) (ops : List Op)
    → length ops < 2 ^ 64
    → FiredOnce (perform_all ops (new udata)).fired
unfolding new
fired_once udata ops room =
    (perform_all-IsPool ops (new udata) (record { waiting = tt; given_out = tt; once = tt })
      (omega arith)).once
