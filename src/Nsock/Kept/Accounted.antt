-- ===== src/Nsock/Kept/Accounted.antt =====
-- The events that were started, over any sequence of the operations of wnr-nsock/src/pool.rs.
use we_nmap_in_rust.Prelude.{
  ℕ, ◌+◌, ◌^◌, ◌≤◌, ◌<◌, ◌≡◌, refl, sym, ap, List, [], ◌∷◌, Option, some, Bool, true, false, ◌||◌,
  ◌⊎◌, inl, inr, ◌==◌, length, All, arith, Bool-cases, Option-cases,
}
use mathlib.Core.Path.{subst}
use we_nmap_in_rust.Nsock.{
  EventType, Pending, Pool, new, next_id, find_event, set_udata, set_broadcast, take_read_buf,
}
use we_nmap_in_rust.Nsock.Start.{
  start, create_iod_tcp, create_iod_udp, create_iod_tcp_from, create_iod_udp_from, connect_tcp,
  connect_udp, read_event, read_bytes, readlines, write_event, send_udp, timer_create,
}
use we_nmap_in_rust.Nsock.Close.{cancel, delete_iod, delete, loop_quit}
use we_nmap_in_rust.Nsock.Loop.{run, mentions}
use we_nmap_in_rust.Nsock.Preserve.Runs.{run-keeps}
use we_nmap_in_rust.Nsock.Operations.{
  Op, perform, perform_all, op_create_iod_tcp, op_create_iod_udp, op_create_iod_tcp_from,
  op_create_iod_udp_from, op_connect_tcp, op_connect_udp, op_read, op_read_bytes, op_readlines,
  op_write, op_send_udp, op_timer_create, op_cancel, op_delete_iod, op_delete, op_loop_quit,
  op_take_read_buf, op_set_udata, op_set_broadcast, op_run,
}
use we_nmap_in_rust.Nsock.Once.{IsPool}
use we_nmap_in_rust.Nsock.Once.Steps.{Held, Held-Keeps}
use we_nmap_in_rust.Nsock.Once.Operations.{
  perform-IsPool, cancel-Held, delete_iod-Held, delete-Held, take-Held,
}
use we_nmap_in_rust.Nsock.Kept.{live, is_live, Kept-insert}
use we_nmap_in_rust.Nsock.Kept.Moves.{
  InPool, InPool-Keeps, take-InPool, cancel-InPool, delete_iod-InPool, delete-InPool,
}

-- The numbers that were given out.
abbrev pub Issued : ℕ → ℕ → Type 0
Issued counter id = (1 ≤ id) × (id ≤ counter)

abbrev pub Accounted : Pool → Type 0
Accounted p = (id : ℕ) → InPool (Issued p.event_counter id) id p

-- A cancellation that is notified, or another operation.
abbrev pub Notifies : Op → Type 0
Notifies (op_cancel id notify) = notify ≡ true
Notifies _ = Unit

same_counter :
    (counter : ℕ) (q : Pool)
    → q.event_counter ≡ counter
    → ((id : ℕ) → InPool (Issued counter id) id q)
    → Accounted q
same_counter counter q e h id = subst (λ c. InPool (Issued c id) id q) (sym e) (h id)

older :
    (counter id new_id : ℕ)
    → new_id ≡ counter + 1
    → Issued new_id id
    → Issued counter id ⊎ ((new_id == id) ≡ true)
older counter id new_id e h = elim (Bool-cases (new_id == id)) [
  | inl same ↦ inr same
  | inr other ↦ inl (h.0, ground (arith, e, h.1, other))
]

module _ (p : Pool) (inv : IsPool p) (room : p.event_counter + 1 < 2 ^ 64) (h : Accounted p) where
  start-Accounted :
      (iod : Option ℕ) (kind : EventType) (deadline : Option ℕ) (wbuf : Option (List ℕ))
      (target : ℕ) (line_read : Bool)
      → Accounted (start iod kind deadline wbuf target line_read p).1
  start-Accounted iod kind deadline wbuf target line_read id =
      let (marked, here) =
        Kept-insert (Issued p.event_counter id) id p.pending p.fired (h id)
          (Issued (next_id p.event_counter) id)
          (record {
            id = next_id p.event_counter;
            iod = iod;
            kind = kind;
            deadline = deadline;
            buf = [];
            wbuf = wbuf;
            target = target;
            line_read = line_read;
            cancelled = false;
            done = false;
          })
          (older p.event_counter id (next_id p.event_counter) (omega arith)) refl refl in
      record { marked = marked; here = here }

  perform-Accounted : (op : Op) → Notifies op → Accounted (perform op p)
  unfolding perform create_iod_tcp create_iod_udp create_iod_tcp_from create_iod_udp_from
      connect_tcp connect_udp read_event read_bytes readlines write_event send_udp timer_create
      loop_quit set_udata set_broadcast
  perform-Accounted op_create_iod_tcp n = h
  perform-Accounted (op_create_iod_udp socket) n = h
  perform-Accounted (op_create_iod_tcp_from stream) n = h
  perform-Accounted (op_create_iod_udp_from sock) n = h
  perform-Accounted (op_connect_tcp now iod limit) n = start-Accounted _ _ _ _ _ _
  perform-Accounted (op_connect_udp iod addr) n = h
  perform-Accounted (op_read now iod limit) n = start-Accounted _ _ _ _ _ _
  perform-Accounted (op_read_bytes now iod limit k) n = start-Accounted _ _ _ _ _ _
  perform-Accounted (op_readlines now iod limit k) n = start-Accounted _ _ _ _ _ _
  perform-Accounted (op_write now iod bytes limit) n = start-Accounted _ _ _ _ _ _
  perform-Accounted (op_send_udp now iod addr bytes limit) n = start-Accounted _ _ _ _ _ _
  perform-Accounted (op_timer_create now limit) n = start-Accounted _ _ _ _ _ _
  perform-Accounted (op_cancel i notify) n =
      subst (λ b. Accounted (cancel i b p).1) (sym n)
        (same_counter p.event_counter (cancel i true p).1
          (cancel-Held p.event_counter i true p (refl, inv)).0
          (λ id. cancel-InPool (Issued p.event_counter id) id p (h id) i))
  perform-Accounted (op_delete_iod i) n =
      same_counter p.event_counter (delete_iod i p).1
        (delete_iod-Held p.event_counter i p (refl, inv)).0
        (λ id. delete_iod-InPool (Issued p.event_counter id) id i p (h id))
  perform-Accounted op_delete n =
      same_counter p.event_counter (delete p) (delete-Held p.event_counter p (refl, inv)).0
        (λ id. delete-InPool (Issued p.event_counter id) id p (h id))
  perform-Accounted op_loop_quit n = h
  perform-Accounted (op_take_read_buf i) n =
      same_counter p.event_counter (take_read_buf i p).1
        (take-Held p.event_counter i p (refl, inv)).0
        (λ id. take-InPool (Issued p.event_counter id) id p (h id) i)
  perform-Accounted (op_set_udata udata) n = h
  perform-Accounted (op_set_broadcast on) n = h
  perform-Accounted (op_run limit rounds) n =
      same_counter p.event_counter (run limit rounds p).1
        (run-keeps (Held p.event_counter) (Held-Keeps p.event_counter) limit rounds p (refl, inv)).0
        (λ id.
          run-keeps (InPool (Issued p.event_counter id) id)
            (InPool-Keeps (Issued p.event_counter id) id) limit rounds p (h id))

perform_all-Accounted :
    (ops : List Op) (p : Pool)
    → IsPool p
    → Accounted p
    → p.event_counter + length ops < 2 ^ 64
    → All Notifies ops
    → Accounted (perform_all ops p)
unfolding perform_all
perform_all-Accounted [] p inv h room n = h
perform_all-Accounted (op ∷ ops) p inv h room n =
    let (moved, after) = perform-IsPool p inv (omega arith) op in
    perform_all-Accounted ops (perform op p) after (perform-Accounted p inv (omega arith) h op n.0)
      (omega arith) n.1

new-IsPool : (udata : ℕ) → IsPool (new udata)
unfolding new
new-IsPool udata = record { waiting = tt; given_out = tt; once = tt }

new-Accounted : (udata : ℕ) → Accounted (new udata)
unfolding new
new-Accounted udata id = record { marked = tt; here = λ bad. absurd (omega (arith, bad.0, bad.1)) }

-- From a new pool.
pub all-Accounted :
    (udata : ℕ) (ops : List Op)
    → length ops < 2 ^ 64
    → All Notifies ops
    → Accounted (perform_all ops (new udata))
unfolding new
all-Accounted udata ops room n =
    perform_all-Accounted ops (new udata) (new-IsPool udata) (new-Accounted udata) (omega arith) n

-- The handler of the event has been called, or the event is in the pool and not done.
abbrev pub FiredOrWaits : ℕ → Pool → Type 0
FiredOrWaits id p =
    (mentions id p.fired ≡ true)
    ⊎ ((e : Pending) × (find_event id p.pending ≡ some e) × (e.done ≡ false))

either : (id : ℕ) (p : Pool) → (mentions id p.fired || live id p.pending) ≡ true → FiredOrWaits id p
either id p h = elim (Bool-cases (mentions id p.fired)) [
  | inl fired ↦ inl fired
  | inr unfired ↦ elim (Option-cases (find_event id p.pending)) [
    | inl gone ↦ absurd (ground (arith, h, unfired, ap is_live gone))
    | inr (e, is) ↦ inr (e, is, ground (arith, h, unfired, ap is_live is))
  ]
]

-- From a new pool, after fewer than 2 ^ 64 operations, runs of the loop with any commands, times and
-- answers of sockets included, and no cancellation without a notification: the handler of every event
-- that was started has been called, or the event waits in the pool.
pub fired_or_waits :
    (udata : ℕ) (ops : List Op)
    → length ops < 2 ^ 64
    → All Notifies ops
    → (id : ℕ) → 1 ≤ id
    → id ≤ (perform_all ops (new udata)).event_counter
    → FiredOrWaits id (perform_all ops (new udata))
fired_or_waits udata ops room n id positive issued =
    either id (perform_all ops (new udata))
      ((all-Accounted udata ops room n id).here (positive, issued))
