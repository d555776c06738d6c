-- ===== src/Nsock/Connects/Finish.antt =====
-- The commands and a round of the loop, on a pool of connects.
use we_nmap_in_rust.Prelude.{
  ℕ, ◌≡◌, refl, sym, List, [], ◌∷◌, Option, none, some, true, false, not, ◌==◌, ◌&&◌, All, arith,
  Bool-cases, inl, inr, if_both,
}
use mathlib.Core.Path.{subst}
use mathlib.Core.List.{Memᴰ}
use we_nmap_in_rust.Prelude.Search.{filter_list, filter_list-Mem}
use we_nmap_in_rust.Net.{Socket}
use we_nmap_in_rust.Nsock.{
  is_connect, EventStatus, Pending, Pool, Cmd, connect_result, quit_cmd, find_event, remove_event,
  fire,
}
use we_nmap_in_rust.Nsock.Io.{Answers}
use we_nmap_in_rust.Nsock.Loop.{
  connect_target, on_iod, attach, connect_status, finish_connect, connected, drain_commands,
  try_found, try_kind, try_events, deliver_found, deliver, due_events, mentions, Round, collect,
}
use we_nmap_in_rust.Nsock.Connects.{
  Plain, Absent, Connecting, Connecting-fire, remove_event-Absent, All-Memᴰ, find-Memᴰ, All-remove,
}

-- Nothing but results of connects.
abbrev pub NoQuit : List Cmd → Type 0
NoQuit [] = Unit
NoQuit (connect_result iod_id res ∷ cmds) = NoQuit cmds
NoQuit (quit_cmd ∷ cmds) = ⊥

target-Memᴰ :
    (iod_id : ℕ) (xs : List Pending) (e : Pending) → connect_target iod_id xs ≡ some e → Memᴰ e xs
target-Memᴰ iod_id xs e h =
    (filter_list-Mem (λ (y : Pending). is_connect y.kind && not y.done) xs
      (find-Memᴰ (λ (y : Pending). on_iod iod_id y.iod)
        (filter_list (λ (y : Pending). is_connect y.kind && not y.done) xs) e h).0).0

==→≡ : (a b : ℕ) → (a == b) ≡ true → a ≡ b
==→≡ a b h = ground (arith, h)

find_none-Absent : (id : ℕ) (xs : List Pending) → find_event id xs ≡ none → Absent id xs
find_none-Absent id [] h = tt
find_none-Absent id (x ∷ xs) h = elim (Bool-cases (x.id == id)) [
  | inl same ↦ absurd (some-none (rw same at h))
  | inr differ ↦ (differ, find_none-Absent id xs (rw differ at h))
]
  where
    some-none : {e : Pending} → some e ≡ none → ⊥
    some-none h = ground (arith, h)

module _ (total : ℕ) (P : Pending → Type 0) where
  -- A pool that is not told to end, on which every event that waits has a property.
  pub record Waits (p : Pool) : Type 0 where
    pub connecting : Connecting total p.pending p.fired
    pub all : All P p.pending
    pub open_loop : p.quit ≡ false
    pub queued : NoQuit p.queue

  attach-Waits :
      (iod_id : ℕ) (res : Option Socket) (p : Pool) → Waits p → Waits (attach iod_id res p)
  attach-Waits iod_id none p h = h
  attach-Waits iod_id (some s) p h = record {
    connecting = h.connecting;
    all = h.all;
    open_loop = h.open_loop;
    queued = h.queued;
  }

  finish-Waits :
      (status : EventStatus) (e : Pending) (p : Pool)
      → Memᴰ e p.pending
      → Waits p
      → Waits (finish_connect status e p)
  finish-Waits status e p m h = rw ((All-Memᴰ Plain p.pending h.connecting.plain m).2) (record {
    connecting = Connecting-fire total p.pending p.fired e (e.id, status) h.connecting m;
    all = All-remove P e.id p.pending h.all;
    open_loop = h.open_loop;
    queued = h.queued;
  })

  attach-pending :
      (iod_id : ℕ) (res : Option Socket) (p : Pool) → (attach iod_id res p).pending ≡ p.pending
  attach-pending iod_id none p = refl
  attach-pending iod_id (some s) p = refl

  connected-Waits :
      (iod_id : ℕ) (res : Option Socket) (o : Option Pending) (p : Pool)
      → connect_target iod_id p.pending ≡ o
      → Waits p
      → Waits (connected iod_id res o p)
  connected-Waits iod_id res none p e h = h
  connected-Waits iod_id res (some found) p e h =
      finish-Waits (connect_status res) found (attach iod_id res p)
        (subst (λ xs. Memᴰ found xs) (sym (attach-pending iod_id res p))
          (target-Memᴰ iod_id p.pending found e))
        (attach-Waits iod_id res p h)

  pub drain_commands-Waits :
      (cmds : List Cmd) (p : Pool) → NoQuit cmds → Waits p → Waits (drain_commands cmds p)
  unfolding drain_commands
  drain_commands-Waits [] p q h = h
  drain_commands-Waits (connect_result iod_id res ∷ cmds) p q h =
      drain_commands-Waits cmds (connected iod_id res (connect_target iod_id p.pending) p) q
        (connected-Waits iod_id res (connect_target iod_id p.pending) p refl h)
  drain_commands-Waits (quit_cmd ∷ cmds) p q h = absurd q

  pub deliver_found-Waits :
      (id : ℕ) (status : EventStatus) (o : Option Pending) (p : Pool)
      → find_event id p.pending ≡ o
      → Waits p
      → Waits (deliver_found id status o p)
  deliver_found-Waits id status none p e h = record {
    connecting = subst (λ xs. Connecting total xs p.fired) (sym (same e)) h.connecting;
    all = subst (λ xs. All P xs) (sym (same e)) h.all;
    open_loop = h.open_loop;
    queued = h.queued;
  }
    where
      same : find_event id p.pending ≡ none → remove_event id p.pending ≡ p.pending
      same e = remove_event-Absent id p.pending (find_none-Absent id p.pending e)
  deliver_found-Waits id status (some found) p e h =
      let (m, at) = find-Memᴰ (λ (y : Pending). y.id == id) p.pending found e in
      let (kind, done, kept) = All-Memᴰ Plain p.pending h.connecting.plain m in
      rw (kind, done, kept)
        (subst (λ i. Waits (fire i status (record p { pending = remove_event i p.pending })))
          (==→≡ found.id id at)
          (record {
            connecting =
                Connecting-fire total p.pending p.fired found (found.id, status) h.connecting m;
            all = All-remove P found.id p.pending h.all;
            open_loop = h.open_loop;
            queued = h.queued;
          }))

-- On connects the second loop of a round resolves nothing.
try_found-connect :
    (io : Answers) (id : ℕ) (o : Option Pending) (p : Pool)
    → All Plain p.pending
    → find_event id p.pending ≡ o
    → try_found o io id p ≡ (none, p)
unfolding try_found try_kind
try_found-connect io id none p h e = refl
try_found-connect io id (some found) p h e =
    rw
      ((All-Memᴰ Plain p.pending h (find-Memᴰ (λ (y : Pending). y.id == id) p.pending found e).0).0)
      refl

try_events-connect :
    (io : Answers) (ids : List ℕ) (ds : List (ℕ × EventStatus)) (p : Pool)
    → All Plain p.pending
    → try_events io ids ds p ≡ (ds, p)
unfolding try_events
try_events-connect io [] ds p h = refl
try_events-connect io (id ∷ ids) ds p h =
    rw
      (try_found-connect io id (find_event id p.pending) p h refl, try_events-connect io ids ds p h)
      (if_both (λ r. r ≡ (ds, p)) (mentions id ds) refl refl)

pub collect-connect :
    (r : Round) (p : Pool) → All Plain p.pending → collect r p ≡ (due_events r.now p.pending, p)
unfolding collect
collect-connect r p h = try_events-connect r.answers _ (due_events r.now p.pending) p h

module _ (total : ℕ) (P : Pending → Type 0) where
  pub deliver-Waits :
      (ds : List (ℕ × EventStatus)) (p : Pool) → Waits total P p → Waits total P (deliver ds p)
  unfolding deliver
  deliver-Waits [] p h = h
  deliver-Waits ((id, status) ∷ ds) p h =
      deliver-Waits ds (deliver_found id status (find_event id p.pending) p)
        (deliver_found-Waits total P id status (find_event id p.pending) p refl h)
