-- ===== src/Nsock/Preserve.antt =====
-- The single moves of wnr-nsock/src/pool.rs that change the pool in a run, over any property of the
-- pool: the commands.
pub mod Io
pub mod Runs
use we_nmap_in_rust.Prelude.{
  ℕ, ◌≡◌, refl, List, [], ◌∷◌, ◌++◌, Option, none, some, Bool, true, false, not, ◌&&◌, ◌==◌, arith,
  if_both, Option-cases, inl, inr,
}
use mathlib.Core.List.{Memᴰ}
use we_nmap_in_rust.Prelude.Search.{filter_list, filter_list-Mem}
use we_nmap_in_rust.Net.{Socket}
use we_nmap_in_rust.Nsock.{
  EventType, connect, read, write, timer, is_connect, EventStatus, LoopStatus, Iod, IodKind, tcp,
  udp, Pending, Pool, Cmd, connect_result, quit_cmd, find_event, modify_event, has_pending,
}
use we_nmap_in_rust.Nsock.Io.{
  IoResult, ok, would_block, failed, Answers, tcp_read, udp_read, read_kind, tcp_write, udp_write,
  write_kind, event_iod, try_read, try_write,
}
use we_nmap_in_rust.Nsock.Loop.{
  on_iod, connect_target, attach, finish_connect, connect_status, connected, drain_commands,
  due_events, try_kind, try_found, try_events, appended, mentions, deliver_found, deliver, Round,
  live_ids, collect, drain, round, past_limit, rounds, run,
}
use we_nmap_in_rust.Nsock.Connects.{find-Memᴰ}

-- The single moves of a run.
pub record Keeps (P : Pool → Type 0) : Type 0 where
  pub iods : (p : Pool) (iods : List Iod) → P p → P (record p { iods = iods })
  pub queue : (p : Pool) (cmds : List Cmd) → P p → P (record p { queue = cmds })
  pub quit : (p : Pool) (b : Bool) → P p → P (record p { quit = b })
  pub buf :
      (id : ℕ) (buf : List ℕ) (p : Pool)
      → P p
      → P (record p {
        pending = modify_event id (λ (e : Pending). record e { buf = buf }) p.pending;
      })
  pub wbuf :
      (id : ℕ) (wbuf : Option (List ℕ)) (p : Pool)
      → P p
      → P (record p {
        pending = modify_event id (λ (e : Pending). record e { wbuf = wbuf }) p.pending;
      })
  pub finished :
      (status : EventStatus) (e : Pending) (p : Pool)
      → Memᴰ e p.pending
      → e.done ≡ false
      → P p
      → P (finish_connect status e p)
  pub delivered :
      (id : ℕ) (status : EventStatus) (p : Pool)
      → P p
      → P (deliver_found id status (find_event id p.pending) p)

not_done : (a b : Bool) → (a && not b) ≡ true → b ≡ false
not_done true false h = refl
not_done true true h = absurd (ground (arith, h))
not_done false b h = absurd (ground (arith, h))

-- The event that a result of a connect completes is one of the pool, and is not done.
target-live :
    (iod_id : ℕ) (xs : List Pending) (e : Pending)
    → connect_target iod_id xs ≡ some e
    → Memᴰ e xs × (e.done ≡ false)
target-live iod_id xs e h =
    let (m, test) =
      filter_list-Mem (λ (y : Pending). is_connect y.kind && not y.done) xs
        (find-Memᴰ (λ (y : Pending). on_iod iod_id y.iod)
          (filter_list (λ (y : Pending). is_connect y.kind && not y.done) xs) e h).0 in
    (m, not_done (is_connect e.kind) e.done test)

module _ (P : Pool → Type 0) (k : Keeps P) where
  connected-keeps :
      (p : Pool) (iod_id : ℕ) (res : Option Socket) (o : Option Pending)
      → connect_target iod_id p.pending ≡ o
      → P p
      → P (connected iod_id res o p)
  connected-keeps p iod_id res none e h = h
  connected-keeps p iod_id none (some t) e h =
      let (m, live) = target-live iod_id p.pending t e in
      k.finished (connect_status none) t p m live h
  connected-keeps p iod_id (some stream) (some t) e h =
      let (m, live) = target-live iod_id p.pending t e in
      k.finished (connect_status (some stream)) t (attach iod_id (some stream) p) m live
        (k.iods p (attach iod_id (some stream) p).iods h)

  drain_commands-keeps : (cmds : List Cmd) (p : Pool) → P p → P (drain_commands cmds p)
  unfolding drain_commands
  drain_commands-keeps [] p h = h
  drain_commands-keeps (connect_result iod_id res ∷ cmds) p h =
      drain_commands-keeps cmds (connected iod_id res (connect_target iod_id p.pending) p)
        (connected-keeps p iod_id res (connect_target iod_id p.pending) refl h)
  drain_commands-keeps (quit_cmd ∷ cmds) p h =
      drain_commands-keeps cmds (record p { quit = true }) (k.quit p true h)

  pub drain-keeps : (r : Round) (p : Pool) → P p → P (drain r p)
  unfolding drain
  drain-keeps r p h =
      drain_commands-keeps (p.queue ++ r.arrived) (record p { queue = [] }) (k.queue p [] h)
