-- ===== src/Nsock/Preserve/Runs.antt =====
-- Any property of the pool, over the single moves: a round of the loop of wnr-nsock/src/pool.rs and a
-- whole run.
use we_nmap_in_rust.Prelude.{ℕ, List, [], ◌∷◌, Option, false, not, if_both}
use we_nmap_in_rust.Nsock.{EventStatus, LoopStatus, Pool, find_event, has_pending}
use we_nmap_in_rust.Nsock.Loop.{
  due_events, deliver_found, deliver, Round, live_ids, collect, drain, round, past_limit, rounds,
  run,
}
use we_nmap_in_rust.Nsock.Preserve.{Keeps, drain-keeps}
use we_nmap_in_rust.Nsock.Preserve.Io.{try_events-keeps}

module _ (P : Pool → Type 0) (k : Keeps P) where
  pub collect-keeps : (r : Round) (p : Pool) → P p → P (collect r p).1
  unfolding collect
  collect-keeps r p h = try_events-keeps P k r.answers (live_ids p) (due_events r.now p.pending) p h

  pub deliver-keeps : (ds : List (ℕ × EventStatus)) (p : Pool) → P p → P (deliver ds p)
  unfolding deliver
  deliver-keeps [] p h = h
  deliver-keeps ((id, status) ∷ ds) p h =
      deliver-keeps ds (deliver_found id status (find_event id p.pending) p)
        (k.delivered id status p h)

  pub round-keeps : (r : Round) (p : Pool) → P p → P (round r p)
  unfolding round
  round-keeps r p h =
      deliver-keeps (collect r (drain r p)).0 (collect r (drain r p)).1
        (collect-keeps r (drain r p) (drain-keeps P k r p h))

  pub rounds-keeps : (limit : Option ℕ) (rs : List Round) (p : Pool) → P p → P (rounds limit rs p).1
  unfolding rounds
  rounds-keeps limit [] p h = h
  rounds-keeps limit (r ∷ rs) p h = if_both Q (not (has_pending (round r p))) after (
      if_both Q ((round r p).quit) (k.quit (round r p) false after)
        (if_both Q (past_limit limit r.elapsed) after (rounds-keeps limit rs (round r p) after)))
    where
      Q : Option LoopStatus × Pool → Type 0
      Q x = P x.1

      after : P (round r p)
      after = round-keeps r p h

  pub run-keeps : (limit : Option ℕ) (rs : List Round) (p : Pool) → P p → P (run limit rs p).1
  unfolding run
  run-keeps limit rs p h = rounds-keeps limit rs (record p { quit = false }) (k.quit p false h)
