-- ===== src/Nsock/Once/Steps.antt =====
-- The invariant of Nsock/Once over the single moves of a run.
use we_nmap_in_rust.Prelude.{
  ℕ, ◌≡◌, refl, sym, List, Option, none, some, Bool, true, false, not, ◌||◌, ◌==◌, ==_iff, All,
  arith, if_both, if_cases, Bool-cases, inl, inr,
}
use we_nmap_in_rust.Nsock.{is_read, EventStatus, Pending, Pool, find_event, remove_event, fire}
use we_nmap_in_rust.Nsock.Loop.{deliver_found}
use we_nmap_in_rust.Nsock.Connects.{All-Memᴰ}
use we_nmap_in_rust.Nsock.Preserve.{Keeps}
use we_nmap_in_rust.Nsock.Once.{
  Waiting, Once, All-filter_list, All-find, modify-Waiting, remove-Waiting, Once-fire,
}

-- The invariant, at a counter that does not move.
abbrev pub Held : ℕ → Pool → Type 0
Held counter p = (p.event_counter ≡ counter) × Once counter p.pending p.fired

module _ (counter : ℕ) where
  -- Fewer events, or other ones that wait.
  pub Held-pending :
      (p : Pool) (xs : List Pending)
      → Held counter p
      → All (Waiting counter p.fired) xs
      → Held counter (record p { pending = xs })
  Held-pending p xs h ws =
      (h.0, record { waiting = ws; given_out = h.1.given_out; once = h.1.once })

  pub Held-remove :
      (p : Pool) (id : ℕ)
      → Held counter p
      → Held counter (record p { pending = remove_event id p.pending })
  Held-remove p id h = Held-pending p (remove_event id p.pending) h (
      All-filter_list (Waiting counter p.fired) (λ (e : Pending). not (e.id == id)) p.pending
        h.1.waiting)

  -- An event that waits is fired and removed.
  pub Held-fire :
      (p : Pool) (e : Pending) (status : EventStatus)
      → Held counter p
      → Waiting counter p.fired e
      → e.done ≡ false
      → Held counter (fire e.id status (record p { pending = remove_event e.id p.pending }))
  Held-fire p e status h w live = (
    h.0,
    Once-fire counter p.pending (remove_event e.id p.pending) p.fired e status h.1 w live
        (remove-Waiting counter p.fired e.id status p.pending h.1.waiting),
  )

  deliver_found-Held :
      (id : ℕ) (status : EventStatus) (o : Option Pending) (p : Pool)
      → find_event id p.pending ≡ o
      → Held counter p
      → Held counter (deliver_found id status o p)
  deliver_found-Held id status none p e h = Held-remove p id h
  deliver_found-Held id status (some t) p e h =
      if_cases (Held counter) (t.done || t.cancelled) (λ _. h)
        (λ not_done. elim (Bool-cases (is_read t.kind)) [
          | inl r ↦
              rw (r, sym same) (Held-fire p t status h target.0 (live t.done t.cancelled not_done))
          | inr r ↦
              rw (r, sym same) (Held-fire p t status h target.0 (live t.done t.cancelled not_done))
        ])
    where
      target : Waiting counter p.fired t × ((t.id == id) ≡ true)
      target =
          All-find (Waiting counter p.fired) (λ (e : Pending). e.id == id) p.pending t h.1.waiting e

      same : t.id ≡ id
      same = (==_iff t.id id).0 target.1

      live : (a b : Bool) → (a || b) ≡ false → a ≡ false
      live true b e = absurd (ground (arith, e))
      live false b e = refl

  pub Held-Keeps : Keeps (Held counter)
  Held-Keeps = record {
    iods = λ p iods h. h;
    queue = λ p cmds h. h;
    quit = λ p b h. h;
    buf = λ id buf p h. Held-pending p _ h (
        modify-Waiting counter p.fired id (λ (e : Pending). record e { buf = buf }) (λ e w. w)
          p.pending h.1.waiting);
    wbuf = λ id wbuf p h. Held-pending p _ h (
        modify-Waiting counter p.fired id (λ (e : Pending). record e { wbuf = wbuf }) (λ e w. w)
          p.pending h.1.waiting);
    finished = λ status e p m live h.
        if_both (Held counter) e.cancelled (Held-remove p e.id h) (
          Held-fire p e status h (All-Memᴰ (Waiting counter p.fired) p.pending h.1.waiting m) live);
    delivered = λ id status p h. deliver_found-Held id status (find_event id p.pending) p refl h;
  }
