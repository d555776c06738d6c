-- ===== src/Nsock/Kept/Moves.antt =====
-- The events that have fired or wait, over the moves of a run and the operations that end events.
use we_nmap_in_rust.Prelude.{
  ℕ, ◌≡◌, refl, ap, ◌∙◌, List, [], ◌∷◌, Option, none, some, Bool, true, false, not, ◌&&◌, ◌||◌,
  ◌==◌, if◌then◌else◌, arith, Option-cases, Bool-cases, inl, inr, if_cases,
}
use we_nmap_in_rust.Nsock.{
  is_read, EventStatus, kill, Pending, Pool, find_event, remove_event, find_buf, take_read_buf,
}
use we_nmap_in_rust.Nsock.Loop.{deliver_found}
use we_nmap_in_rust.Nsock.Close.{
  cancel, kill_event, kill_events, events_of, event_ids, iod_ids, delete_iod, delete_iods, delete,
}
use we_nmap_in_rust.Nsock.Connects.{All-Memᴰ, find-Memᴰ}
use we_nmap_in_rust.Nsock.Preserve.{Keeps}
use we_nmap_in_rust.Nsock.Kept.{
  Marked, is_live, Kept, Kept-drop, Kept-fire, Kept-mark, Kept-mark_done, Kept-modify,
}

module _ (Issued : Type 0) (id : ℕ) where
  -- The event has fired or waits.
  abbrev pub InPool : Pool → Type 0
  InPool p = Kept Issued id p.pending p.fired

  module _ (p : Pool) (h : InPool p) where
    delivered-InPool :
        (i : ℕ) (status : EventStatus) (o : Option Pending)
        → find_event i p.pending ≡ o
        → InPool (deliver_found i status o p)
    delivered-InPool i status none e = Kept-drop Issued id p.pending p.fired h i (ap is_live e)
    delivered-InPool i status (some t) e =
        if_cases InPool (t.done || t.cancelled) (λ _. h)
          (λ _. elim (Bool-cases (is_read t.kind)) [
            | inl r ↦ rw r (Kept-fire Issued id p.pending p.fired h i status)
            | inr r ↦ rw r (Kept-fire Issued id p.pending p.fired h i status)
          ])

    -- An event found that is done is cancelled, and does not wait.
    killed-InPool :
        (i : ℕ) (e : Pending)
        → find_event i p.pending ≡ some e
        → (k : Bool) → (not e.done && not e.cancelled) ≡ k
        → Kept Issued id (remove_event i p.pending) (if k then (i, kill) ∷ p.fired else p.fired)
    killed-InPool i e is true t = Kept-fire Issued id p.pending p.fired h i kill
    killed-InPool i e is false t =
        let (m, at) = find-Memᴰ (λ (y : Pending). y.id == i) p.pending e is in
        Kept-drop Issued id p.pending p.fired h i
          (ap is_live is ∙ dead e.done e.cancelled (All-Memᴰ Marked p.pending h.marked m) t)
      where
        dead : (a b : Bool) → b ≡ a → (not a && not b) ≡ false → not a ≡ false
        dead a b e h = ground (arith, e, h)

    kill_event-InPool : (i : ℕ) → InPool (kill_event i p)
    kill_event-InPool i = elim (Option-cases (find_event i p.pending)) [
      | inl gone ↦ rw gone (Kept-drop Issued id p.pending p.fired h i (ap is_live gone))
      | inr (e, is) ↦ elim (Bool-cases (not e.done && not e.cancelled)) [
        | inl t ↦ rw (is, t) (killed-InPool i e is true t)
        | inr t ↦ rw (is, t) (killed-InPool i e is false t)
      ]
    ]

    pub take-InPool : (i : ℕ) → InPool (take_read_buf i p).1
    unfolding take_read_buf
    take-InPool i = elim (Option-cases (find_buf i p.read_bufs)) [
      | inl gone ↦ elim (Option-cases (find_event i p.pending)) [
        | inl none_left ↦ rw (gone, none_left) h
        | inr (e, is) ↦ rw (gone, is) h
      ]
      | inr (b, is) ↦ rw is h
    ]

    -- With a notification the handler is called, if it has not been.
    pub cancel-InPool : (i : ℕ) → InPool (cancel i true p).1
    unfolding cancel
    cancel-InPool i = elim (Option-cases (find_event i p.pending)) [
      | inl gone ↦ rw gone h
      | inr (e, is) ↦ elim (Bool-cases e.done) [
        | inl over ↦
            rw (is, over)
              (Kept-mark_done Issued id p.pending p.fired h i (ap is_live is ∙ ap not over))
        | inr open_event ↦
            rw (is, open_event) (Kept-mark Issued id p.pending p.fired h i EventStatus.cancelled)
      ]
    ]

  kill_events-InPool : (ids : List ℕ) (p : Pool) → InPool p → InPool (kill_events ids p)
  kill_events-InPool [] p h = h
  kill_events-InPool (i ∷ ids) p h =
      kill_events-InPool ids (kill_event i p) (kill_event-InPool p h i)

  pub delete_iod-InPool : (i : ℕ) (p : Pool) → InPool p → InPool (delete_iod i p).1
  unfolding delete_iod
  delete_iod-InPool i p h = kill_events-InPool (events_of i p) p h

  delete_iods-InPool : (ids : List ℕ) (p : Pool) → InPool p → InPool (delete_iods ids p)
  unfolding delete_iods
  delete_iods-InPool [] p h = h
  delete_iods-InPool (i ∷ ids) p h =
      delete_iods-InPool ids (delete_iod i p).1 (delete_iod-InPool i p h)

  pub delete-InPool : (p : Pool) → InPool p → InPool (delete p)
  unfolding delete
  delete-InPool p h =
      kill_events-InPool (event_ids (delete_iods (iod_ids p) p)) (delete_iods (iod_ids p) p)
        (delete_iods-InPool (iod_ids p) p h)

  pub InPool-Keeps : Keeps InPool
  InPool-Keeps = record {
    iods = λ p iods h. h;
    queue = λ p cmds h. h;
    quit = λ p b h. h;
    buf = λ i buf p h.
        Kept-modify Issued id p.pending p.fired h i (λ (e : Pending). record e { buf = buf })
          (λ e. (refl, refl)) (λ e m. m);
    wbuf = λ i wbuf p h.
        Kept-modify Issued id p.pending p.fired h i (λ (e : Pending). record e { wbuf = wbuf })
          (λ e. (refl, refl)) (λ e m. m);
    finished = λ status e p m open_event h.
        let same : e.cancelled ≡ false = All-Memᴰ Marked p.pending h.marked m ∙ open_event in
        rw same (Kept-fire Issued id p.pending p.fired h e.id status);
    delivered = λ i status p h. delivered-InPool p h i status (find_event i p.pending) refl;
  }
