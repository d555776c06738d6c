-- ===== src/Nsock/Preserve/Io.antt =====
-- Any property of the pool, over the single moves: the reads and writes of wnr-nsock/src/pool.rs.
use we_nmap_in_rust.Prelude.{
  ℕ, List, [], ◌∷◌, ◌++◌, Option, none, some, ◌==◌, if_both, Option-cases, inl, inr,
}
use we_nmap_in_rust.Nsock.{
  EventType, connect, read, write, timer, EventStatus, Iod, IodKind, tcp, udp, Pending, Pool,
  find_event,
}
use we_nmap_in_rust.Nsock.Io.{
  IoResult, ok, would_block, failed, Answers, tcp_read, udp_read, read_kind, tcp_write, udp_write,
  write_kind, event_iod, try_read, try_write,
}
use we_nmap_in_rust.Nsock.Loop.{try_kind, try_found, try_events, appended, mentions}
use we_nmap_in_rust.Nsock.Preserve.{Keeps}

module _ (P : Pool → Type 0) (k : Keeps P) where
  -- Input and output change only the buffers of an event and the counts of a descriptor.
  module _ (p : Pool) (h : P p) where
    tcp_read-keeps :
        (id : ℕ) (e : Pending) (iod_id : ℕ) (r : IoResult (List ℕ)) → P (tcp_read id e iod_id r p).1
    tcp_read-keeps id e iod_id (ok []) = h
    tcp_read-keeps id e iod_id (ok (b ∷ bytes)) = k.iods _ _ (k.buf id (e.buf ++ (b ∷ bytes)) p h)
    tcp_read-keeps id e iod_id would_block = h
    tcp_read-keeps id e iod_id failed = h

    udp_read-keeps : (id iod_id : ℕ) (r : IoResult (List ℕ)) → P (udp_read id iod_id r p).1
    udp_read-keeps id iod_id (ok bytes) = k.iods _ _ (k.buf id bytes p h)
    udp_read-keeps id iod_id would_block = h
    udp_read-keeps id iod_id failed = h

    tcp_write-keeps :
        (id iod_id : ℕ) (bytes : List ℕ) (r : IoResult ℕ) → P (tcp_write id iod_id bytes r p).1
    tcp_write-keeps id iod_id bytes (ok n) =
        if_both (λ (x : Option EventStatus × Pool). P x.1) (n == 0) h (k.iods _ _ (k.wbuf id _ p h))
    tcp_write-keeps id iod_id bytes would_block = h
    tcp_write-keeps id iod_id bytes failed = h

    udp_write-keeps :
        (id iod_id : ℕ) (bytes : List ℕ) (r : IoResult ℕ) → P (udp_write id iod_id bytes r p).1
    udp_write-keeps id iod_id bytes (ok n) = k.iods _ _ (k.wbuf id none p h)
    udp_write-keeps id iod_id bytes would_block = h
    udp_write-keeps id iod_id bytes failed = h

    read_kind-keeps :
        (kind : IodKind) (id : ℕ) (e : Pending) (iod_id : ℕ) (iod : Iod) (io : Answers)
        → P (read_kind kind id e iod_id iod io p).1
    read_kind-keeps tcp id e iod_id iod io = elim (Option-cases iod.tcp) [
      | inl gone ↦ rw gone h
      | inr (stream, is) ↦ rw is (tcp_read-keeps id e iod_id (io.read stream.handle))
    ]
    read_kind-keeps udp id e iod_id iod io = elim (Option-cases iod.udp) [
      | inl gone ↦ rw gone h
      | inr (sock, is) ↦ rw is (udp_read-keeps id iod_id (io.read sock.handle))
    ]

    write_kind-keeps :
        (kind : IodKind) (id iod_id : ℕ) (iod : Iod) (bytes : List ℕ) (io : Answers)
        → P (write_kind kind id iod_id iod bytes io p).1
    write_kind-keeps tcp id iod_id iod bytes io = elim (Option-cases iod.tcp) [
      | inl gone ↦ rw gone h
      | inr (stream, is) ↦ rw is (tcp_write-keeps id iod_id bytes (io.write stream.handle bytes))
    ]
    write_kind-keeps udp id iod_id iod bytes io = elim (Option-cases iod.udp) [
      | inl gone ↦ rw gone h
      | inr (sock, is) ↦ rw is (udp_write-keeps id iod_id bytes (io.write sock.handle bytes))
    ]

    try_read-keeps : (io : Answers) (id : ℕ) → P (try_read io id p).1
    unfolding try_read
    try_read-keeps io id = elim (Option-cases (event_iod id p)) [
      | inl gone ↦ rw gone h
      | inr ((e, iod_id, iod), is) ↦ rw is (read_kind-keeps iod.kind id e iod_id iod io)
    ]

    try_write-keeps : (io : Answers) (id : ℕ) → P (try_write io id p).1
    unfolding try_write
    try_write-keeps io id = elim (Option-cases (event_iod id p)) [
      | inl gone ↦ rw gone h
      | inr ((e, iod_id, iod), is) ↦ elim (Option-cases e.wbuf) [
        | inl gone ↦ rw (is, gone) h
        | inr (bytes, full) ↦ rw (is, full) (write_kind-keeps iod.kind id iod_id iod bytes io)
      ]
    ]

    try_found-keeps : (o : Option Pending) (io : Answers) (id : ℕ) → P (try_found o io id p).1
    unfolding try_found try_kind
    try_found-keeps none io id = h
    try_found-keeps (some e) io id = by_kind e.kind
      where
        by_kind : (kind : EventType) → P (try_kind kind io id p).1
        by_kind connect = h
        by_kind read = try_read-keeps io id
        by_kind write = try_write-keeps io id
        by_kind timer = h

  pub try_events-keeps :
      (io : Answers) (ids : List ℕ) (ds : List (ℕ × EventStatus)) (p : Pool)
      → P p
      → P (try_events io ids ds p).1
  unfolding try_events
  try_events-keeps io [] ds p h = h
  try_events-keeps io (id ∷ ids) ds p h =
      if_both (λ (x : List (ℕ × EventStatus) × Pool). P x.1) (mentions id ds)
        (try_events-keeps io ids ds p h)
        (try_events-keeps io ids (appended ds id (try_found (find_event id p.pending) io id p).0)
          (try_found (find_event id p.pending) io id p).1
          (try_found-keeps p h (find_event id p.pending) io id))
