-- ===== src/Nsock/Tests.antt =====
-- A timer and a read on a small pool, and the theorems at concrete runs.
use we_nmap_in_rust.Prelude.{
  ◌≤◌, ◌↔◌, map, All, ◌≡◌, refl, List, [], ◌∷◌, none, some, true, false, inr, arith,
}
use mathlib.Core.List.{Memᴰ}
use we_nmap_in_rust.Net.{Socket}
use we_nmap_in_rust.Nsock.{EventStatus, success, no_events, Pool, new, has_pending}
use we_nmap_in_rust.Nsock.Start.{create_iod_tcp_from, read_event, timer_create}
use we_nmap_in_rust.Nsock.Close.{cancel, delete_iod, delete}
use we_nmap_in_rust.Nsock.Io.{ok, would_block, Answers, try_read, try_write}
use we_nmap_in_rust.Nsock.Loop.{
  Round, run, rounds, round, collect, drain, deliver, try_events, due_events, drain_commands,
  try_kind, try_found,
}
use we_nmap_in_rust.Nsock.Once.{FiredOnce}
use we_nmap_in_rust.Nsock.Operations.{
  Op, op_create_iod_tcp_from, op_read, op_timer_create, op_cancel, op_run, op_delete, perform,
  perform_all,
}
use we_nmap_in_rust.Nsock.Once.Operations.{fired_once}
use we_nmap_in_rust.Nsock.Kept.Accounted.{FiredOrWaits, fired_or_waits}
use we_nmap_in_rust.Nsock.Kept.Deadlines.{Timed, HasFired}
use we_nmap_in_rust.Nsock.Kept.Fires.{run-HasFired}
use we_nmap_in_rust.Nsock.Kept.Cancelled.{HasDone, cancel-HasDone}
use we_nmap_in_rust.Nsock.Nap.{nap, nearest_deadline, EndsBy, nap_lem}
use we_nmap_in_rust.Nsock.Bounded.{Attempt, connect_bounded, Late, connect_bounded-Late}
use we_nmap_in_rust.Nsock.Ends.{Returned, run-Returned}

abbrev stream : Socket
stream = record { handle = 7; peer_addr = none }

-- Sockets that give the bytes "hi" to every read and take no byte.
abbrev answers : Answers
answers = record { read = λ _. ok (104 ∷ 105 ∷ []); write = λ _ _. would_block }

abbrev first_round : Round
first_round = record { arrived = []; now = 5; answers = answers; elapsed = 5 }

abbrev second_round : Round
second_round = record { arrived = []; now = 120; answers = answers; elapsed = 120 }

-- A read, a timer of 100 milliseconds that is cancelled, another one, and two rounds of the loop.
abbrev ops : List Op
ops =
    op_create_iod_tcp_from stream
    ∷ op_read 0 1 none
    ∷ op_timer_create 0 100
    ∷ op_cancel 2 true
    ∷ op_timer_create 0 100
    ∷ op_run none (first_round ∷ second_round ∷ [])
    ∷ op_delete
    ∷ []

all_three_fired :
    (perform_all ops (new 0)).fired ≡ (3, success) ∷ (1, success) ∷ (2, EventStatus.cancelled) ∷ []
unfolding perform_all perform new create_iod_tcp_from read_event timer_create cancel delete
    delete_iod run rounds round collect drain deliver try_events due_events drain_commands try_kind
    try_found try_read try_write has_pending
all_three_fired = refl

fired_once_example : FiredOnce (perform_all ops (new 0)).fired
fired_once_example = fired_once 0 ops (omega arith)

-- A timer that is still waiting.
abbrev timer_pool : Pool
unfolding timer_create new
timer_pool = (timer_create 0 1000 (new 0)).1

run-Returned_example : Returned (run (some 100) (first_round ∷ second_round ∷ []) timer_pool)
run-Returned_example =
    run-Returned 100 (first_round ∷ second_round ∷ []) second_round timer_pool
      (Memᴰ.tail (Memᴰ.head refl)) (omega arith)

three_started : (perform_all ops (new 0)).event_counter ≡ 3
unfolding perform_all perform new create_iod_tcp_from read_event timer_create cancel delete
    delete_iod run rounds round collect drain deliver try_events due_events drain_commands try_kind
    try_found try_read try_write has_pending
three_started = refl

fired_or_waits_example : FiredOrWaits 2 (perform_all ops (new 0))
fired_or_waits_example =
    fired_or_waits 0 ops (omega arith) (tt, (tt, (tt, (refl, (tt, (tt, (tt, tt))))))) 2
      (omega arith) (omega (arith, three_started))

-- A timer of 100 milliseconds.
abbrev one_timer : List Op
one_timer = op_timer_create 0 100 ∷ []

one_started : (perform_all one_timer (new 0)).event_counter ≡ 1
unfolding perform_all perform timer_create new
one_started = refl

one-Timed : Timed 1 120 (perform_all one_timer (new 0))
unfolding perform_all perform timer_create new
one-Timed = ((λ _. refl), tt)

one_ran : (run none (second_round ∷ []) (perform_all one_timer (new 0))).0 ≡ some no_events
unfolding perform_all perform timer_create new run rounds round collect drain deliver try_events
    due_events drain_commands try_kind try_found has_pending
one_ran = refl

run-HasFired_example : HasFired 1 (run none (second_round ∷ []) (perform_all one_timer (new 0))).1
run-HasFired_example =
    run-HasFired 0 one_timer 1 none second_round (second_round ∷ []) (omega arith) (tt, tt)
      (omega arith) (omega (arith, one_started)) one-Timed (Memᴰ.head refl) (inr one_ran)

cancel-HasDone_example :
    HasDone 1 (run (some 100) (first_round ∷ []) (cancel 1 false timer_pool).1).1
unfolding timer_pool
cancel-HasDone_example = cancel-HasDone 1 false (some 100) (first_round ∷ []) timer_pool refl

nap_lem_example : (3 ≤ nap 997 timer_pool) ↔ ((3 ≤ 5) × All (EndsBy 997 3) timer_pool.pending)
nap_lem_example = nap_lem 997 3 timer_pool

-- Long before its deadline, three milliseconds before it, and after it.
naps : map (λ now. nap now timer_pool) (0 ∷ 997 ∷ 1200 ∷ []) ≡ 5 ∷ 3 ∷ 0 ∷ []
unfolding nap nearest_deadline timer_create new timer_pool
naps = refl

-- A port that refuses, asked from 0 to 20.
abbrev refusal : Attempt
refusal = record { took = 1; result = none }

connect_bounded-Late_example : Late 20 (connect_bounded 20 (refusal ∷ refusal ∷ []) 0 false)
connect_bounded-Late_example =
    connect_bounded-Late 20 (refusal ∷ refusal ∷ []) 0 false (omega arith)
