-- ===== src/Cli/Scans.antt =====
-- A scan of wnr/src/main.rs over the pool, and the ports that it reports.
use we_nmap_in_rust.Prelude.{
  ℕ, suc, ◌+◌, ◌^◌, ◌<◌, ◌≤◌, ◌≡◌, refl, ap, ◌∙◌, List, [], ◌∷◌, Option, none, some, Bool, true,
  false, ◌%◌, if◌then◌else◌, length, All, arith, le→leb,
}
use mathlib.Core.Path.{subst}
use mathlib.Core.List.{Memᴰ}
use we_nmap_in_rust.Prelude.Text.{Text}
use we_nmap_in_rust.Nsock.{Pending, Pool, new, EventStatus, next_id}
use we_nmap_in_rust.Nsock.Start.{or_hour, create_iod_tcp, connect_tcp}
use we_nmap_in_rust.Nsock.Loop.{Round, run}
use we_nmap_in_rust.Nsock.Connects.{Absent, remove_event-Absent}
use we_nmap_in_rust.Nsock.Connects.Finish.{NoQuit, Waits}
use we_nmap_in_rust.Nsock.Connects.Ended.{Due, Answered, run-Answered}
use we_nmap_in_rust.Cli.{
  ScanArgs, scan_args, or_hundred, start_scan, count_open, count_closed, fetch_add, is_success,
  scanned, no_args, scan_host, scan_with, cmd_scan,
}

-- A pool on which a number of connects was started, that are due at the last time, and nothing else.
record Started (count : ℕ) (last : ℕ) (p : Pool) : Type 0 where
  waits : Waits count (Due last) p
  given_out : All (λ (e : Pending). e.id ≤ count) p.pending
  counted : p.event_counter ≡ count

below-Absent :
    (count : ℕ) (xs : List Pending) → All (λ (e : Pending). e.id ≤ count) xs → Absent (suc count) xs
below-Absent count [] h = tt
below-Absent count (e ∷ xs) h = (ground (arith, h.0), below-Absent count xs h.1)

wider :
    (count : ℕ) (xs : List Pending)
    → All (λ (e : Pending). e.id ≤ count) xs
    → All (λ (e : Pending). e.id ≤ suc count) xs
wider count [] h = tt
wider count (e ∷ xs) h = (omega (arith, h.0), wider count xs h.1)

next_id-small : (count c : ℕ) → c ≡ count → suc count < 2 ^ 64 → next_id c ≡ suc count
next_id-small count c e h = omega arith

connect-Started :
    (count now last : ℕ) (timeout : Option ℕ) (p : Pool)
    → suc count < 2 ^ 64
    → now + or_hour timeout ≤ last
    → Started count last p
    → Started (suc count) last (connect_tcp now (create_iod_tcp p).0 timeout (create_iod_tcp p).1).1
unfolding create_iod_tcp connect_tcp
connect-Started count now last timeout p room soon h =
    let absent = below-Absent count p.pending h.given_out in
    rw
      (
        next_id-small count p.event_counter h.counted room,
        remove_event-Absent (suc count) p.pending absent,
      )
      (record {
        waits = record {
          connecting = record {
            plain = ((refl, refl, refl), h.waits.connecting.plain);
            distinct = (absent, h.waits.connecting.distinct);
            count = omega (arith, h.waits.connecting.count);
          };
          all = (le→leb (now + or_hour timeout) last soon, h.waits.all);
          open_loop = h.waits.open_loop;
          queued = h.waits.queued;
        };
        given_out = (omega arith, wider count p.pending h.given_out);
        counted = refl;
      })

start_scan-Started :
    (count last : ℕ) (clock : ℕ → ℕ) (timeout : Option ℕ) (ports : List ℕ) (p : Pool)
    → count + length ports < 2 ^ 64
    → ((i : ℕ) → clock i + or_hour timeout ≤ last)
    → Started count last p
    → Started (count + length ports) last (start_scan clock timeout ports p)
unfolding start_scan
start_scan-Started count last clock timeout [] p room soon h =
    subst (λ n. Started n last p) (omega arith) h
start_scan-Started count last clock timeout (port ∷ ports) p room soon h =
    subst (λ n. Started n last (start_scan clock timeout (port ∷ ports) p)) (omega arith)
      (start_scan-Started (suc count) last clock timeout ports _ (omega arith) soon (
        connect-Started count (clock (length ports)) last timeout p (omega arith)
          (soon (length ports)) h))

new-Started : (last : ℕ) → Started 0 last (new 0)
unfolding new
new-Started last = record {
  waits = record {
    connecting = record { plain = tt; distinct = tt; count = refl };
    all = tt;
    open_loop = refl;
    queued = tt;
  };
  given_out = tt;
  counted = refl;
}

-- A scan's loop, if no command to quit is sent and a round comes after the timeout of every port: it
-- ends because nothing waits, and for every port a handler was called.
pub scan-Answered :
    (clock : ℕ → ℕ) (timeout : Option ℕ) (ports : List ℕ) (r : Round) (rounds : List Round)
    → length ports < 2 ^ 64
    → All (λ (s : Round). NoQuit s.arrived) rounds
    → Memᴰ r rounds
    → ((i : ℕ) → clock i + or_hour timeout ≤ r.now)
    → Answered (length ports) (run none rounds (start_scan clock timeout ports (new 0)))
scan-Answered clock timeout ports r rounds room quiet m late =
    let started =
      start_scan-Started 0 r.now clock timeout ports (new 0) (omega arith) late
        (new-Started r.now) in
    subst (λ n. Answered n (run none rounds (start_scan clock timeout ports (new 0)))) (omega arith)
      (run-Answered (0 + length ports) r rounds (start_scan clock timeout ports (new 0)) quiet m
        started.waits)

-- Counters of 32 bits do not wrap on so few calls.
open-closed :
    (fired : List (ℕ × EventStatus))
    → length fired < 2 ^ 32
    → count_open fired + count_closed fired ≡ length fired
open-closed [] h = omega arith
open-closed (f ∷ fired) h = counted (is_success f.1) (open-closed fired (omega (arith, h)))
  where
    counted :
        (b : Bool)
        → count_open fired + count_closed fired ≡ length fired
        → (if b then fetch_add (count_open fired) else count_open fired)
            + (if b then count_closed fired else fetch_add (count_closed fired))
          ≡ suc (length fired)
    counted true e = omega (arith, e, h)
    counted false e = omega (arith, e, h)

small : (n m : ℕ) → n ≡ m → m < 2 ^ 32 → n % 2 ^ 32 ≡ m
small n m e h = omega (arith, e, h)

-- `cmd_scan` with a host that resolves and fewer than 2 ^ 32 ports, if no command to quit is sent to
-- the loop and a round comes after the timeout of every port: it reports that as many ports responded
-- as the scan has, and the open and the closed ports of the report add up to them.
pub cmd_scan-scanned :
    (resolves : Text → Bool) (clock : ℕ → ℕ) (rounds : List Round) (args : List Text) (s : ScanArgs)
    (host : Text) (r : Round)
    → scan_args args no_args ≡ s
    → s.host ≡ some host
    → resolves host ≡ true
    → length (or_hundred s.ports) < 2 ^ 32
    → All (λ (x : Round). NoQuit x.arrived) rounds
    → Memᴰ r rounds
    → ((i : ℕ) → clock i + or_hour s.timeout ≤ r.now)
    → (opened : ℕ) × (closed : ℕ) × (cmd_scan resolves clock rounds args
        ≡ scanned host (length (or_hundred s.ports)) (length (or_hundred s.ports)) opened closed)
      × (opened + closed ≡ length (or_hundred s.ports))
unfolding cmd_scan
cmd_scan-scanned resolves clock rounds args s host r parsed given found room quiet m late =
    let ports = or_hundred s.ports in
    let fired = (run none rounds (start_scan clock s.timeout ports (new 0))).1.fired in
    let answered =
      scan-Answered clock s.timeout ports r rounds (omega (arith, room)) quiet m late in
    let sum : count_open fired + count_closed fired ≡ length ports =
      open-closed fired (omega (arith, answered.2, room)) ∙ answered.2 in
    (
      count_open fired,
      count_closed fired,
      ap (scan_with resolves clock rounds) parsed
          ∙ ap (scan_host resolves clock rounds ports s.timeout) given
          ∙ rw found (
              ap (λ n. scanned host n (length ports) (count_open fired) (count_closed fired))
                (small (count_open fired + count_closed fired) (length ports) sum room)),
      sum,
    )
