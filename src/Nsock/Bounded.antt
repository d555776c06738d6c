-- ===== src/Nsock/Bounded.antt =====
-- `connect_bounded` of wnr-nsock/src/pool.rs, which the thread of a connect runs, over the calls of
-- `connect_timeout` and their durations in milliseconds.
use we_nmap_in_rust.Prelude.{
  ℕ, ◌+◌, ◌*◌, ◌≤◌, ◌≡◌, List, [], ◌∷◌, Option, none, some, Bool, true, false, ltb, ltb→lt,
  if◌then◌else◌, length, arith, Option-cases, inl, inr, if_cases,
}
use we_nmap_in_rust.Net.{Socket}
use we_nmap_in_rust.Nsock.{Cmd, connect_result}

-- A call of `connect_timeout`: how long it takes, and the stream or an error.
pub record Attempt : Type 0 where
  pub took : ℕ
  pub result : Option Socket

-- The result: a stream, the error of the last call, or the time-out that stands for no call at all.
pub data Outcome : Type 0 where
  stream : Socket → Outcome
  last_error : Outcome
  no_attempt : Outcome

abbrev pub failure : Bool → Outcome
failure true = last_error
failure false = no_attempt

-- The loop, from a time, with whether a call has failed: the time of the return and the result, or
-- `none` if the calls are used up before. A call that fails is followed by a sleep.
unfoldable pub connect_bounded : ℕ → List Attempt → ℕ → Bool → Option (ℕ × Outcome)
connect_bounded deadline [] now failed =
    if ltb now deadline then none else some (now, failure failed)
connect_bounded deadline (a ∷ attempts) now failed =
    let rest = connect_bounded deadline attempts (now + a.took + 10) true in
    if ltb now deadline
    then elim a.result [ some s ↦ some (now + a.took, stream s) | none ↦ rest ]
    else some (now, failure failed)

-- The command that the thread sends.
abbrev pub result_of : Outcome → Option Socket
result_of (stream s) = some s
result_of last_error = none
result_of no_attempt = none

unfoldable pub connect_command : ℕ → ℕ × Outcome → Cmd
connect_command iod_id (time, outcome) = connect_result iod_id (result_of outcome)

-- A return with a stream, or not before a time.
abbrev pub Late : ℕ → Option (ℕ × Outcome) → Type 0
Late deadline none = ⊥
Late deadline (some (time, stream s)) = Unit
Late deadline (some (time, last_error)) = deadline ≤ time
Late deadline (some (time, no_attempt)) = deadline ≤ time

failed-Late :
    (deadline now : ℕ) (failed : Bool)
    → ltb now deadline ≡ false
    → Late deadline (some (now, failure failed))
failed-Late deadline now true h = ground (arith, h)
failed-Late deadline now false h = ground (arith, h)

-- connect_bounded returns once its calls and sleeps, of which each sleep takes ten milliseconds, reach
-- the deadline; and what it returns before the deadline is a stream, never an error.
pub connect_bounded-Late :
    (deadline : ℕ) (attempts : List Attempt) (now : ℕ) (failed : Bool)
    → deadline ≤ now + 10 * length attempts
    → Late deadline (connect_bounded deadline attempts now failed)
unfolding connect_bounded
connect_bounded-Late deadline [] now failed h =
    if_cases (Late deadline) (ltb now deadline)
      (λ early. absurd (omega (arith, h, ltb→lt now deadline early)))
      (failed-Late deadline now failed)
connect_bounded-Late deadline (a ∷ attempts) now failed h =
    if_cases (Late deadline) (ltb now deadline)
      (λ early. elim (Option-cases a.result) [
        | inl refused ↦
            rw refused
              (connect_bounded-Late deadline attempts (now + a.took + 10) true (omega (arith, h)))
        | inr (s, is) ↦ rw is tt
      ])
      (failed-Late deadline now failed)
