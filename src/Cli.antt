-- ===== src/Cli.antt =====
-- wnr/src/main.rs: the arguments of the commands, the list of ports, and a scan over a pool.
pub mod PortList
pub mod Pcap
pub mod Scans
pub mod Routes
pub mod Interfaces
mod Tests
use we_nmap_in_rust.Prelude.{
  ℕ, zero, suc, ◌+◌, ◌-◌, ◌%◌, ◌^◌, ◌*◌, max, List, [], ◌∷◌, ◌++◌, Option, none, some, Bool, true,
  false, not, leb, ltb, ◌==◌, ◌||◌, ◌&&◌, if◌then◌else◌, length,
}
use we_nmap_in_rust.Prelude.Bytes.{bytes_eq}
use we_nmap_in_rust.Prelude.Text.{Text, chars, contains, split, parse_u16, read_digits}
use we_nmap_in_rust.Nsock.{EventStatus, success, Pool, new}
use we_nmap_in_rust.Nsock.Start.{create_iod_tcp, connect_tcp}
use we_nmap_in_rust.Nsock.Loop.{Round, run}

-- `unwrap_or`.
abbrev pub or_default {ℓ} : {A : Type ℓ} → A → Option A → A
or_default d none = d
or_default d (some a) = a

-- The first two pieces of a part cut at `-`.
abbrev first_piece : List Text → Option ℕ
first_piece [] = none
first_piece (a ∷ pieces) = parse_u16 a

abbrev second_piece : List Text → Option ℕ
second_piece [] = none
second_piece (a ∷ []) = none
second_piece (a ∷ b ∷ pieces) = parse_u16 b

abbrev pub range_start : Text → ℕ
range_start part = or_default 0 (first_piece (split b'-' part))

abbrev pub range_end : Text → ℕ
range_end part = or_default (range_start part) (second_piece (split b'-' part))

abbrev pub has : ℕ → List ℕ → Bool
has p [] = false
has p (q ∷ ports) = p == q || has p ports

-- The set `seen` and the vector `out`.
pub record Ports : Type 0 where
  pub seen : List ℕ
  pub out : List ℕ

-- `if seen.insert(p) { out.push(p) }`.
unfoldable pub insert : ℕ → Ports → Ports
insert p s = if has p s.seen then s else record { seen = p ∷ s.seen; out = s.out ++ (p ∷ []) }

-- `for p in a..=b`, of `n` numbers from `a` on.
unfoldable pub insert_range : ℕ → ℕ → Ports → Ports
unfolding insert
insert_range zero a s = s
insert_range (suc n) a s = insert_range n (suc a) (insert a s)

abbrev pub insert_parsed : Option ℕ → Ports → Ports
insert_parsed none s = s
insert_parsed (some p) s = insert p s

unfoldable pub insert_part : Text → Ports → Ports
unfolding insert_range
insert_part part s =
    if contains b'-' part
    then insert_range (suc (max (range_end part) (range_start part)) - range_start part)
        (range_start part) s
    else insert_parsed (parse_u16 part) s

unfoldable pub insert_parts : List Text → Ports → Ports
unfolding insert_part
insert_parts [] s = s
insert_parts (part ∷ parts) s = insert_parts parts (insert_part part s)

unfoldable pub parse_ports : Text → List ℕ
unfolding insert_parts
parse_ports spec = (insert_parts (split b',' spec) (record { seen = []; out = [] })).out

-- `parse::<i32>()` of a timeout: a negative number is a timeout of `none`.
abbrev signed : Option ℕ → Option (Option ℕ)
signed none = none
signed (some n) = if n == 0 then some (some 0) else some none

abbrev unsigned : Option ℕ → Option (Option ℕ)
unsigned none = none
unsigned (some n) = some (some n)

unfoldable pub parse_timeout : Text → Option (Option ℕ)
unfolding read_digits
parse_timeout [] = none
parse_timeout (c ∷ []) =
    if c == b'-' || c == b'+' then none else unsigned (read_digits 10 (2 ^ 31 - 1) 0 (c ∷ []))
parse_timeout (c ∷ d ∷ s) =
    if c == b'-'
    then signed (read_digits 10 (2 ^ 31) 0 (d ∷ s))
    else if c == b'+'
    then unsigned (read_digits 10 (2 ^ 31 - 1) 0 (d ∷ s))
    else unsigned (read_digits 10 (2 ^ 31 - 1) 0 (c ∷ d ∷ s))

-- `starts_with('-')`.
abbrev pub is_option : Text → Bool
is_option [] = false
is_option (c ∷ s) = c == b'-'

pub record ScanArgs : Type 0 where
  pub host : Option Text
  pub ports : List ℕ
  pub timeout : Option ℕ

-- An argument that stands alone, or whose value is missing.
abbrev pub scan_alone : Text → ScanArgs → ScanArgs
scan_alone a s = if is_option a then s else record s { host = some a }

abbrev pub takes_value : Text → Bool
takes_value a =
    bytes_eq a (chars "-p") || bytes_eq a (chars "--timeout") || bytes_eq a (chars "--filter")

-- An option with its value. That of `--filter` is not used.
abbrev pub scan_value : Text → Text → ScanArgs → ScanArgs
scan_value a v s =
    if bytes_eq a (chars "-p")
    then record s { ports = s.ports ++ parse_ports v }
    else if bytes_eq a (chars "--timeout")
    then record s { timeout = or_default (some 3000) (parse_timeout v) }
    else s

-- The loop over the arguments of `cmd_scan`.
unfoldable pub scan_args : List Text → ScanArgs → ScanArgs
unfolding parse_ports parse_timeout bytes_eq
scan_args [] s = s
scan_args (a ∷ []) s = scan_alone a s
scan_args (a ∷ v ∷ args) s =
    if takes_value a
    then scan_args args (scan_value a v s)
    else scan_args (v ∷ args) (scan_alone a s)

-- `1..=100`, for a scan without ports.
abbrev count_up : ℕ → ℕ → List ℕ
count_up zero a = []
count_up (suc n) a = a ∷ count_up n (suc a)

abbrev pub or_hundred : List ℕ → List ℕ
or_hundred [] = count_up 100 1
or_hundred (p ∷ ports) = p ∷ ports

-- One descriptor and one connect for every port. The clock says when each starts, by the number of
-- the ports behind it.
unfoldable pub start_scan : (ℕ → ℕ) → Option ℕ → List ℕ → Pool → Pool
unfolding create_iod_tcp connect_tcp
start_scan clock timeout [] p = p
start_scan clock timeout (port ∷ ports) p =
    let (iod, with_iod) = create_iod_tcp p in
    start_scan clock timeout ports (connect_tcp (clock (length ports)) iod timeout with_iod).1

abbrev pub is_success : EventStatus → Bool
is_success success = true
is_success _ = false

-- `fetch_add(1)` of an `AtomicU32`.
abbrev pub fetch_add : ℕ → ℕ
fetch_add n = (n + 1) % 2 ^ 32

abbrev pub count_open : List (ℕ × EventStatus) → ℕ
count_open [] = 0
count_open (f ∷ fired) = if is_success f.1 then fetch_add (count_open fired) else count_open fired

abbrev pub count_closed : List (ℕ × EventStatus) → ℕ
count_closed [] = 0
count_closed (f ∷ fired) =
    if is_success f.1 then count_closed fired else fetch_add (count_closed fired)

-- What `cmd_scan` prints at its end, or the error that it prints instead.
pub data ScanReport : Type 0 where
  no_host : ScanReport
  unresolved : Text → ScanReport
  scanned : (host : Text) (responded total open_ports closed_ports : ℕ) → ScanReport

abbrev reported : Text → ℕ → Pool → ScanReport
reported host total p =
    let open_ports = count_open p.fired in
    let closed_ports = count_closed p.fired in
    scanned host ((open_ports + closed_ports) % 2 ^ 32) total open_ports closed_ports

abbrev pub no_args : ScanArgs
no_args = record { host = none; ports = []; timeout = some 3000 }

abbrev pub scan_host :
    (Text → Bool) → (ℕ → ℕ) → List Round → List ℕ → Option ℕ → Option Text → ScanReport
scan_host resolves clock rounds ports timeout none = no_host
scan_host resolves clock rounds ports timeout (some host) =
    if not (resolves host)
    then unresolved host
    else reported host (length ports) (run none rounds (start_scan clock timeout ports (new 0))).1

abbrev pub scan_with : (Text → Bool) → (ℕ → ℕ) → List Round → ScanArgs → ScanReport
scan_with resolves clock rounds s =
    scan_host resolves clock rounds (or_hundred s.ports) s.timeout s.host

-- `cmd_scan`: a resolver that says whether a host has an address, the clock at the starts, and what
-- every round of the loop meets.
unfoldable pub cmd_scan : (Text → Bool) → (ℕ → ℕ) → List Round → List Text → ScanReport
unfolding scan_args start_scan run new
cmd_scan resolves clock rounds args = scan_with resolves clock rounds (scan_args args no_args)
