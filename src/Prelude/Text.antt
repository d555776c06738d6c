-- ===== src/Prelude/Text.antt =====
-- `str` of the standard library: a text is the list of its code points.
pub mod Words
use Prim.Native.Nat.{ℕ, zero, suc, ◌+◌, ◌-◌, ◌*◌, ◌≤◌, ◌<◌}
use Prim.Native.Char.{code}
use Prim.Native.String.{String}
use mathlib.Core.Bool.{Bool, true, false, not, ◌&&◌, ◌||◌}
use mathlib.Core.Option.{Option, none, some}
use mathlib.Core.List.{List, [], ◌∷◌}
use we_nmap_in_rust.Prelude.Tests.{leb, ltb, ◌==◌, if◌then◌else◌, ◌>>=◌}

abbrev pub Text : Type 0
Text = List ℕ

-- The code points of a literal.
abbrev pub chars : String → Text
chars String.[] = []
chars (String.◌∷◌ c s) = code c ∷ chars s

-- `char::is_whitespace`: the code points that Unicode calls white space.
unfoldable pub is_whitespace : ℕ → Bool
is_whitespace c =
    (leb 9 c && leb c 13)
    || c == 32
    || c == 0x85
    || c == 0xa0
    || c == 0x1680
    || (leb 0x2000 c && leb c 0x200a)
    || c == 0x2028
    || c == 0x2029
    || c == 0x202f
    || c == 0x205f
    || c == 0x3000

-- `to_ascii_lowercase`.
unfoldable pub lower_char : ℕ → ℕ
lower_char c = if leb b'A' c && leb c b'Z' then c + 32 else c

abbrev pub lowercase : Text → Text
lowercase [] = []
lowercase (c ∷ s) = lower_char c ∷ lowercase s

-- `contains(c)`.
abbrev pub contains : ℕ → Text → Bool
contains c [] = false
contains c (x ∷ s) = if x == c then true else contains c s

abbrev pub is_empty : Text → Bool
is_empty [] = true
is_empty (c ∷ s) = false

-- A piece of a split, longer by one character at its front.
abbrev pub longer : ℕ → List Text → List Text
longer c [] = (c ∷ []) ∷ []
longer c (w ∷ ws) = (c ∷ w) ∷ ws

-- The pieces between the characters that `ends` holds of.
unfoldable pub split_by : (ℕ → Bool) → Text → List Text
split_by ends [] = [] ∷ []
split_by ends (c ∷ s) = let rest = split_by ends s in if ends c then [] ∷ rest else longer c rest

-- `split(c)`.
abbrev pub split : ℕ → Text → List Text
split c s = split_by (λ x. x == c) s

abbrev pub not_empty : List Text → List Text
not_empty [] = []
not_empty (w ∷ ws) = if is_empty w then not_empty ws else w ∷ not_empty ws

-- `split_whitespace`.
abbrev pub split_whitespace : Text → List Text
split_whitespace s = not_empty (split_by is_whitespace s)

unfoldable pub trim_start : Text → Text
unfolding is_whitespace
trim_start [] = []
trim_start (c ∷ s) = let rest = trim_start s in if is_whitespace c then rest else c ∷ s

unfoldable pub trim_end : Text → Text
unfolding is_whitespace
trim_end [] = []
trim_end (c ∷ s) =
    let rest = trim_end s in if is_empty rest && is_whitespace c then [] else c ∷ rest

-- `trim`.
abbrev pub trim : Text → Text
trim s = trim_end (trim_start s)

-- `char::to_digit`, for a radix of at most 16.
unfoldable pub to_digit : ℕ → ℕ → Option ℕ
to_digit radix c =
    let d =
      if leb b'0' c && leb c b'9'
      then c - b'0'
      else if leb b'a' c && leb c b'f'
      then c - b'a' + 10
      else if leb b'A' c && leb c b'F'
      then c - b'A' + 10
      else radix in
    if ltb d radix then some d else none

-- The digits of `from_str_radix`, behind those that make `n`; `max` is the largest value of the type.
unfoldable pub read_digits : ℕ → ℕ → ℕ → Text → Option ℕ
unfolding to_digit
read_digits radix max n [] = some n
read_digits radix max n (c ∷ s) = to_digit radix c >>= λ d.
    let m = n * radix + d in
    let rest = read_digits radix max m s in if ltb max m then none else rest

-- `from_str_radix` of an unsigned type: one `+` is allowed before the digits.
unfoldable pub from_str_radix : ℕ → ℕ → Text → Option ℕ
unfolding read_digits
from_str_radix radix max [] = none
from_str_radix radix max (c ∷ []) =
    if c == b'+' || c == b'-' then none else read_digits radix max 0 (c ∷ [])
from_str_radix radix max (c ∷ d ∷ s) =
    if c == b'+' then read_digits radix max 0 (d ∷ s) else read_digits radix max 0 (c ∷ d ∷ s)

-- `parse::<u16>()`.
abbrev pub parse_u16 : Text → Option ℕ
parse_u16 s = from_str_radix 10 65535 s
