-- ===== src/Eth/Text.antt =====
-- `eth_ntop` and `eth_pton` of wnr-dnet/src/eth.rs: hardware addresses as text.
use we_nmap_in_rust.Prelude.{
  ℕ, ◌+◌, ◌-◌, ◌*◌, ◌/◌, ◌%◌, ◌^◌, ◌≡◌, refl, ap, ◌∙◌, List, [], ◌∷◌, Option, none, some, ◌>>=◌,
  Bool, true, false, ◌&&◌, ltb, ◌==◌, if◌then◌else◌, length, All, arith, map, length-map,
}
use we_nmap_in_rust.Prelude.Bits.{holds_below, holds_below_sound, both, reads_back, reads_back-some}
use we_nmap_in_rust.Prelude.Bytes.{IsByte}
use we_nmap_in_rust.Prelude.Text.{
  Text, contains, trim, is_whitespace, split, to_digit, from_str_radix,
}
use we_nmap_in_rust.Prelude.Text.Words.{
  IsWord, is_word, is_word-IsWord, join, split_by-join, join-IsWord, contains-append, trim-IsWord,
}
use we_nmap_in_rust.Eth.{EthAddr, eth_addr}

-- `u8::from_str_radix(p, 16)`.
abbrev pub parse_hex : Text → Option ℕ
parse_hex p = from_str_radix 16 255 p

-- The loop over the parts: every one must be a number.
abbrev pub parse_all : List Text → Option (List ℕ)
parse_all [] = some []
parse_all (p ∷ ps) = parse_hex p >>= λ b. parse_all ps >>= λ bs. some (b ∷ bs)

-- The forms with a separator: six parts.
unfoldable pub parse_parts : List Text → Option EthAddr
parse_parts parts =
    if length parts == 6 then (parse_all parts >>= λ bytes. some (eth_addr bytes)) else none

-- `filter(|c| c.is_ascii_hexdigit())`.
abbrev is_some : Option ℕ → Bool
is_some none = false
is_some (some d) = true

abbrev pub hex_digits : Text → Text
hex_digits [] = []
hex_digits (c ∷ s) = if is_some (to_digit 16 c) then c ∷ hex_digits s else hex_digits s

-- Two digits to a byte.
abbrev pub digit_pairs : Text → Option (List ℕ)
digit_pairs (h ∷ l ∷ s) = parse_hex (h ∷ []) >>= λ hi.
    parse_hex (l ∷ []) >>= λ lo. digit_pairs s >>= λ bs. some ((hi * 2 ^ 4 + lo) ∷ bs)
digit_pairs _ = some []

-- The form without separators.
unfoldable pub parse_compact : Text → Option EthAddr
parse_compact digits =
    if length digits == 12 then (digit_pairs digits >>= λ bytes. some (eth_addr bytes)) else none

abbrev pub pton_trimmed : Text → Option EthAddr
pton_trimmed s =
    if contains b':' s
    then parse_parts (split b':' s)
    else if contains b'-' s
    then parse_parts (split b'-' s)
    else parse_compact (hex_digits s)

unfoldable pub eth_pton : Text → Option EthAddr
unfolding parse_parts parse_compact
eth_pton s = pton_trimmed (trim s)

-- One digit of `{:02x}`, and both.
abbrev pub hex_digit : ℕ → ℕ
hex_digit d = if ltb d 10 then b'0' + d else b'a' + d - 10

unfoldable pub print_hex : ℕ → Text
print_hex b = hex_digit (b / 16) ∷ hex_digit (b % 16) ∷ []

unfoldable pub eth_ntop : EthAddr → Text
unfolding print_hex
eth_ntop a = join b':' (map print_hex a.octets)

-- The digits of a byte: read back, not white space, not a separator.
abbrev ByteText : ℕ → Type 0
ByteText b =
    (parse_hex (print_hex b) ≡ some b)
    × IsWord is_whitespace (print_hex b)
    × IsWord (λ x. x == b':') (print_hex b)
    × IsWord (λ x. x == b'.') (print_hex b)

abbrev is_byte_text : ℕ → Bool
is_byte_text b =
    reads_back b (parse_hex (print_hex b))
    && (is_word is_whitespace (print_hex b)
        && (is_word (λ x. x == b':') (print_hex b) && is_word (λ x. x == b'.') (print_hex b)))

hex_table : holds_below 256 is_byte_text ≡ true
unfolding holds_below from_str_radix print_hex is_whitespace
hex_table = refl

byte_text : (b : ℕ) → IsByte b → ByteText b
byte_text b h =
    let space = is_word is_whitespace (print_hex b) in
    let colon = is_word (λ x. x == b':') (print_hex b) in
    let dot = is_word (λ x. x == b'.') (print_hex b) in
    let facts = holds_below_sound 256 is_byte_text b hex_table (omega arith) in
    let (reads, words) =
      both (reads_back b (parse_hex (print_hex b))) (space && (colon && dot)) facts in
    let (no_space, others) = both space (colon && dot) words in
    let (no_colon, no_dot) = both colon dot others in
    (
      reads_back-some b (parse_hex (print_hex b)) reads,
      is_word-IsWord is_whitespace (print_hex b) no_space,
      is_word-IsWord (λ x. x == b':') (print_hex b) no_colon,
      is_word-IsWord (λ x. x == b'.') (print_hex b) no_dot,
    )

parse_all-print : (bytes : List ℕ) → All IsByte bytes → parse_all (map print_hex bytes) ≡ some bytes
parse_all-print [] h = refl
parse_all-print (b ∷ bytes) h = rw ((byte_text b h.0).0, parse_all-print bytes h.1) refl

words :
    (ends : ℕ → Bool) (bytes : List ℕ)
    → ((b : ℕ) → IsByte b → IsWord ends (print_hex b))
    → All IsByte bytes
    → All (IsWord ends) (map print_hex bytes)
words ends [] word h = tt
words ends (b ∷ bytes) word h = (word b h.0, words ends bytes word h.1)

pton-print :
    (bytes : List ℕ)
    → length bytes ≡ 6
    → All IsByte bytes
    → eth_pton (join b':' (map print_hex bytes)) ≡ some (eth_addr bytes)
unfolding eth_pton
pton-print [] six h = absurd (omega arith)
pton-print (x ∷ []) six h = absurd (omega arith)
pton-print (x ∷ y ∷ bytes) six h =
    ap pton_trimmed (
      trim-IsWord (join b':' (map print_hex (x ∷ y ∷ bytes))) (
        join-IsWord is_whitespace b':' (map print_hex (x ∷ y ∷ bytes))
          (unfold is_whitespace in refl)
          (words is_whitespace (x ∷ y ∷ bytes) (λ b k. (byte_text b k).1) h)))
    ∙ rw
        (
          contains-append b':' (print_hex x) (join b':' (map print_hex (y ∷ bytes))),
          split_by-join (λ c. c == b':') b':' (print_hex x) (map print_hex (y ∷ bytes)) refl
              (words (λ c. c == b':') (x ∷ y ∷ bytes) (λ b k. (byte_text b k).2) h),
          parse_parts,
          parse_all-print (x ∷ y ∷ bytes) h,
          length-map print_hex bytes,
        )
        (rw (six) refl)

has_colon :
    (bytes : List ℕ) → length bytes ≡ 6 → contains b':' (join b':' (map print_hex bytes)) ≡ true
has_colon [] six = absurd (omega arith)
has_colon (x ∷ []) six = absurd (omega arith)
has_colon (x ∷ y ∷ bytes) six =
    contains-append b':' (print_hex x) (join b':' (map print_hex (y ∷ bytes)))

-- An address of six bytes is read back from its print.
pub eth_pton-eth_ntop :
    (a : EthAddr) → length a.octets ≡ 6 → All IsByte a.octets → eth_pton (eth_ntop a) ≡ some a
unfolding eth_ntop
eth_pton-eth_ntop a six h = pton-print a.octets six h

-- The print of an address holds a colon, and neither white space nor a dot.
pub eth_ntop_has_colon : (a : EthAddr) → length a.octets ≡ 6 → contains b':' (eth_ntop a) ≡ true
unfolding eth_ntop
eth_ntop_has_colon a six = has_colon a.octets six

pub eth_ntop_no_space : (a : EthAddr) → All IsByte a.octets → IsWord is_whitespace (eth_ntop a)
unfolding eth_ntop
eth_ntop_no_space a h =
    join-IsWord is_whitespace b':' (map print_hex a.octets) (unfold is_whitespace in refl)
      (words is_whitespace a.octets (λ b k. (byte_text b k).1) h)

pub eth_ntop_no_dot : (a : EthAddr) → All IsByte a.octets → IsWord (λ x. x == b'.') (eth_ntop a)
unfolding eth_ntop
eth_ntop_no_dot a h =
    join-IsWord (λ x. x == b'.') b':' (map print_hex a.octets) refl
      (words (λ x. x == b'.') a.octets (λ b k. (byte_text b k).3) h)
