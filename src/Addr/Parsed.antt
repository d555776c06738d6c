-- ===== src/Addr/Parsed.antt =====
-- The numbers that the parsers of wnr-dnet/src/addr.rs and wnr-dnet/src/eth.rs read.
use we_nmap_in_rust.Prelude.{
  ℕ, zero, suc, ◌+◌, ◌*◌, ◌≤◌, ◌<◌, ◌≡◌, refl, ap, ◌∙◌, List, [], ◌∷◌, Option, none, some, ltb,
  ◌==◌, ◌||◌, length, All, arith, if_both, if_cases, IfSome, IfSome-bind, ==_iff,
}
use we_nmap_in_rust.Prelude.Bytes.{IsByte}
use we_nmap_in_rust.Prelude.Text.{
  Text, to_digit, from_str_radix, read_digits, contains, split, trim,
}
use we_nmap_in_rust.Net.Ipv4Text.{IsIpv4, parse_octet, octets_of, parse_ipv4}
use we_nmap_in_rust.Eth.{EthAddr}
use we_nmap_in_rust.Eth.Text.{
  parse_hex, parse_all, parse_parts, hex_digits, digit_pairs, parse_compact, eth_pton,
}

to_digit-lt : (radix c : ℕ) → IfSome (λ d. d < radix) (to_digit radix c)
unfolding to_digit
to_digit-lt radix c =
    if_cases (IfSome (λ d. d < radix)) (ltb _ radix) (λ e. ground (arith, e)) (λ _. tt)

parse_octet-IsByte : (s : Text) → IfSome IsByte (parse_octet s)
unfolding parse_octet
parse_octet-IsByte [] = tt
parse_octet-IsByte (a ∷ []) = weaken (to_digit 10 a) (to_digit-lt 10 a)
  where
    weaken : (o : Option ℕ) → IfSome (λ d. d < 10) o → IfSome IsByte o
    weaken none h = tt
    weaken (some d) h = omega arith
parse_octet-IsByte (a ∷ b ∷ []) =
    IfSome-bind (λ d. d < 10) IsByte (to_digit 10 a) _ (to_digit-lt 10 a)
      (λ x hx.
        IfSome-bind (λ d. d < 10) IsByte (to_digit 10 b) _ (to_digit-lt 10 b)
          (λ y hy. if_both (IfSome IsByte) (x == 0) tt (omega arith)))
parse_octet-IsByte (a ∷ b ∷ c ∷ []) =
    IfSome-bind (λ d. d < 10) IsByte (to_digit 10 a) _ (to_digit-lt 10 a)
      (λ x hx.
        IfSome-bind (λ d. d < 10) IsByte (to_digit 10 b) _ (to_digit-lt 10 b)
          (λ y hy.
            IfSome-bind (λ d. d < 10) IsByte (to_digit 10 c) _ (to_digit-lt 10 c)
              (λ z hz. if_both (IfSome IsByte) (x == 0) tt (
                if_cases (IfSome IsByte) (ltb 255 (x * 100 + y * 10 + z)) (λ _. tt)
                  (λ e. ground (arith, e))))))
parse_octet-IsByte (a ∷ b ∷ c ∷ d ∷ s) = tt

octets_of-IsIpv4 : (parts : List Text) → IfSome IsIpv4 (octets_of parts)
unfolding octets_of
octets_of-IsIpv4 [] = tt
octets_of-IsIpv4 (a ∷ []) = tt
octets_of-IsIpv4 (a ∷ b ∷ []) = tt
octets_of-IsIpv4 (a ∷ b ∷ c ∷ []) = tt
octets_of-IsIpv4 (a ∷ b ∷ c ∷ d ∷ []) =
    IfSome-bind IsByte IsIpv4 (parse_octet a) _ (parse_octet-IsByte a) (λ w hw.
      IfSome-bind IsByte IsIpv4 (parse_octet b) _ (parse_octet-IsByte b) (λ x hx.
        IfSome-bind IsByte IsIpv4 (parse_octet c) _ (parse_octet-IsByte c) (λ y hy.
          IfSome-bind IsByte IsIpv4 (parse_octet d) _ (parse_octet-IsByte d)
            (λ z hz. (hw, hx, hy, hz)))))
octets_of-IsIpv4 (a ∷ b ∷ c ∷ d ∷ e ∷ parts) = tt

pub parse_ipv4-IsIpv4 : (s : Text) → IfSome IsIpv4 (parse_ipv4 s)
unfolding parse_ipv4
parse_ipv4-IsIpv4 s = octets_of-IsIpv4 (split b'.' s)

read_digits-le :
    (radix max n : ℕ) (s : Text) → n ≤ max → IfSome (λ m. m ≤ max) (read_digits radix max n s)
unfolding read_digits
read_digits-le radix max n [] h = h
read_digits-le radix max n (c ∷ s) h =
    IfSome-bind (λ d. d < radix) (λ m. m ≤ max) (to_digit radix c) _ (to_digit-lt radix c)
      (λ d hd.
        if_cases (IfSome (λ m. m ≤ max)) (ltb max (n * radix + d)) (λ _. tt)
          (λ e. read_digits-le radix max (n * radix + d) s (ground (arith, e))))

from_str_radix-le : (radix max : ℕ) (s : Text) → IfSome (λ m. m ≤ max) (from_str_radix radix max s)
unfolding from_str_radix
from_str_radix-le radix max [] = tt
from_str_radix-le radix max (c ∷ []) =
    if_both (IfSome (λ m. m ≤ max)) (c == b'+' || c == b'-') tt
      (read_digits-le radix max 0 (c ∷ []) (omega arith))
from_str_radix-le radix max (c ∷ d ∷ s) =
    if_both (IfSome (λ m. m ≤ max)) (c == b'+') (read_digits-le radix max 0 (d ∷ s) (omega arith))
      (read_digits-le radix max 0 (c ∷ d ∷ s) (omega arith))

-- The value of one digit.
digit-lt : (c : ℕ) → IfSome (λ m. m < 16) (parse_hex (c ∷ []))
unfolding from_str_radix read_digits
digit-lt c = if_both (IfSome (λ m. m < 16)) (c == b'+' || c == b'-') tt (
    IfSome-bind (λ d. d < 16) (λ m. m < 16) (to_digit 16 c) _ (to_digit-lt 16 c)
      (λ d hd. if_both (IfSome (λ m. m < 16)) (ltb 255 (0 * 16 + d)) tt (omega arith)))

-- Bytes, as many as a number says.
abbrev Bytes : ℕ → List ℕ → Type 0
Bytes n bytes = (length bytes ≡ n) × All IsByte bytes

parse_all-Bytes : (parts : List Text) → IfSome (Bytes (length parts)) (parse_all parts)
parse_all-Bytes [] = (refl, tt)
parse_all-Bytes (p ∷ ps) =
    IfSome-bind (λ m. m ≤ 255) (Bytes (suc (length ps))) (parse_hex p) _
      (from_str_radix-le 16 255 p)
      (λ b hb.
        IfSome-bind (Bytes (length ps)) (Bytes (suc (length ps))) (parse_all ps) _
          (parse_all-Bytes ps) (λ bs hs. (ap suc hs.0, (omega arith, hs.1))))

digit_pairs-Bytes : (n : ℕ) (s : Text) → length s ≡ n + n → IfSome (Bytes n) (digit_pairs s)
digit_pairs-Bytes zero [] e = (refl, tt)
digit_pairs-Bytes (suc n) [] e = absurd (omega (arith, e))
digit_pairs-Bytes n (h ∷ []) e = absurd (omega (arith, e))
digit_pairs-Bytes zero (h ∷ l ∷ s) e = absurd (omega (arith, e))
digit_pairs-Bytes (suc n) (h ∷ l ∷ s) e =
    IfSome-bind (λ m. m < 16) (Bytes (suc n)) (parse_hex (h ∷ [])) _ (digit-lt h)
      (λ hi hh.
        IfSome-bind (λ m. m < 16) (Bytes (suc n)) (parse_hex (l ∷ [])) _ (digit-lt l)
          (λ lo hl.
            IfSome-bind (Bytes n) (Bytes (suc n)) (digit_pairs s) _
              (digit_pairs-Bytes n s (omega (arith, e)))
              (λ bs hs. (ap suc hs.0, (omega arith, hs.1)))))

abbrev pub IsMac : EthAddr → Type 0
IsMac a = Bytes 6 a.octets

parse_parts-IsMac : (parts : List Text) → IfSome IsMac (parse_parts parts)
unfolding parse_parts
parse_parts-IsMac parts =
    if_cases (IfSome IsMac) (length parts == 6)
      (λ six.
        IfSome-bind (Bytes (length parts)) IsMac (parse_all parts) _ (parse_all-Bytes parts)
          (λ bytes h. (h.0 ∙ (==_iff (length parts) 6).0 six, h.1)))
      (λ _. tt)

parse_compact-IsMac : (digits : Text) → IfSome IsMac (parse_compact digits)
unfolding parse_compact
parse_compact-IsMac digits =
    if_cases (IfSome IsMac) (length digits == 12)
      (λ twelve.
        IfSome-bind (Bytes 6) IsMac (digit_pairs digits) _
          (digit_pairs-Bytes 6 digits ((==_iff (length digits) 12).0 twelve)) (λ bytes h. h))
      (λ _. tt)

pub eth_pton-IsMac : (s : Text) → IfSome IsMac (eth_pton s)
unfolding eth_pton
eth_pton-IsMac s =
    if_both (IfSome IsMac) (contains b':' (trim s)) (parse_parts-IsMac (split b':' (trim s))) (
      if_both (IfSome IsMac) (contains b'-' (trim s)) (parse_parts-IsMac (split b'-' (trim s)))
        (parse_compact-IsMac (hex_digits (trim s))))
