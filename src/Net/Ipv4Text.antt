-- ===== src/Net/Ipv4Text.antt =====
-- `Ipv4Addr` of the standard library as text: `from_str` and `Display`.
use we_nmap_in_rust.Prelude.{
  ℕ, ◌+◌, ◌*◌, ◌/◌, ◌%◌, ◌≤◌, ◌≡◌, refl, ap, ◌∙◌, List, [], ◌∷◌, ◌++◌, Option, none, some, ◌>>=◌,
  Bool, true, false, ◌&&◌, ltb, leb, ◌==◌, if◌then◌else◌, All-append, arith,
}
use we_nmap_in_rust.Prelude.Bits.{holds_below, holds_below_sound, both, reads_back, reads_back-some}
use we_nmap_in_rust.Prelude.Bytes.{IsByte}
use we_nmap_in_rust.Prelude.Text.{Text, to_digit, split, split_by}
use we_nmap_in_rust.Prelude.Text.Words.{IsWord, join, split_by-join}
use we_nmap_in_rust.Net.{Ipv4Addr, ipv4_new}

abbrev at_most : ℕ → ℕ → Option ℕ
at_most max n = if ltb max n then none else some n

-- One number of an address: one to three digits, no zero in front of others, at most 255.
unfoldable pub parse_octet : Text → Option ℕ
unfolding to_digit
parse_octet (a ∷ []) = to_digit 10 a
parse_octet (a ∷ b ∷ []) =
    to_digit 10 a >>= λ x. to_digit 10 b >>= λ y. if x == 0 then none else some (x * 10 + y)
parse_octet (a ∷ b ∷ c ∷ []) = to_digit 10 a >>= λ x. to_digit 10 b >>= λ y.
    to_digit 10 c >>= λ z. if x == 0 then none else at_most 255 (x * 100 + y * 10 + z)
parse_octet _ = none

-- Four numbers with dots between them.
unfoldable pub octets_of : List Text → Option Ipv4Addr
unfolding parse_octet
octets_of (a ∷ b ∷ c ∷ d ∷ []) = parse_octet a >>= λ w.
    parse_octet b >>= λ x. parse_octet c >>= λ y. parse_octet d >>= λ z. some (ipv4_new w x y z)
octets_of _ = none

unfoldable pub parse_ipv4 : Text → Option Ipv4Addr
unfolding octets_of split_by
parse_ipv4 s = octets_of (split b'.' s)

-- A byte in decimal.
unfoldable pub print_octet : ℕ → Text
print_octet n =
    if ltb n 10
    then (b'0' + n) ∷ []
    else if ltb n 100
    then (b'0' + n / 10) ∷ (b'0' + n % 10) ∷ []
    else (b'0' + n / 100) ∷ (b'0' + n / 10 % 10) ∷ (b'0' + n % 10) ∷ []

unfoldable pub print_ipv4 : Ipv4Addr → Text
unfolding print_octet
print_ipv4 ip =
    join b'.' (print_octet ip.a ∷ print_octet ip.b ∷ print_octet ip.c ∷ print_octet ip.d ∷ [])

-- The bytes of an address.
abbrev pub IsIpv4 : Ipv4Addr → Type 0
IsIpv4 ip = IsByte ip.a × IsByte ip.b × IsByte ip.c × IsByte ip.d

-- The characters of a number are digits.
abbrev pub are_digits : Text → Bool
are_digits [] = true
are_digits (c ∷ s) = leb b'0' c && leb c b'9' && are_digits s

octet_table :
    holds_below 256 (λ n. reads_back n (parse_octet (print_octet n)) && are_digits (print_octet n))
    ≡ true
unfolding holds_below parse_octet print_octet
octet_table = refl

module _ (n : ℕ) (h : IsByte n) where
  octet_facts : (reads_back n (parse_octet (print_octet n)) && are_digits (print_octet n)) ≡ true
  octet_facts =
      holds_below_sound 256
        (λ n. reads_back n (parse_octet (print_octet n)) && are_digits (print_octet n)) n
        octet_table (omega arith)

  parse-print_octet : parse_octet (print_octet n) ≡ some n
  parse-print_octet =
      reads_back-some n (parse_octet (print_octet n))
        (both (reads_back n (parse_octet (print_octet n))) (are_digits (print_octet n))
          octet_facts).0

  print_octet-digits : are_digits (print_octet n) ≡ true
  print_octet-digits =
      (both (reads_back n (parse_octet (print_octet n))) (are_digits (print_octet n)) octet_facts).1

-- Digits are no end of a word, for any character that is not one.
pub digits-IsWord :
    (ends : ℕ → Bool)
    → ((c : ℕ) → b'0' ≤ c → c ≤ b'9' → ends c ≡ false)
    → (s : Text) → are_digits s ≡ true
    → IsWord ends s
digits-IsWord ends h [] e = tt
digits-IsWord ends h (c ∷ s) e =
    (h c (ground (arith, e)) (ground (arith, e)), digits-IsWord ends h s (ground (arith, e)))

-- An address is read back from its print.
pub parse-print_ipv4 : (ip : Ipv4Addr) → IsIpv4 ip → parse_ipv4 (print_ipv4 ip) ≡ some ip
unfolding parse_ipv4 print_ipv4
parse-print_ipv4 ip (ha, hb, hc, hd) =
    ap octets_of (
      split_by-join (λ x. x == b'.') b'.' (print_octet ip.a)
        (print_octet ip.b ∷ print_octet ip.c ∷ print_octet ip.d ∷ []) refl
        (word ip.a ha, (word ip.b hb, (word ip.c hc, (word ip.d hd, tt)))))
    ∙ rw
        (
          octets_of,
          parse-print_octet ip.a ha,
          parse-print_octet ip.b hb,
          parse-print_octet ip.c hc,
          parse-print_octet ip.d hd,
        )
        refl
  where
    word : (n : ℕ) → IsByte n → IsWord (λ x. x == b'.') (print_octet n)
    word n h =
        digits-IsWord (λ x. x == b'.') (λ c lo hi. ground arith) (print_octet n)
          (print_octet-digits n h)

-- No character of the print ends a word, if digits and dots do not.
pub print_ipv4-IsWord :
    (ends : ℕ → Bool) (ip : Ipv4Addr)
    → ((c : ℕ) → b'0' ≤ c → c ≤ b'9' → ends c ≡ false)
    → ends b'.' ≡ false
    → IsIpv4 ip
    → IsWord ends (print_ipv4 ip)
unfolding print_ipv4
print_ipv4-IsWord ends ip digits dot (ha, hb, hc, hd) =
    before ip.a ha _ (before ip.b hb _ (before ip.c hc _ (word ip.d hd)))
  where
    word : (n : ℕ) → IsByte n → IsWord ends (print_octet n)
    word n h = digits-IsWord ends digits (print_octet n) (print_octet-digits n h)

    before :
        (n : ℕ) → IsByte n → (s : Text) → IsWord ends s → IsWord ends (print_octet n ++ (b'.' ∷ s))
    before n h s w = All-append (λ c. ends c ≡ false) (print_octet n) (b'.' ∷ s) (word n h) (dot, w)
