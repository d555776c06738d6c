-- ===== src/Addr/TextTests.antt =====
-- Addresses as text with an IPv6 text of one character for every byte.
use we_nmap_in_rust.Prelude.{
  ℕ, ◌+◌, ◌-◌, ◌/◌, le→ltb, ◌≤◌, ◌≡◌, refl, ap, List, [], ◌∷◌, Option, none, some, Bool, true,
  false, ltb, ◌==◌, if◌then◌else◌, length, All, arith, if_both, IfSome, replicate, ◌++◌,
}
use we_nmap_in_rust.Prelude.Bytes.{IsByte}
use we_nmap_in_rust.Prelude.Text.{Text, is_whitespace, chars}
use we_nmap_in_rust.Prelude.Text.Words.{IsWord, split_by-word, trim-IsWord}
use we_nmap_in_rust.Net.Ipv4Text.{parse_ipv4, octets_of}
use we_nmap_in_rust.Eth.{eth_addr}
use we_nmap_in_rust.Eth.Text.{eth_ntop, print_hex, hex_digit}
use we_nmap_in_rust.Prelude.Bytes.{bytes_eq}
use we_nmap_in_rust.Addr.Typed.{AreAddrs, GivesIpv6, addr_pton-AreAddrs}
use we_nmap_in_rust.Addr.Text.{of_hw, address, addr_pton, addr_ntop, Ipv6Text, addr_pton-addr_ntop}

abbrev print_wide : List ℕ → Text
print_wide [] = []
print_wide (b ∷ o) = (0x5000 + b) ∷ print_wide o

abbrev read_wide : Text → List ℕ
read_wide [] = []
read_wide (c ∷ s) = (c - 0x5000) ∷ read_wide s

abbrev parse_wide : Text → Option (List ℕ)
parse_wide [] = none
parse_wide (c ∷ s) = if ltb c 0x5000 then none else some (read_wide (c ∷ s))

read-print_wide : (o : List ℕ) → read_wide (print_wide o) ≡ o
read-print_wide [] = refl
read-print_wide (b ∷ o) = ground (arith, read-print_wide o)

print_wide-IsWord :
    (ends : ℕ → Bool)
    → ((c : ℕ) → 0x5000 ≤ c → ends c ≡ false)
    → (o : List ℕ) → IsWord ends (print_wide o)
print_wide-IsWord ends h [] = tt
print_wide-IsWord ends h (b ∷ o) = (h (0x5000 + b) (omega arith), print_wide-IsWord ends h o)

not_space : (c : ℕ) → 0x5000 ≤ c → is_whitespace c ≡ false
unfolding is_whitespace
not_space c h = ground arith

one_part : (s : Text) → IsWord (λ c. c == b'.') s → parse_ipv4 s ≡ none
unfolding parse_ipv4 octets_of
one_part s h = rw (split_by-word (λ c. c == b'.') s h) refl

parse-print_wide : (o : List ℕ) → length o ≡ 16 → parse_wide (print_wide o) ≡ some o
parse-print_wide [] h = absurd (omega arith)
parse-print_wide (b ∷ o) h =
    rw (le→ltb (0x5000 + b) 0x5000 (omega arith)) (ap some (read-print_wide (b ∷ o)))

digit_small : (d : ℕ) → d ≤ 15 → ltb (hex_digit d) 0x5000 ≡ true
digit_small d h = ground arith

parse_wide-eth_ntop :
    (mac : List ℕ) → length mac ≡ 6 → All IsByte mac → parse_wide (eth_ntop (eth_addr mac)) ≡ none
unfolding eth_ntop print_hex
parse_wide-eth_ntop [] six bytes = absurd (omega arith)
parse_wide-eth_ntop (a ∷ []) six bytes = absurd (omega arith)
parse_wide-eth_ntop (a ∷ b ∷ mac) six bytes =
    rw (digit_small (a / 16) (omega (arith, bytes.0))) refl

wide-Ipv6Text : Ipv6Text parse_wide print_wide
wide-Ipv6Text = record {
  reads_back = parse-print_wide;
  trimmed = λ o. trim-IsWord (print_wide o) (print_wide-IsWord is_whitespace not_space o);
  not_ipv4 =
      λ o six. one_part (print_wide o) (print_wide-IsWord (λ c. c == b'.') (λ c h. ground arith) o);
  not_hw = parse_wide-eth_ntop;
}

addr_pton-addr_ntop_example :
    addr_pton parse_wide (addr_ntop print_wide (address (of_hw (1 ∷ 2 ∷ 3 ∷ 10 ∷ 11 ∷ 255 ∷ []))))
    ≡ some (address (of_hw (1 ∷ 2 ∷ 3 ∷ 10 ∷ 11 ∷ 255 ∷ [])))
addr_pton-addr_ntop_example =
    addr_pton-addr_ntop parse_wide print_wide wide-Ipv6Text (of_hw (1 ∷ 2 ∷ 3 ∷ 10 ∷ 11 ∷ 255 ∷ []))
      (
        refl,
        (
          omega arith,
          (omega arith, (omega arith, (omega arith, (omega arith, (omega arith, tt))))),
        ),
      )

-- A parser of IPv6 texts that knows one.
abbrev parse_loopback : Text → Option (List ℕ)
parse_loopback s = if bytes_eq s (chars "::1") then some (replicate 15 0 ++ (1 ∷ [])) else none

parse_loopback-GivesIpv6 : GivesIpv6 parse_loopback
parse_loopback-GivesIpv6 s =
    if_both (IfSome (λ o. (length o ≡ 16) × All IsByte o)) (bytes_eq s (chars "::1"))
      (refl, omega arith) tt

addr_pton-AreAddrs_example : IfSome AreAddrs (addr_pton parse_loopback (chars " 10.0.0.7"))
addr_pton-AreAddrs_example =
    addr_pton-AreAddrs parse_loopback parse_loopback-GivesIpv6 (chars " 10.0.0.7")
