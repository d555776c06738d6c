-- ===== src/Bpf/Parser/Expressions.antt =====
-- The filter expressions of wnr-pcap/src/bpf.rs: how they are written, and what they are to accept.
use we_nmap_in_rust.Prelude.{
  ℕ, ◌+◌, ◌-◌, ◌*◌, ◌^◌, ◌≤◌, ◌<◌, ◌≡◌, refl, ap, ◌∙◌, List, [], ◌∷◌, ◌++◌, some, true, false, ◌&&◌,
  leb, length, All, arith, le→ltb,
}
use we_nmap_in_rust.Prelude.Bytes.{bytes_eq}
use we_nmap_in_rust.Prelude.Result.{ok, ◌>>=◌}
use we_nmap_in_rust.Prelude.Text.{
  Text, chars, is_empty, is_whitespace, lowercase, parse_u16, from_str_radix, read_digits, to_digit,
}
use we_nmap_in_rust.Net.{Ipv4Addr}
use we_nmap_in_rust.Net.Ipv4Text.{IsIpv4, print_ipv4, parse-print_ipv4, are_digits, digits-IsWord}
use we_nmap_in_rust.Bpf.Filter.{
  Primitive, proto, port, port_range, host_ipv4, broadcast, multicast, compile_parsed, filter,
}
use we_nmap_in_rust.Bpf.Filter.Correct.{passes, filter-compile}
use we_nmap_in_rust.Bpf.Parser.{parse_primitive, keyword, tokenize, compile_tokens, compile}
use we_nmap_in_rust.Bpf.Parser.Keywords.{
  IsToken, is_hyphen, tokenize-append, tokenize-IsToken, print_ipv4-IsToken,
}

-- The words that stand alone.
pub data Word : Type 0 where
  word_tcp word_udp word_icmp word_icmp6 word_icmpv6 word_arp word_ip word_ip6 word_ipv6 : Word
  word_broadcast word_multicast : Word

-- An expression; the numbers of ports are texts.
pub data Expression : Type 0 where
  expr_word : Word → Expression
  expr_port : Text → Expression
  expr_portrange : Text → Text → Expression
  expr_host : Ipv4Addr → Expression

abbrev pub word_text : Word → Text
word_text word_tcp = chars "tcp"
word_text word_udp = chars "udp"
word_text word_icmp = chars "icmp"
word_text word_icmp6 = chars "icmp6"
word_text word_icmpv6 = chars "icmpv6"
word_text word_arp = chars "arp"
word_text word_ip = chars "ip"
word_text word_ip6 = chars "ip6"
word_text word_ipv6 = chars "ipv6"
word_text word_broadcast = chars "broadcast"
word_text word_multicast = chars "multicast"

-- The first word of an expression, in lower case.
abbrev pub first_word : Expression → Text
first_word (expr_word k) = word_text k
first_word (expr_port a) = chars "port"
first_word (expr_portrange a b) = chars "portrange"
first_word (expr_host addr) = chars "host"

-- The words behind it.
abbrev pub arguments : Expression → List Text
arguments (expr_word k) = []
arguments (expr_port a) = a ∷ []
arguments (expr_portrange a b) = a ∷ b ∷ []
arguments (expr_host addr) = print_ipv4 addr ∷ []

-- Words with a space between them.
abbrev pub spaced : Text → List Text → Text
spaced w [] = w
spaced w (a ∷ args) = w ++ (32 ∷ spaced a args)

-- The number that decimal digits write, behind those that make `n`.
abbrev pub decimal : ℕ → Text → ℕ
decimal n [] = n
decimal n (c ∷ s) = decimal (n * 10 + (c - b'0')) s

-- A text of digits that writes a port number.
pub record IsPort (a : Text) : Type 0 where
  pub some_text : is_empty a ≡ false
  pub digits : are_digits a ≡ true
  pub fits : decimal 0 a ≤ 65535

abbrev pub IsExpression : Expression → Type 0
IsExpression (expr_word k) = Unit
IsExpression (expr_port a) = IsPort a
IsExpression (expr_portrange a b) = IsPort a × IsPort b
IsExpression (expr_host addr) = IsIpv4 addr

-- The protocol numbers of IP: TCP is 6, UDP 17, ICMP 1, and ICMPv6 58; and the EtherTypes: ARP is
-- 0x0806, IPv4 0x0800, and IPv6 0x86dd.
abbrev pub word_primitive : Word → Primitive
word_primitive word_tcp = proto 6
word_primitive word_udp = proto 17
word_primitive word_icmp = proto 1
word_primitive word_icmp6 = proto 58
word_primitive word_icmpv6 = proto 58
word_primitive word_arp = proto 0x0806
word_primitive word_ip = proto 0x0800
word_primitive word_ip6 = proto 0x86dd
word_primitive word_ipv6 = proto 0x86dd
word_primitive word_broadcast = broadcast
word_primitive word_multicast = multicast

abbrev pub described : Expression → Primitive
described (expr_word k) = word_primitive k
described (expr_port a) = port (decimal 0 a)
described (expr_portrange a b) = port_range (decimal 0 a) (decimal 0 b)
described (expr_host addr) = host_ipv4 addr

decimal-le : (n : ℕ) (s : Text) → n ≤ decimal n s
decimal-le n [] = omega arith
decimal-le n (c ∷ s) = omega (arith, decimal-le (n * 10 + (c - b'0')) s)

to_digit-decimal : (c : ℕ) → (leb b'0' c && leb c b'9') ≡ true → to_digit 10 c ≡ some (c - b'0')
unfolding to_digit
to_digit-decimal c h = ground (arith, h)

read_digits-decimal :
    (n : ℕ) (s : Text)
    → are_digits s ≡ true
    → decimal n s ≤ 65535
    → read_digits 10 65535 n s ≡ some (decimal n s)
unfolding read_digits
read_digits-decimal n [] d h = refl
read_digits-decimal n (c ∷ s) d h =
    let m : ℕ = n * 10 + (c - b'0') in
    rw (to_digit-decimal c (ground (arith, d)), le→ltb 65535 m (omega (arith, h, decimal-le m s)))
      (read_digits-decimal m s (ground (arith, d)) h)

parse_u16-IsPort : (a : Text) → IsPort a → parse_u16 a ≡ some (decimal 0 a)
unfolding from_str_radix
parse_u16-IsPort [] h = absurd (ground (arith, h.some_text))
parse_u16-IsPort (c ∷ []) h =
    ground (arith, h.digits, read_digits-decimal 0 (c ∷ []) h.digits h.fits)
parse_u16-IsPort (c ∷ d ∷ s) h =
    ground (arith, h.digits, read_digits-decimal 0 (c ∷ d ∷ s) h.digits h.fits)

port-IsToken : (a : Text) → IsPort a → IsToken a
unfolding is_whitespace
port-IsToken a h = record {
  some_text = h.some_text;
  no_space = digits-IsWord is_whitespace (λ c lo hi. ground arith) a h.digits;
  no_hyphen = digits-IsWord is_hyphen (λ c lo hi. ground arith) a h.digits;
}

arguments-IsToken : (e : Expression) → IsExpression e → All IsToken (arguments e)
arguments-IsToken (expr_word k) h = tt
arguments-IsToken (expr_port a) h = (port-IsToken a h, tt)
arguments-IsToken (expr_portrange a b) h = (port-IsToken a h.0, (port-IsToken b h.1, tt))
arguments-IsToken (expr_host addr) h = (print_ipv4-IsToken addr h, tt)

tokenize-spaced :
    (w : Text) (args : List Text)
    → IsToken w
    → All IsToken args
    → tokenize (spaced w args) ≡ w ∷ args
tokenize-spaced w [] h k = tokenize-IsToken w h
tokenize-spaced w (a ∷ args) h k =
    tokenize-append w (spaced a args) h ∙ ap (λ ts. w ∷ ts) (tokenize-spaced a args k.0 k.1)

parse-described :
    (e : Expression) → IsExpression e → keyword (first_word e) (arguments e) ≡ ok (described e)
unfolding keyword bytes_eq
parse-described (expr_word k) h = alone k
  where
    alone : (k : Word) → keyword (word_text k) [] ≡ ok (word_primitive k)
    alone word_tcp = refl
    alone word_udp = refl
    alone word_icmp = refl
    alone word_icmp6 = refl
    alone word_icmpv6 = refl
    alone word_arp = refl
    alone word_ip = refl
    alone word_ip6 = refl
    alone word_ipv6 = refl
    alone word_broadcast = refl
    alone word_multicast = refl
parse-described (expr_port a) h = rw (parse_u16-IsPort a h) refl
parse-described (expr_portrange a b) h = rw (parse_u16-IsPort a h.0, parse_u16-IsPort b h.1) refl
parse-described (expr_host addr) h = rw (parse-print_ipv4 addr h) refl

compile-described :
    (e : Expression) (w : Text) (linktype : ℕ)
    → IsExpression e
    → IsToken w
    → lowercase w ≡ first_word e
    → compile (spaced w (arguments e)) linktype ≡ ok (compile_parsed (described e) linktype)
unfolding compile compile_tokens parse_primitive
compile-described e w linktype h k same =
    rw (tokenize-spaced w (arguments e) k (arguments-IsToken e h), same, parse-described e h) refl

-- Every expression, written with its first word in any case and a space between its words, compiles
-- to a program that accepts within four rounds those packets below 2 ^ 32 bytes that the primitive
-- describes which its words stand for. A primitive of ports describes every packet.
pub filter-compile_expression :
    (e : Expression) (w : Text) (linktype rounds : ℕ) (pkt : List ℕ)
    → IsExpression e
    → IsToken w
    → lowercase w ≡ first_word e
    → 4 ≤ rounds
    → length pkt < 2 ^ 32
    → (compile (spaced w (arguments e)) linktype >>= λ insns. ok (filter rounds insns pkt))
      ≡ ok (some (passes (described e) linktype pkt))
filter-compile_expression e w linktype rounds pkt h k same room small =
    rw (compile-described e w linktype h k same)
      (ap ok (filter-compile (described e) linktype rounds pkt small room))
