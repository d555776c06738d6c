-- ===== src/Bpf/Parser.antt =====
-- The text of a filter expression in wnr-pcap/src/bpf.rs: `tokenize`, `FilterBuilder`.
pub mod Keywords
pub mod Meaning
pub mod RawPackets
pub mod Expressions
mod Tests
use we_nmap_in_rust.Prelude.{
  ℕ, ◌+◌, List, [], ◌∷◌, ◌++◌, Option, none, some, Bool, true, false, ◌&&◌, ◌||◌, ◌==◌,
  if◌then◌else◌,
}
use we_nmap_in_rust.Prelude.Bytes.{bytes_eq}
use we_nmap_in_rust.Prelude.Result.{Result, ok, err, ◌>>=◌}
use we_nmap_in_rust.Prelude.Text.{
  Text, chars, lowercase, contains, split, split_whitespace, parse_u16,
}
use we_nmap_in_rust.Net.{Ipv4Addr}
use we_nmap_in_rust.Net.Ipv4Text.{parse_ipv4}
use we_nmap_in_rust.Bpf.Isa.{BpfInsn, bpf_accept}
use we_nmap_in_rust.Bpf.Filter.{
  Primitive, proto, port, port_range, host_ipv4, broadcast, multicast, ret, compile_parsed,
}

-- The messages of `parse_primitive`.
pub data ParseError : Type 0 where
  empty_filter : ParseError
  missing_port : ParseError
  invalid_port : Text → ParseError
  missing_start : ParseError
  missing_end : ParseError
  bad_port : Text → ParseError
  missing_host : ParseError
  invalid_host : Text → ParseError
  unknown : Text → ParseError

abbrev is_u16 : Option ℕ → Bool
is_u16 none = false
is_u16 (some n) = true

abbrev all_u16 : List Text → Bool
all_u16 [] = true
all_u16 (p ∷ ps) = is_u16 (parse_u16 p) && all_u16 ps

-- `parts[0]`, `"-"`, `parts[1]`; a word with a `-` has two parts.
abbrev pair_tokens : List Text → List Text
pair_tokens [] = []
pair_tokens (a ∷ []) = a ∷ []
pair_tokens (a ∷ b ∷ rest) = a ∷ chars "-" ∷ b ∷ []

-- The closure of `tokenize`.
unfoldable pub word_tokens : Text → List Text
word_tokens w =
    if contains b'-' w && all_u16 (split b'-' w) then pair_tokens (split b'-' w) else w ∷ []

abbrev pub flat_tokens : List Text → List Text
flat_tokens [] = []
flat_tokens (w ∷ ws) = word_tokens w ++ flat_tokens ws

unfoldable pub tokenize : Text → List Text
unfolding word_tokens
tokenize expr = flat_tokens (split_whitespace expr)

-- `next().ok_or(…)?`, and the tokens that are left.
abbrev pub next_or : ParseError → List Text → Result ParseError (Text × List Text)
next_or e [] = err e
next_or e (t ∷ ts) = ok (t, ts)

abbrev pub or_error {ℓ} : {A : Type ℓ} → ParseError → Option A → Result ParseError A
or_error e none = err e
or_error e (some a) = ok a

abbrev pub parse_port : List Text → Result ParseError Primitive
parse_port ts = next_or missing_port ts >>= λ (t : Text × List Text).
    or_error (invalid_port t.0) (parse_u16 t.0) >>= λ n. ok (port n)

abbrev pub parse_range : List Text → Result ParseError Primitive
parse_range ts = next_or missing_start ts >>= λ (a : Text × List Text).
    next_or missing_end a.1 >>= λ (b : Text × List Text).
    or_error (bad_port a.0) (parse_u16 a.0) >>= λ pa.
    or_error (bad_port b.0) (parse_u16 b.0) >>= λ pb. ok (port_range pa pb)

abbrev pub parse_host : List Text → Result ParseError Primitive
parse_host ts = next_or missing_host ts >>= λ (h : Text × List Text).
    or_error (invalid_host h.0) (parse_ipv4 h.0) >>= λ ip. ok (host_ipv4 ip)

-- The `match` of `parse_primitive`, on the first token in lower case and the tokens behind it.
unfoldable pub keyword : Text → List Text → Result ParseError Primitive
unfolding bytes_eq
keyword t ts =
    if bytes_eq t (chars "tcp")
    then ok (proto 6)
    else if bytes_eq t (chars "udp")
    then ok (proto 17)
    else if bytes_eq t (chars "icmp")
    then ok (proto 1)
    else if bytes_eq t (chars "icmp6") || bytes_eq t (chars "icmpv6")
    then ok (proto 58)
    else if bytes_eq t (chars "arp")
    then ok (proto 0x0806)
    else if bytes_eq t (chars "ip")
    then ok (proto 0x0800)
    else if bytes_eq t (chars "ip6") || bytes_eq t (chars "ipv6")
    then ok (proto 0x86dd)
    else if bytes_eq t (chars "broadcast")
    then ok broadcast
    else if bytes_eq t (chars "multicast")
    then ok multicast
    else if bytes_eq t (chars "port")
    then parse_port ts
    else if bytes_eq t (chars "portrange")
    then parse_range ts
    else if bytes_eq t (chars "host")
    then parse_host ts
    else err (unknown t)

unfoldable pub parse_primitive : List Text → Result ParseError Primitive
unfolding keyword
parse_primitive [] = err empty_filter
parse_primitive (t ∷ ts) = keyword (lowercase t) ts

-- `FilterBuilder::compile` on the tokens.
unfoldable pub compile_tokens : List Text → ℕ → Result ParseError (List BpfInsn)
compile_tokens [] linktype = ok (ret bpf_accept ∷ [])
compile_tokens (t ∷ ts) linktype = parse_primitive (t ∷ ts) >>= λ p. ok (compile_parsed p linktype)

unfoldable pub compile : Text → ℕ → Result ParseError (List BpfInsn)
unfolding compile_tokens tokenize
compile expr linktype = compile_tokens (tokenize expr) linktype
