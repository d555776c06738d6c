-- ===== src/Bpf/Parser/Tests.antt =====
-- Filter expressions as text, and the theorems at concrete ones.
use we_nmap_in_rust.Prelude.{
  ℕ, ◌≡◌, refl, List, [], ◌∷◌, ◌++◌, ◌==◌, some, true, false, replicate, arith,
}
use we_nmap_in_rust.Prelude.Bytes.{bytes_eq}
use we_nmap_in_rust.Prelude.Result.{ok, err, ◌>>=◌}
use we_nmap_in_rust.Prelude.Text.{
  chars, split_by, is_whitespace, lower_char, from_str_radix, read_digits, to_digit,
}
use we_nmap_in_rust.Prelude.Text.Words.{is_word-IsWord}
use we_nmap_in_rust.Bpf.Filter.{filter}
use we_nmap_in_rust.Bpf.Parser.{bad_port, tokenize, word_tokens, compile}
use we_nmap_in_rust.Bpf.Parser.Keywords.{literal-IsToken, compile-ignores_rest, compile-portrange}
use we_nmap_in_rust.Datalink.{dlt_raw, link_header_len}
use we_nmap_in_rust.Bpf.Parser.RawPackets.{filter-ip_raw}
use we_nmap_in_rust.Net.Ipv4Text.{print_ipv4, print_octet}
use we_nmap_in_rust.Bpf.Parser.Expressions.{expr_host, filter-compile_expression}

-- An IPv4 frame of protocol 6 to 1.2.3.4.
abbrev to_ones : List ℕ
to_ones =
    replicate 12 0
    ++ (8 ∷ 0 ∷ 0x45 ∷ replicate 8 0)
    ++ (6 ∷ 0 ∷ 0 ∷ 9 ∷ 9 ∷ 9 ∷ 9 ∷ 1 ∷ 2 ∷ 3 ∷ 4 ∷ [])

range_cut :
    tokenize (chars "portrange 80-90")
    ≡ chars "portrange" ∷ chars "80" ∷ chars "-" ∷ chars "90" ∷ []
unfolding split_by tokenize word_tokens is_whitespace from_str_radix read_digits to_digit
range_cut = refl

-- A `host` filter with a capital letter.
filter-compile_expression_example :
    (compile (chars "Host 1.2.3.4") 1 >>= λ insns. ok (filter 4 insns to_ones)) ≡ ok (some true)
unfolding is_whitespace lower_char print_ipv4 print_octet link_header_len
filter-compile_expression_example =
    filter-compile_expression (expr_host (record { a = 1; b = 2; c = 3; d = 4 })) (chars "Host") 1 4
      to_ones (omega arith, omega arith, omega arith, omega arith)
      (literal-IsToken (chars "Host") refl refl refl) refl (omega arith) (omega arith)

compile-ignores_rest_example :
    compile (chars "tcp" ++ (32 ∷ chars "and port 80")) 1 ≡ compile (chars "tcp") 1
unfolding bytes_eq lower_char
compile-ignores_rest_example =
    compile-ignores_rest (chars "tcp") (chars "and port 80") 1
      (literal-IsToken (chars "tcp") refl (unfold is_whitespace in refl) refl) refl

compile-portrange_example :
    compile (chars "portrange" ++ (32 ∷ (chars "80" ++ (b'-' ∷ chars "90")))) 1
    ≡ err (bad_port (chars "-"))
unfolding from_str_radix read_digits to_digit
compile-portrange_example =
    compile-portrange (chars "80") (chars "90") 80 90 1
      (is_word-IsWord is_whitespace (chars "80") (unfold is_whitespace in refl))
      (is_word-IsWord is_whitespace (chars "90") (unfold is_whitespace in refl))
      (is_word-IsWord (λ c. c == b'-') (chars "80") refl)
      (is_word-IsWord (λ c. c == b'-') (chars "90") refl) refl refl

-- A packet from 10.0.0.7 without a link header.
filter-ip_raw_example :
    (compile (chars "ip") dlt_raw >>= λ insns.
    ok (filter 4 insns (replicate 12 0x45 ++ (10 ∷ 0 ∷ 0 ∷ 7 ∷ 1 ∷ 2 ∷ 3 ∷ 4 ∷ []))))
    ≡ ok (some false)
filter-ip_raw_example =
    filter-ip_raw (replicate 12 0x45) (1 ∷ 2 ∷ 3 ∷ 4 ∷ []) 10 0 0 7 4 refl (omega arith)
      (omega arith) (omega arith) (omega arith)
