-- ===== src/Bpf/Parser/RawPackets.antt =====
-- The filter `ip` on packets without a link header, as a capture on Windows gives them.
use we_nmap_in_rust.Prelude.{
  ℕ, suc, ◌+◌, ◌*◌, ◌^◌, ◌≤◌, ◌<◌, ◌≡◌, refl, ap, ◌∙◌, List, [], ◌∷◌, ◌++◌, some, ◌&&◌, ◌==◌,
  length, get_elem?, arith,
}
use we_nmap_in_rust.Prelude.Bytes.{IsByte, bytes_eq}
use we_nmap_in_rust.Prelude.Result.{ok, ◌>>=◌}
use we_nmap_in_rust.Prelude.Text.{chars, split_by, is_whitespace, lower_char}
use we_nmap_in_rust.Datalink.{dlt_raw}
use we_nmap_in_rust.Bpf.Filter.{filter, proto}
use we_nmap_in_rust.Bpf.Filter.Correct.{passes}
use we_nmap_in_rust.Bpf.Parser.{tokenize, word_tokens, keyword, parse_primitive, compile}
use we_nmap_in_rust.Bpf.Parser.Meaning.{intended, filter-compile_text}

ip_meaning : intended (chars "ip") dlt_raw ≡ ok (passes (proto 0x0800) dlt_raw)
unfolding intended tokenize word_tokens keyword parse_primitive split_by is_whitespace lower_char
    bytes_eq
ip_meaning = refl

get_elem?-append {ℓ} :
    {A : Type ℓ} (xs ys : List A) (k n : ℕ)
    → length xs ≡ n
    → get_elem? (xs ++ ys) (n + k) ≡ get_elem? ys k
get_elem?-append [] ys k n h = let e : n + k ≡ k = omega (arith, h) in ap (get_elem? ys) e
get_elem?-append (x ∷ xs) ys k n h =
    let e : n + k ≡ suc (length xs + k) = omega (arith, h) in
    ap (get_elem? (x ∷ (xs ++ ys))) e ∙ get_elem?-append xs ys k (length xs) refl

two_bytes : (a b : ℕ) → IsByte a → IsByte b → (a * 256 + b == 2048) ≡ (a == 8 && b == 0)
two_bytes a b ha hb = ground (arith, ha, hb)

-- On a raw IPv4 packet, whose source address is a.b.c.d, the filter `ip` accepts exactly if the source
-- begins with 8.0.
pub filter-ip_raw :
    (header rest : List ℕ) (a b c d rounds : ℕ)
    → length header ≡ 12
    → IsByte a
    → IsByte b
    → 4 ≤ rounds
    → length (header ++ (a ∷ b ∷ c ∷ d ∷ rest)) < 2 ^ 32
    → (compile (chars "ip") dlt_raw >>= λ insns.
        ok (filter rounds insns (header ++ (a ∷ b ∷ c ∷ d ∷ rest))))
      ≡ ok (some (a == 8 && b == 0))
filter-ip_raw header rest a b c d rounds h ha hb room small =
    filter-compile_text (chars "ip") dlt_raw rounds (header ++ (a ∷ b ∷ c ∷ d ∷ rest)) room small
    ∙ rw
        (
          ip_meaning,
          get_elem?-append header (a ∷ b ∷ c ∷ d ∷ rest) 0 12 h,
          get_elem?-append header (a ∷ b ∷ c ∷ d ∷ rest) 1 12 h,
        )
        (ap (λ t. ok (some t)) (two_bytes a b ha hb))
