-- ===== src/Bpf/Parser/Keywords.antt =====
-- What `FilterBuilder::compile` makes of texts that are put together from words.
use we_nmap_in_rust.Prelude.{
  ℕ, ◌≡◌, refl, ap, ◌∙◌, List, [], ◌∷◌, ◌++◌, some, Bool, true, false, ◌||◌, ◌==◌, if◌then◌else◌,
  All-append, arith,
}
use we_nmap_in_rust.Prelude.Bytes.{bytes_eq}
use we_nmap_in_rust.Prelude.Result.{err}
use we_nmap_in_rust.Prelude.Text.{
  Text, chars, is_empty, lowercase, is_whitespace, parse_u16, lower_char, from_str_radix,
  read_digits, to_digit,
}
use we_nmap_in_rust.Prelude.Text.Words.{
  IsWord, is_word, is_word-IsWord, contains-IsWord, contains-append, split_by-word, split_by-append,
}
use we_nmap_in_rust.Net.{Ipv4Addr}
use we_nmap_in_rust.Net.Ipv4Text.{print_octet, print_ipv4, IsIpv4, print_ipv4-IsWord}
use we_nmap_in_rust.Bpf.Parser.{
  bad_port, word_tokens, tokenize, keyword, parse_primitive, compile_tokens, compile,
}

abbrev pub is_hyphen : ℕ → Bool
is_hyphen c = c == b'-'

-- A word that `tokenize` leaves whole.
pub record IsToken (w : Text) : Type 0 where
  pub some_text : is_empty w ≡ false
  pub no_space : IsWord is_whitespace w
  pub no_hyphen : IsWord is_hyphen w

word_tokens-IsToken : (w : Text) → IsToken w → word_tokens w ≡ w ∷ []
unfolding word_tokens
word_tokens-IsToken w h = rw (contains-IsWord b'-' w h.no_hyphen) refl

-- A first word, a space, and any text behind it.
pub tokenize-append : (w rest : Text) → IsToken w → tokenize (w ++ (32 ∷ rest)) ≡ w ∷ tokenize rest
unfolding tokenize
tokenize-append w rest h =
    rw
      (
        split_by-append is_whitespace w rest 32 h.no_space (unfold is_whitespace in refl),
        h.some_text,
        word_tokens-IsToken w h,
      )
      refl

pub tokenize-IsToken : (w : Text) → IsToken w → tokenize w ≡ w ∷ []
unfolding tokenize
tokenize-IsToken w h =
    rw (split_by-word is_whitespace w h.no_space, h.some_text, word_tokens-IsToken w h) refl

-- The primitives that read no further token.
abbrev pub is_alone : Text → Bool
is_alone t =
    if bytes_eq t (chars "port") || bytes_eq t (chars "portrange") || bytes_eq t (chars "host")
    then false
    else true

keyword-is_alone : (t : Text) (ts us : List Text) → is_alone t ≡ true → keyword t ts ≡ keyword t us
unfolding keyword
keyword-is_alone t ts us h = ground (arith, h)

compile-tokens :
    (t : Text) (ts us : List Text) (linktype : ℕ)
    → is_alone (lowercase t) ≡ true
    → compile_tokens (t ∷ ts) linktype ≡ compile_tokens (t ∷ us) linktype
unfolding compile_tokens parse_primitive
compile-tokens t ts us linktype h = rw (keyword-is_alone (lowercase t) ts us h) refl

-- A first word without white space and hyphens that is not `port`, `portrange` or `host` in any
-- case: the expression compiles to what that word alone compiles to, whatever follows it.
pub compile-ignores_rest :
    (w rest : Text) (linktype : ℕ)
    → IsToken w
    → is_alone (lowercase w) ≡ true
    → compile (w ++ (32 ∷ rest)) linktype ≡ compile w linktype
unfolding compile
compile-ignores_rest w rest linktype h alone =
    rw (tokenize-append w rest h, tokenize-IsToken w h)
      (compile-tokens w (tokenize rest) [] linktype alone)

-- A word is a token if the three tests say so.
pub literal-IsToken :
    (w : Text)
    → is_empty w ≡ false
    → is_word is_whitespace w ≡ true
    → is_word is_hyphen w ≡ true
    → IsToken w
literal-IsToken w e space hyphen = record {
  some_text = e;
  no_space = is_word-IsWord is_whitespace w space;
  no_hyphen = is_word-IsWord is_hyphen w hyphen;
}

not_empty_word : (a : Text) (c : ℕ) (b : Text) → is_empty (a ++ (c ∷ b)) ≡ false
not_empty_word [] c b = refl
not_empty_word (x ∷ a) c b = refl

pair :
    (a b : Text) (m n : ℕ)
    → IsWord is_hyphen a
    → IsWord is_hyphen b
    → parse_u16 a ≡ some m
    → parse_u16 b ≡ some n
    → word_tokens (a ++ (b'-' ∷ b)) ≡ a ∷ chars "-" ∷ b ∷ []
unfolding word_tokens
pair a b m n ha hb ea eb =
    rw
      (
        contains-append b'-' a b,
        split_by-append is_hyphen a b b'-' ha refl,
        split_by-word is_hyphen b hb,
        ea,
        eb,
      )
      refl

-- `portrange A-B` of two port numbers is cut into `A`, `-` and `B`, and refused for its `-`.
pub compile-portrange :
    (a b : Text) (m n linktype : ℕ)
    → IsWord is_whitespace a
    → IsWord is_whitespace b
    → IsWord is_hyphen a
    → IsWord is_hyphen b
    → parse_u16 a ≡ some m
    → parse_u16 b ≡ some n
    → compile (chars "portrange" ++ (32 ∷ (a ++ (b'-' ∷ b)))) linktype ≡ err (bad_port (chars "-"))
unfolding compile compile_tokens parse_primitive keyword tokenize bytes_eq lower_char from_str_radix
    read_digits to_digit
compile-portrange a b m n linktype sa sb ha hb ea eb =
    ap (λ ts. compile_tokens ts linktype)
      (tokenize-append (chars "portrange") (a ++ (b'-' ∷ b))
        (literal-IsToken (chars "portrange") refl (unfold is_whitespace in refl) refl))
    ∙ ap (λ ts. compile_tokens (chars "portrange" ∷ ts) linktype) second
    ∙ rw ea refl
  where
    second : tokenize (a ++ (b'-' ∷ b)) ≡ a ∷ chars "-" ∷ b ∷ []
    second =
        rw
          (
            split_by-word is_whitespace (a ++ (b'-' ∷ b)) (
                All-append (λ c. is_whitespace c ≡ false) a (b'-' ∷ b) sa
                  ((unfold is_whitespace in refl), sb)),
            not_empty_word a b'-' b,
            pair a b m n ha hb ea eb,
          )
          refl

pub print_ipv4-IsToken : (ip : Ipv4Addr) → IsIpv4 ip → IsToken (print_ipv4 ip)
unfolding is_whitespace print_ipv4
print_ipv4-IsToken ip h = record {
  some_text = not_empty_word (print_octet ip.a) b'.' _;
  no_space = print_ipv4-IsWord is_whitespace ip (λ c lo hi. ground arith) refl h;
  no_hyphen = print_ipv4-IsWord is_hyphen ip (λ c lo hi. ground arith) refl h;
}
