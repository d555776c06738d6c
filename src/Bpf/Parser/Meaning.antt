-- ===== src/Bpf/Parser/Meaning.antt =====
-- What the primitive that is read from a filter expression describes, and the code that is compiled
-- from the text. Which text stands for which primitive is in Bpf/Parser/Expressions.
use we_nmap_in_rust.Prelude.{
  ℕ, zero, suc, ◌^◌, ◌≤◌, ◌<◌, ◌≡◌, refl, ap, List, [], ◌∷◌, some, Bool, true, length, arith,
}
use we_nmap_in_rust.Prelude.Result.{Result, ok, err, ◌>>=◌}
use we_nmap_in_rust.Prelude.Text.{Text}
use we_nmap_in_rust.Bpf.Isa.{BpfInsn, bpf_accept}
use we_nmap_in_rust.Bpf.Vm.{step}
use we_nmap_in_rust.Bpf.Filter.{Primitive, ret, compile_parsed, filter}
use we_nmap_in_rust.Bpf.Filter.Correct.{passes, filter-compile}
use we_nmap_in_rust.Bpf.Parser.{ParseError, tokenize, parse_primitive, compile_tokens, compile}

-- An expression of no token accepts every packet, and one with a token what its primitive describes.
abbrev pub intended_tokens : List Text → ℕ → Result ParseError (List ℕ → Bool)
intended_tokens [] linktype = ok (λ _. true)
intended_tokens (t ∷ ts) linktype = parse_primitive (t ∷ ts) >>= λ p. ok (passes p linktype)

unfoldable pub intended : Text → ℕ → Result ParseError (List ℕ → Bool)
intended expr linktype = intended_tokens (tokenize expr) linktype

-- A program that answers as a test does, on packets below 2 ^ 32 bytes, within four rounds.
abbrev pub Computes : List BpfInsn → (List ℕ → Bool) → Type 0
Computes insns test =
    (rounds : ℕ) (pkt : List ℕ)
    → 4 ≤ rounds
    → length pkt < 2 ^ 32
    → filter rounds insns pkt ≡ some (test pkt)

accept_all : Computes (ret bpf_accept ∷ []) (λ _. true)
unfolding filter step ret
accept_all zero pkt room small = absurd (omega arith)
accept_all (suc rounds) pkt room small = refl

abbrev pub Compiled : Result ParseError (List BpfInsn) → Result ParseError (List ℕ → Bool) → Type 0
Compiled (ok insns) (ok test) = Computes insns test
Compiled (err e) (err e') = e ≡ e'
Compiled _ _ = ⊥

parsed-Compiled :
    (r : Result ParseError Primitive) (linktype : ℕ)
    → Compiled (r >>= λ p. ok (compile_parsed p linktype)) (r >>= λ p. ok (passes p linktype))
parsed-Compiled (err e) linktype = refl
parsed-Compiled (ok p) linktype =
    λ rounds pkt room small. filter-compile p linktype rounds pkt small room

tokens-Compiled :
    (ts : List Text) (linktype : ℕ)
    → Compiled (compile_tokens ts linktype) (intended_tokens ts linktype)
unfolding compile_tokens
tokens-Compiled [] linktype = accept_all
tokens-Compiled (t ∷ ts) linktype = parsed-Compiled (parse_primitive (t ∷ ts)) linktype

pub compile-Compiled :
    (expr : Text) (linktype : ℕ) → Compiled (compile expr linktype) (intended expr linktype)
unfolding compile intended
compile-Compiled expr linktype = tokens-Compiled (tokenize expr) linktype

agree :
    (r : Result ParseError (List BpfInsn)) (i : Result ParseError (List ℕ → Bool))
    → Compiled r i
    → (rounds : ℕ) (pkt : List ℕ) → 4 ≤ rounds
    → length pkt < 2 ^ 32
    → (r >>= λ insns. ok (filter rounds insns pkt)) ≡ (i >>= λ test. ok (some (test pkt)))
agree (ok insns) (ok test) h rounds pkt room small = ap ok (h rounds pkt room small)
agree (err e) (err f) h rounds pkt room small = ap err h
agree (ok insns) (err f) h rounds pkt room small = absurd h
agree (err e) (ok test) h rounds pkt room small = absurd h

-- The program of a text accepts, within four rounds, the packets below 2 ^ 32 bytes that the primitive
-- describes which the parser reads from the text; and the error is the parser's.
pub filter-compile_text :
    (expr : Text) (linktype rounds : ℕ) (pkt : List ℕ)
    → 4 ≤ rounds
    → length pkt < 2 ^ 32
    → (compile expr linktype >>= λ insns. ok (filter rounds insns pkt))
      ≡ (intended expr linktype >>= λ test. ok (some (test pkt)))
filter-compile_text expr linktype rounds pkt room small =
    agree (compile expr linktype) (intended expr linktype) (compile-Compiled expr linktype) rounds
      pkt room small
