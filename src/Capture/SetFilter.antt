-- ===== src/Capture/SetFilter.antt =====
-- `Capture::set_filter` on a text that has a meaning and on one that has none.
use we_nmap_in_rust.Prelude.{ℕ, ◌≡◌, refl, ap, ◌∙◌, List, some, Bool, arith}
use we_nmap_in_rust.Prelude.Result.{Result, ok, err, err-injective}
use we_nmap_in_rust.Prelude.Text.{Text}
use we_nmap_in_rust.Bpf.Isa.{BpfInsn}
use we_nmap_in_rust.Bpf.Parser.{ParseError, compile}
use we_nmap_in_rust.Bpf.Parser.Meaning.{intended, Compiled, compile-Compiled}
use we_nmap_in_rust.Capture.{Capture, syntax_error, filter_set, set_filter}

program_accepted :
    (c : Capture) (test : List ℕ → Bool) (r : Result ParseError (List BpfInsn))
    (i : Result ParseError (List ℕ → Bool))
    → Compiled r i
    → i ≡ ok test
    → (insns : List BpfInsn) × (filter_set c r ≡ filter_set c (ok insns))
program_accepted c test (err e) (err f) h m = absurd (ground (arith, m))
program_accepted c test (err e) (ok t) h m = absurd h
program_accepted c test (ok insns) (err e) h m = absurd h
program_accepted c test (ok insns) (ok t) h m = (insns, refl)

pub set_filter_accepted :
    (expr : Text) (c : Capture) (test : List ℕ → Bool)
    → intended expr c.linktype ≡ ok test
    → (insns : List BpfInsn) × (set_filter expr c ≡ filter_set c (ok insns))
unfolding set_filter
set_filter_accepted expr c test m =
    program_accepted c test (compile expr c.linktype) (intended expr c.linktype)
      (compile-Compiled expr c.linktype) m

program_refused :
    (c : Capture) (e : ParseError) (r : Result ParseError (List BpfInsn))
    (i : Result ParseError (List ℕ → Bool))
    → Compiled r i
    → i ≡ err e
    → filter_set c r ≡ (err e, record c { last_err = some (syntax_error e) })
program_refused c e (err f) (err g) h m =
    ap (λ x. (err x, record c { last_err = some (syntax_error x) })) (h ∙ err-injective f m)
program_refused c e (err f) (ok t) h m = absurd h
program_refused c e (ok insns) (err f) h m = absurd h
program_refused c e (ok insns) (ok t) h m = absurd (ground (arith, m))

-- A text without a meaning: `set_filter` returns its error and keeps it as the last one, and the
-- filter, its machine and the source stay as they are.
pub set_filter_refused :
    (expr : Text) (c : Capture) (e : ParseError)
    → intended expr c.linktype ≡ err e
    → set_filter expr c ≡ (err e, record c { last_err = some (syntax_error e) })
unfolding set_filter
set_filter_refused expr c e m =
    program_refused c e (compile expr c.linktype) (intended expr c.linktype)
      (compile-Compiled expr c.linktype) m
