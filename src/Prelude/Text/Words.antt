-- ===== src/Prelude/Text/Words.antt =====
-- The pieces of a text that is put together from pieces.
use Prim.Native.Nat.{ℕ}
use mathlib.Core.Path.{◌≡◌, refl, ap, ◌∙◌}
use mathlib.Core.Bool.{Bool, true, false, ◌&&◌}
use mathlib.Core.List.{List, [], ◌∷◌, ◌++◌}
use native.Mathlib.Omega.{arith}
use we_nmap_in_rust.Prelude.Tests.{if◌then◌else◌, if_cases, ◌==◌}
use we_nmap_in_rust.Prelude.Lists.{All, All-append}
use we_nmap_in_rust.Prelude.Text.{
  Text, split_by, contains, is_empty, is_whitespace, trim_start, trim_end, trim,
}

module _ (ends : ℕ → Bool) where
  -- No character of the word ends it.
  abbrev pub IsWord : Text → Type 0
  IsWord w = All (λ c. ends c ≡ false) w

  abbrev pub is_word : Text → Bool
  is_word [] = true
  is_word (c ∷ w) = if ends c then false else is_word w

  -- At a literal, the test evaluates.
  pub is_word-IsWord : (w : Text) → is_word w ≡ true → IsWord w
  is_word-IsWord [] e = tt
  is_word-IsWord (c ∷ w) e =
      if_cases (λ b. b ≡ true → IsWord (c ∷ w)) (ends c) (λ _ e. absurd (ground (arith, e)))
        (λ plain e. (plain, is_word-IsWord w e)) e

  pub split_by-word : (w : Text) → IsWord w → split_by ends w ≡ w ∷ []
  unfolding split_by
  split_by-word [] h = refl
  split_by-word (c ∷ w) h = rw (h.0, split_by-word w h.1) refl

  pub split_by-append :
      (w rest : Text) (c : ℕ)
      → IsWord w
      → ends c ≡ true
      → split_by ends (w ++ (c ∷ rest)) ≡ w ∷ split_by ends rest
  unfolding split_by
  split_by-append [] rest c h e = rw e refl
  split_by-append (d ∷ w) rest c h e = rw (h.0, split_by-append w rest c h.1 e) refl

-- Pieces that are put together with a character between them.
abbrev pub join : ℕ → List Text → Text
join c [] = []
join c (w ∷ []) = w
join c (w ∷ v ∷ ws) = w ++ (c ∷ join c (v ∷ ws))

pub split_by-join :
    (ends : ℕ → Bool) (c : ℕ) (w : Text) (ws : List Text)
    → ends c ≡ true
    → All (IsWord ends) (w ∷ ws)
    → split_by ends (join c (w ∷ ws)) ≡ w ∷ ws
split_by-join ends c w [] e h = split_by-word ends w h.0
split_by-join ends c w (v ∷ ws) e h =
    split_by-append ends w (join c (v ∷ ws)) c h.0 e
    ∙ ap (λ l. w ∷ l) (split_by-join ends c v ws e h.1)

pub join-IsWord :
    (ends : ℕ → Bool) (c : ℕ) (ws : List Text)
    → ends c ≡ false
    → All (IsWord ends) ws
    → IsWord ends (join c ws)
join-IsWord ends c [] e h = tt
join-IsWord ends c (w ∷ []) e h = h.0
join-IsWord ends c (w ∷ v ∷ ws) e h =
    All-append (λ x. ends x ≡ false) w (c ∷ join c (v ∷ ws)) h.0
      (e, join-IsWord ends c (v ∷ ws) e h.1)

pub contains-append : (c : ℕ) (a b : Text) → contains c (a ++ (c ∷ b)) ≡ true
contains-append c [] b = ground arith
contains-append c (x ∷ a) b =
    if_cases (λ r. r ≡ true) (x == c) (λ _. refl) (λ _. contains-append c a b)

pub contains-IsWord : (c : ℕ) (w : Text) → IsWord (λ x. x == c) w → contains c w ≡ false
contains-IsWord c [] h = refl
contains-IsWord c (x ∷ w) h = rw h.0 (contains-IsWord c w h.1)

-- A text without white space is its own trim.
trim_start-IsWord : (s : Text) → IsWord is_whitespace s → trim_start s ≡ s
unfolding trim_start
trim_start-IsWord [] h = refl
trim_start-IsWord (c ∷ s) h = rw h.0 refl

trim_end-IsWord : (s : Text) → IsWord is_whitespace s → trim_end s ≡ s
unfolding trim_end
trim_end-IsWord [] h = refl
trim_end-IsWord (c ∷ s) h = rw (trim_end-IsWord s h.1, h.0) (unchanged (is_empty s))
  where
    unchanged : (b : Bool) → (if b && false then [] else c ∷ s) ≡ (c ∷ s)
    unchanged true = refl
    unchanged false = refl

pub trim-IsWord : (s : Text) → IsWord is_whitespace s → trim s ≡ s
trim-IsWord s h = ap trim_end (trim_start-IsWord s h) ∙ trim_end-IsWord s h
