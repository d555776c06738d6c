-- ===== src/Prelude/Bits.antt =====
-- Facts about `bit_and` and `bit_or` at variables, from their recursion on digits.
use Prim.Native.Nat.{
  ℕ, zero, suc, ◌/◌, ◌%◌, ◌^◌, ◌≤◌, ◌<◌, min, max, bit_and, bit_or, digits, bit_and-bitwise,
  bit_or-bitwise,
}
use mathlib.Core.Path.{◌≡◌, refl, ap}
use mathlib.Core.Option.{Option, none, some}
use mathlib.Core.Bool.{Bool, true, false, ◌&&◌}
use native.Mathlib.Nat.{pow-suc}
use native.Mathlib.Omega.{arith}
use we_nmap_in_rust.Prelude.Tests.{if◌then◌else◌, ◌==◌}

-- A test of each number under a bound, which is computed.
unfoldable pub holds_below : ℕ → (ℕ → Bool) → Bool
holds_below zero test = true
holds_below (suc bound) test = if test bound then holds_below bound test else false

pub holds_below_sound :
    (bound : ℕ) (test : ℕ → Bool) (k : ℕ)
    → holds_below bound test ≡ true
    → k < bound
    → test k ≡ true
unfolding holds_below
holds_below_sound zero test k all small = absurd (omega arith)
holds_below_sound (suc bound) test k all small = ground (arith, all, holds_below_sound bound test k)

-- A digit-wise operation of two w-bit words is a w-bit word.
module _ (z : ℕ → ℕ) (f : ℕ → ℕ → ℕ) (below : (b : ℕ) → z b ≤ b)
    (digit : (x y : ℕ) → x ≤ 1 → y ≤ 1 → f x y ≤ 1) where
  digits-lt : (n k a b : ℕ) → a < 2 ^ k → b < 2 ^ k → digits z f n a b < 2 ^ k
  digits-lt zero k a b ha hb = omega (arith, below b)
  digits-lt (suc n) k zero b ha hb = omega (arith, below b)
  digits-lt (suc n) zero (suc a) b ha hb = absurd (omega arith)
  digits-lt (suc n) (suc k) (suc a) b ha hb = omega (
    arith,
    pow-suc 2 k,
    digit (suc a % 2) (b % 2) (omega arith) (omega arith),
    digits-lt n k (suc a / 2) (b / 2) (omega (arith, pow-suc 2 k)) (omega (arith, pow-suc 2 k)),
  )

module _ (k a b : ℕ) (ha : a < 2 ^ k) (hb : b < 2 ^ k) where
  pub bit_and-lt : bit_and a b < 2 ^ k
  bit_and-lt =
      simp bit_and-bitwise
        (digits-lt (λ b. zero) min (λ b. omega arith) (λ x y hx hy. omega arith) a k a b ha hb)

  pub bit_or-lt : bit_or a b < 2 ^ k
  bit_or-lt =
      simp bit_or-bitwise
        (digits-lt (λ b. b) max (λ b. omega arith) (λ x y hx hy. omega arith) a k a b ha hb)

-- Two tests in one, and a read that gives the number expected.
pub both : (p q : Bool) → (p && q) ≡ true → (p ≡ true) × (q ≡ true)
both true q e = (refl, e)
both false q e = absurd (ground (arith, e))

abbrev pub reads_back : ℕ → Option ℕ → Bool
reads_back n none = false
reads_back n (some m) = m == n

pub reads_back-some : (n : ℕ) (o : Option ℕ) → reads_back n o ≡ true → o ≡ some n
reads_back-some n none e = absurd (ground (arith, e))
reads_back-some n (some m) e = ap some (ground (arith, e))
