-- ===== src/Prelude/Text/Roundtrip.antt =====
-- Printing an `i64` and parsing it back.
use Prim.Native.Nat.{ℕ, zero, suc, ◌+◌, ◌-◌, ◌*◌, ◌/◌, ◌%◌, ◌^◌, ◌<◌, ◌≤◌}
use mathlib.Core.Path.{◌≡◌, refl, ap, ◌∙◌}
use mathlib.Core.Logic.{inl, inr}
use mathlib.Core.Bool.{true}
use mathlib.Core.List.{[], ◌∷◌}
use mathlib.Core.Option.{some}
use native.Mathlib.Omega.{arith}
use native.Mathlib.Nat.{pow-suc}
use haruki_event_tracker.Prelude.Tests.{ltb, Bool-cases}
use haruki_event_tracker.Prelude.Int.{ℤ, pos, negsuc, IsI64}
use haruki_event_tracker.Prelude.Text.{
  Text, digits_onto, decimal, to_string, is_digit, digits_from, magnitude, minus, parse_i64,
}

digits_from-cons :
    (a d : ℕ) (acc : Text)
    → d < 10
    → digits_from a ((b'0' + d) ∷ acc) ≡ digits_from (a * 10 + d) acc
unfolding digits_from
digits_from-cons a d acc h =
    let e : a * 10 + (b'0' + d - b'0') ≡ a * 10 + d = omega arith in
    ground (arith, ap (λ (k : ℕ). digits_from k acc) e)

digits_from-digits_onto :
    (f n : ℕ) (acc : Text) → n < 10 ^ f → digits_from 0 (digits_onto f n acc) ≡ digits_from n acc
unfolding digits_onto
digits_from-digits_onto zero n acc h = ap (λ (k : ℕ). digits_from k acc) (omega arith)
digits_from-digits_onto (suc f) n acc h = elim (Bool-cases (ltb n 10)) [
  | inl small ↦ rw small (
      digits_from-cons 0 (n % 10) acc (omega arith)
      ∙ ap (λ (k : ℕ). digits_from k acc) (ground arith))
  | inr large ↦ rw large (
      digits_from-digits_onto f (n / 10) ((b'0' + n % 10) ∷ acc) (omega (arith, pow-suc 10 f))
      ∙ digits_from-cons (n / 10) (n % 10) acc (omega arith)
      ∙ ap (λ (k : ℕ). digits_from k acc) (omega arith))
]

-- The first character is a digit.
abbrev StartsWithDigit : Text → Type 0
StartsWithDigit [] = ⊥
StartsWithDigit (c ∷ cs) = is_digit c ≡ true

digits_onto-StartsWithDigit :
    (f n : ℕ) (acc : Text) → StartsWithDigit acc → StartsWithDigit (digits_onto f n acc)
unfolding digits_onto is_digit
digits_onto-StartsWithDigit zero n acc h = h
digits_onto-StartsWithDigit (suc f) n acc h = elim (Bool-cases (ltb n 10)) [
  | inl small ↦ rw small (ground arith)
  | inr large ↦
      rw large (digits_onto-StartsWithDigit f (n / 10) ((b'0' + n % 10) ∷ acc) (ground arith))
]

decimal-StartsWithDigit : (n : ℕ) → StartsWithDigit (decimal n)
unfolding decimal digits_onto is_digit
decimal-StartsWithDigit n = elim (Bool-cases (ltb n 10)) [
  | inl small ↦ rw small (ground arith)
  | inr large ↦
      rw large (digits_onto-StartsWithDigit 19 (n / 10) ((b'0' + n % 10) ∷ []) (ground arith))
]

digits_from-decimal : (n : ℕ) → n < 10 ^ 20 → digits_from 0 (decimal n) ≡ some n
unfolding decimal
digits_from-decimal n h = digits_from-digits_onto 20 n [] h ∙ (unfold digits_from in refl)

magnitude-digits :
    (limit n : ℕ) (cs : Text)
    → StartsWithDigit cs
    → digits_from 0 cs ≡ some n
    → n ≤ limit
    → magnitude limit cs ≡ some n
unfolding magnitude
magnitude-digits limit n [] h e b = elim h [ ]
magnitude-digits limit n (c ∷ cs) h e b = ground arith

parse_i64-digits :
    (n : ℕ) (cs : Text)
    → StartsWithDigit cs
    → digits_from 0 cs ≡ some n
    → n ≤ 2 ^ 63 - 1
    → parse_i64 cs ≡ some (pos n)
unfolding parse_i64 is_digit
parse_i64-digits n [] h e b = elim h [ ]
parse_i64-digits n (c ∷ cs) h e b = ground (arith, magnitude-digits (2 ^ 63 - 1) n (c ∷ cs) h e b)

-- Printing and parsing an `i64` gives it back.
pub parse_i64-to_string : (z : ℤ) → IsI64 z → parse_i64 (to_string z) ≡ some z
unfolding to_string parse_i64 minus
parse_i64-to_string (pos n) h =
    parse_i64-digits n (decimal n) (decimal-StartsWithDigit n) (digits_from-decimal n (omega arith))
      (omega arith)
parse_i64-to_string (negsuc n) h = rw (
    magnitude-digits (2 ^ 63) (suc n) (decimal (suc n)) (decimal-StartsWithDigit (suc n))
      (digits_from-decimal (suc n) (omega arith)) (omega arith))
