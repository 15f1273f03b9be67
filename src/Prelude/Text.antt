-- ===== src/Prelude/Text.antt =====
-- Text as a list of code points; `i64::to_string` and `str::parse::<i64>`.
pub mod Roundtrip
use Prim.Native.Nat.{ℕ, zero, suc, ◌+◌, ◌-◌, ◌*◌, ◌/◌, ◌%◌, ◌^◌}
use Prim.Native.Char.{code}
use Prim.Native.String.{String}
use mathlib.Core.Bool.{Bool, ◌&&◌}
use mathlib.Core.List.{List, [], ◌∷◌}
use mathlib.Core.Option.{Option, none, some}
use haruki_event_tracker.Prelude.Tests.{leb, ltb, nat_beq, if◌then◌else◌}
use haruki_event_tracker.Prelude.Int.{ℤ, pos, negsuc}

abbrev pub Text : Type 0
Text = List ℕ

abbrev pub codes : String → Text
codes String.[] = []
codes (String.◌∷◌ c s) = code c ∷ codes s

-- The decimal digits of a number, before those already written; one digit for each unit of fuel.
unfoldable pub digits_onto : ℕ → ℕ → Text → Text
digits_onto zero n acc = acc
digits_onto (suc f) n acc =
    let acc' = (b'0' + n % 10) ∷ acc in
    let rest = digits_onto f (n / 10) acc' in if ltb n 10 then acc' else rest

-- Twenty digits are enough below 10 ^ 20, and so for every 64-bit magnitude.
unfoldable pub decimal : ℕ → Text
unfolding digits_onto
decimal n = digits_onto 20 n []

unfoldable pub to_string : ℤ → Text
unfolding decimal
to_string (pos n) = decimal n
to_string (negsuc n) = b'-' ∷ decimal (suc n)

is_digit : ℕ → Bool
is_digit c = leb b'0' c && leb c b'9'

-- The digits after those already read; a character that is no digit fails.
unfoldable pub digits_from : ℕ → Text → Option ℕ
unfolding is_digit
digits_from n [] = some n
digits_from n (c ∷ cs) = if is_digit c then digits_from (n * 10 + (c - b'0')) cs else none

-- At least one digit, and in range; a leading `+` or `-` alone is refused.
magnitude : ℕ → Text → Option ℕ
unfolding digits_from
magnitude limit [] = none
magnitude limit (c ∷ cs) = elim (digits_from 0 (c ∷ cs)) [
  | none ↦ none
  | some n ↦ if leb n limit then some n else none
]

minus : ℕ → ℤ
minus zero = pos 0
minus (suc n) = negsuc n

unfoldable pub parse_i64 : Text → Option ℤ
unfolding magnitude minus
parse_i64 [] = none
parse_i64 (c ∷ cs) =
    if nat_beq c b'-'
    then elim (magnitude (2 ^ 63) cs) [ none ↦ none | some n ↦ some (minus n) ]
    else if nat_beq c b'+'
    then elim (magnitude (2 ^ 63 - 1) cs) [ none ↦ none | some n ↦ some (pos n) ]
    else elim (magnitude (2 ^ 63 - 1) (c ∷ cs)) [ none ↦ none | some n ↦ some (pos n) ]
