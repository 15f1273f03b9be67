-- ===== src/Tracker/Parser/Remain.antt =====
-- The remaining-time text, against its parts.
use mathlib.Core.List.{append_assoc, append-nil}
use native.Mathlib.Decide.{dec_lt}
use haruki_event_tracker.Prelude.{
  ℕ, suc, ◌-◌, ◌*◌, ◌/◌, ◌%◌, ◌≤◌, ◌<◌, pos, Bool, true, false, [], ◌++◌, some, ◌≡◌, refl, ap, ◌∙◌,
  sym, arith, ltb, if◌then◌else◌,
}
use haruki_event_tracker.Prelude.Text.{Text, codes, decimal}
use haruki_event_tracker.Model.Enums.{SekaiServerRegion}
use haruki_event_tracker.Tracker.Parser.{TimeUnit, time_units, remain_fuel, event_time_remain}

abbrev pub when : Bool → Text → Text
when true s = s
when false s = []

abbrev pub at_least : ℕ → ℕ → Bool
at_least k n = if ltb n k then false else true

-- Less than a day as hours, minutes and seconds. Hours stand from one hour on, and minutes from
-- one minute on; without seconds the minutes always stand.
unfoldable pub day_text : ℕ → Bool → TimeUnit → Text
day_text r show_seconds t =
    when (at_least 3600 r) (decimal (r / 3600) ++ t.hour)
    ++ (when (if show_seconds then at_least 60 r else true) (decimal (r % 3600 / 60) ++ t.minute)
        ++ when show_seconds (decimal (r % 60) ++ t.second))

-- Whole days, from one day on, before the text of the rest.
unfoldable pub clock_text : ℕ → Bool → TimeUnit → Text
unfolding day_text
clock_text n show_seconds t =
    when (at_least 86400 n) (decimal (n / 86400) ++ t.day) ++ day_text (n % 86400) show_seconds t

decimal-zero : decimal 0 ≡ codes "0"
unfolding decimal
decimal-zero = refl

under_minute :
    (n : ℕ) (show_seconds : Bool) (t : TimeUnit) (f : ℕ)
    → n < 60
    → remain_fuel (suc f) (pos n) show_seconds t ≡ some (day_text n show_seconds t)
unfolding remain_fuel day_text
under_minute n true t f h = let e : n % 60 ≡ n = omega arith in ground (arith, ap decimal e)
under_minute n false t f h =
    let e : n % 3600 / 60 ≡ 0 = omega arith in
    ground (arith, ap decimal e, decimal-zero, append-nil (decimal 0 ++ t.minute))

under_hour :
    (n : ℕ) (show_seconds : Bool) (t : TimeUnit) (f : ℕ)
    → 60 ≤ n
    → n < 3600
    → remain_fuel (suc f) (pos n) show_seconds t ≡ some (day_text n show_seconds t)
unfolding remain_fuel day_text
under_hour n true t f l h =
    let e : n % 3600 / 60 ≡ n / 60 = omega arith in
    ground
      (arith, ap decimal e, append_assoc (decimal (n / 60) ++ t.minute) (decimal (n % 60)) t.second)
under_hour n false t f l h =
    let e : n % 3600 / 60 ≡ n / 60 = omega arith in
    ground (arith, ap decimal e, append-nil (decimal (n / 60) ++ t.minute))

under_day :
    (n : ℕ) (show_seconds : Bool) (t : TimeUnit) (f : ℕ)
    → 3600 ≤ n
    → n < 86400
    → remain_fuel (suc f) (pos n) show_seconds t ≡ some (day_text n show_seconds t)
unfolding remain_fuel day_text
under_day n true t f l h =
    let h' = decimal (n / 3600) ++ t.hour in
    let rem = n - 3600 * (n / 3600) in
    let b : n % 3600 / 60 ≡ rem / 60 = omega arith in
    let c : n % 60 ≡ rem % 60 = omega arith in
    ground (
      arith,
      ap decimal b,
      ap decimal c,
      append_assoc h' (decimal (rem / 60)) t.minute,
      append_assoc h' (decimal (rem / 60) ++ t.minute) (decimal (rem % 60) ++ t.second),
      append_assoc (h' ++ decimal (rem / 60) ++ t.minute) (decimal (rem % 60)) t.second,
    )
under_day n false t f l h =
    let h' = decimal (n / 3600) ++ t.hour in
    let rem = n - 3600 * (n / 3600) in
    let b : n % 3600 / 60 ≡ rem / 60 = omega arith in
    ground (
      arith,
      ap decimal b,
      append_assoc h' (decimal (rem / 60)) t.minute,
      append-nil (decimal (rem / 60) ++ t.minute),
    )

less_than_day :
    (n : ℕ) (show_seconds : Bool) (t : TimeUnit) (f : ℕ)
    → n < 86400
    → remain_fuel (suc f) (pos n) show_seconds t ≡ some (day_text n show_seconds t)
less_than_day n show_seconds t f h = elim (dec_lt n 60) [
  | yes p ↦ under_minute n show_seconds t f p
  | no p ↦ elim (dec_lt n 3600) [
    | yes q ↦ under_hour n show_seconds t f (omega arith) q
    | no q ↦ under_day n show_seconds t f (omega arith) h
  ]
]

clock_text-day :
    (n : ℕ) (show_seconds : Bool) (t : TimeUnit)
    → n < 86400
    → clock_text n show_seconds t ≡ day_text n show_seconds t
unfolding clock_text
clock_text-day n show_seconds t h =
    let e : n % 86400 ≡ n = omega arith in
    let c : at_least 86400 n ≡ false = ground arith in rw (c, e)

clock_text-days :
    (n : ℕ) (show_seconds : Bool) (t : TimeUnit)
    → 86400 ≤ n
    → clock_text n show_seconds t
      ≡ decimal (n / 86400) ++ t.day ++ day_text (n % 86400) show_seconds t
unfolding clock_text
clock_text-days n show_seconds t h = let c : at_least 86400 n ≡ true = ground arith in rw c

remain_fuel-days :
    (n : ℕ) (show_seconds : Bool) (t : TimeUnit) (f : ℕ) (text : Text)
    → 86400 ≤ n
    → remain_fuel f (pos (n % 86400)) show_seconds t ≡ some text
    → remain_fuel (suc f) (pos n) show_seconds t ≡ some (decimal (n / 86400) ++ t.day ++ text)
unfolding remain_fuel
remain_fuel-days n show_seconds t f text h k =
    let e : n - 86400 * (n / 86400) ≡ n % 86400 = omega arith in
    let k' = ap (λ (m : ℕ). remain_fuel f (pos m) show_seconds t) e ∙ k in ground arith

-- For every number of seconds that is not negative the fuel is enough, and the text is that of
-- its days, hours, minutes and seconds in the units of the server.
pub event_time_remain_parts :
    (n : ℕ) (show_seconds : Bool) (server : SekaiServerRegion)
    → event_time_remain (pos n) show_seconds server
      ≡ some (clock_text n show_seconds (time_units server))
unfolding event_time_remain
event_time_remain_parts n show_seconds server =
    let t = time_units server in
    elim (dec_lt n 86400) [
      | yes p ↦
          less_than_day n show_seconds t 1 p ∙ ap some (sym (clock_text-day n show_seconds t p))
      | no p ↦
          remain_fuel-days n show_seconds t 1 (day_text (n % 86400) show_seconds t) (omega arith)
            (less_than_day (n % 86400) show_seconds t 0 (omega arith))
          ∙ ap some (sym (clock_text-days n show_seconds t (omega arith)))
    ]
