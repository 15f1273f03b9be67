-- ===== src/Api/RoundMetrics/Scores.antt =====
-- The gains between scores that are bounded.
use haruki_event_tracker.Prelude.{
  ℕ, ◌^◌, Bool, leb_ℤ, filter, filter_map, neg_part, pos_part, wrap_i64, wrap_i64-sub, ltb_ℤ, ◌≤◌,
  ◌<◌, ℤ, ◌-ℤ◌, pos, List, [], ◌∷◌, All, Option, none, some, ◌≡◌, refl, subst, negsuc,
  if◌then◌else◌, arith, Bool-cases, inl, inr,
}
use native.Mathlib.Nat.{}
use haruki_event_tracker.Api.Schemas.{RecordedRankData, normal, world_bloom}
use haruki_event_tracker.Api.RoundMetrics.{
  CloudTraceSample, cloud_trace_sample, insert_by_time, sort_by_time, seconds, gain, push_some,
  deltas,
}
use haruki_event_tracker.Api.RoundMetrics.Speeds.{samples_of}

-- A score of at least 0 and below 2 ^ 59: the sum of ten gains then stays in an `i64`.
abbrev pub IsScore : ℤ → Type 0
IsScore score = (neg_part score ≡ 0) × (pos_part score < 2 ^ 59)

abbrev pub HasScore : RecordedRankData → Type 0
HasScore (normal d) = IsScore d.score
HasScore (world_bloom d) = IsScore d.score

abbrev pub IsGain : ℕ → Type 0
IsGain d = (1 ≤ d) × (d < 2 ^ 59)

-- A positive difference of two scores does not wrap around.
difference-IsGain :
    (x y : ℤ) (d : ℕ)
    → IsScore x
    → IsScore y
    → (if ltb_ℤ (pos 0) (wrap_i64 (y -ℤ x)) then some (pos_part (wrap_i64 (y -ℤ x))) else none)
      ≡ some d
    → IsGain d
unfolding ◌-ℤ◌
difference-IsGain (pos a) (pos b) d h k e =
    let w = wrap_i64-sub b a (omega (arith, k.1)) (omega (arith, h.1)) in
    let e' = subst (λ z. (if ltb_ℤ (pos 0) z then some (pos_part z) else none) ≡ some d) w e in
    ground (arith, e', k.1, h.1)
difference-IsGain (pos a) (negsuc b) d h k e = absurd (omega (arith, k.0))
difference-IsGain (negsuc a) y d h k e = absurd (omega (arith, h.0))

gain-IsGain :
    (a b : CloudTraceSample) (d : ℕ)
    → IsScore a.score
    → IsScore b.score
    → gain a b ≡ some d
    → IsGain d
unfolding gain
gain-IsGain a b d = difference-IsGain a.score b.score d

push_some-All :
    (g : Option ℕ) (ds : List ℕ)
    → ((d : ℕ) → g ≡ some d → IsGain d)
    → All IsGain ds
    → All IsGain (push_some g ds)
push_some-All none ds p h = h
push_some-All (some d) ds p h = (p d refl, h)

pub deltas-All :
    (samples : List CloudTraceSample)
    → All (λ s. IsScore s.score) samples
    → All IsGain (deltas samples)
unfolding deltas
deltas-All [] h = tt
deltas-All (a ∷ []) h = tt
deltas-All (a ∷ b ∷ samples) h =
    push_some-All (gain a b) (deltas (b ∷ samples)) (λ d. gain-IsGain a b d h.0 h.1.0)
      (deltas-All (b ∷ samples) h.1)

filter_map-All :
    (trace : List RecordedRankData)
    → All HasScore trace
    → All (λ s. IsScore s.score) (filter_map cloud_trace_sample trace)
filter_map-All [] h = tt
filter_map-All (normal d ∷ trace) h = (h.0, filter_map-All trace h.1)
filter_map-All (world_bloom d ∷ trace) h = (h.0, filter_map-All trace h.1)

filter-All :
    (p : CloudTraceSample → Bool) (samples : List CloudTraceSample)
    → All (λ s. IsScore s.score) samples
    → All (λ s. IsScore s.score) (filter p samples)
filter-All p [] h = tt
filter-All p (s ∷ samples) h = elim (Bool-cases (p s)) [
  | inl e ↦ rw e (h.0, filter-All p samples h.1)
  | inr e ↦ rw e (filter-All p samples h.1)
]

insert_by_time-All :
    (s : CloudTraceSample) (samples : List CloudTraceSample)
    → IsScore s.score
    → All (λ t. IsScore t.score) samples
    → All (λ t. IsScore t.score) (insert_by_time s samples)
insert_by_time-All s [] p h = (p, tt)
insert_by_time-All s (t ∷ samples) p h = elim (Bool-cases (leb_ℤ (seconds s) (seconds t))) [
  | inl e ↦ rw e (p, h)
  | inr e ↦ rw e (h.0, insert_by_time-All s samples p h.1)
]

sort_by_time-All :
    (samples : List CloudTraceSample)
    → All (λ t. IsScore t.score) samples
    → All (λ t. IsScore t.score) (sort_by_time samples)
unfolding sort_by_time
sort_by_time-All [] h = tt
sort_by_time-All (s ∷ samples) h =
    insert_by_time-All s (sort_by_time samples) h.0 (sort_by_time-All samples h.1)

pub samples_of-All :
    (trace : List RecordedRankData)
    → All HasScore trace
    → All (λ s. IsScore s.score) (samples_of trace)
unfolding samples_of
samples_of-All trace h = sort_by_time-All _ (filter-All _ _ (filter_map-All trace h))
