-- ===== src/Api/RoundMetrics/Baseline.antt =====
-- Where a window of samples starts.
use haruki_event_tracker.Prelude.{
  ℕ, zero, suc, ◌+◌, ◌-◌, ◌<◌, ℤ, leb_ℤ, ◌≤ℤ◌, false, List, [], ◌∷◌, length, filter, All, All-mono,
  Option, none, some, ◌≡◌, refl, ap, sym, ◌∙◌, arith, Bool-cases, inl, inr,
}
use haruki_event_tracker.Api.RoundMetrics.{
  CloudTraceSample, seconds, baseline_from, unwrap_or, find_window_baseline_index, insert_by_time,
  sort_by_time,
}

-- In order of time.
abbrev pub IsOrdered : List CloudTraceSample → Type 0
IsOrdered [] = Unit
IsOrdered (s ∷ samples) = All (λ t. seconds s ≤ℤ seconds t) samples × IsOrdered samples

-- The samples that are not after an instant.
abbrev pub until : ℤ → List CloudTraceSample → List CloudTraceSample
until start = filter (λ s. leb_ℤ (seconds s) start)

-- No sample is left when the first is after the instant.
until_none :
    (start : ℤ) (s : CloudTraceSample) (samples : List CloudTraceSample)
    → leb_ℤ (seconds s) start ≡ false
    → All (λ t. seconds s ≤ℤ seconds t) samples
    → length (until start samples) ≡ 0
until_none start s [] f h = refl
until_none start s (t ∷ samples) f h = ground (arith, until_none start s samples f h.1, h.0)

-- The index that the loop ends with, when `n` more samples are not after the instant.
abbrev index_after : ℕ → Option ℕ → ℕ → Option ℕ
index_after idx baseline zero = baseline
index_after idx baseline (suc n) = some (idx + n)

index_after_one : (idx n : ℕ) → index_after (idx + 1) (some idx) n ≡ some (idx + n)
index_after_one idx zero = ground arith
index_after_one idx (suc n) = ground arith

baseline_from-until :
    (start : ℤ) (idx : ℕ) (baseline : Option ℕ) (samples : List CloudTraceSample)
    → IsOrdered samples
    → baseline_from start idx baseline samples
      ≡ index_after idx baseline (length (until start samples))
baseline_from-until start idx baseline [] o = refl
baseline_from-until start idx baseline (s ∷ samples) o =
    elim (Bool-cases (leb_ℤ (seconds s) start)) [
      | inl first ↦ rw first (
          baseline_from-until start (idx + 1) (some idx) samples o.1
          ∙ index_after_one idx (length (until start samples)))
      | inr beyond ↦
          rw beyond (ap (index_after idx baseline) (sym (until_none start s samples beyond o.0)))
    ]

length-until-insert_by_time :
    (start : ℤ) (s : CloudTraceSample) (samples : List CloudTraceSample)
    → length (until start (insert_by_time s samples)) ≡ length (until start (s ∷ samples))
length-until-insert_by_time start s [] = refl
length-until-insert_by_time start s (t ∷ samples) =
    elim (Bool-cases (leb_ℤ (seconds s) (seconds t))) [
      | inl le ↦ rw le refl
      | inr gt ↦ rw gt (ground (arith, length-until-insert_by_time start s samples))
    ]

length-until-sort_by_time :
    (start : ℤ) (samples : List CloudTraceSample)
    → length (until start (sort_by_time samples)) ≡ length (until start samples)
unfolding sort_by_time
length-until-sort_by_time start [] = refl
length-until-sort_by_time start (s ∷ samples) = ground (
  arith,
  length-until-insert_by_time start s (sort_by_time samples),
  length-until-sort_by_time start samples,
)

insert_by_time-All :
    (P : CloudTraceSample → Type 0) (s : CloudTraceSample) (samples : List CloudTraceSample)
    → P s
    → All P samples
    → All P (insert_by_time s samples)
insert_by_time-All P s [] p h = (p, tt)
insert_by_time-All P s (t ∷ samples) p h = elim (Bool-cases (leb_ℤ (seconds s) (seconds t))) [
  | inl le ↦ rw le (p, h)
  | inr gt ↦ rw gt (h.0, insert_by_time-All P s samples p h.1)
]

insert_by_time-IsOrdered :
    (s : CloudTraceSample) (samples : List CloudTraceSample)
    → IsOrdered samples
    → IsOrdered (insert_by_time s samples)
insert_by_time-IsOrdered s [] o = (tt, tt)
insert_by_time-IsOrdered s (t ∷ samples) o = elim (Bool-cases (leb_ℤ (seconds s) (seconds t))) [
  | inl le ↦
      let first : seconds s ≤ℤ seconds t = ground arith in
      rw le ((first, All-mono _ _ (λ u p. omega (arith, p, first)) samples o.0), o)
  | inr gt ↦
      let before : seconds t ≤ℤ seconds s = ground arith in
      rw gt (insert_by_time-All _ s samples before o.0, insert_by_time-IsOrdered s samples o.1)
]

sort_by_time-IsOrdered : (samples : List CloudTraceSample) → IsOrdered (sort_by_time samples)
unfolding sort_by_time
sort_by_time-IsOrdered [] = tt
sort_by_time-IsOrdered (s ∷ samples) =
    insert_by_time-IsOrdered s (sort_by_time samples) (sort_by_time-IsOrdered samples)

length-insert_by_time :
    (s : CloudTraceSample) (samples : List CloudTraceSample)
    → length (insert_by_time s samples) ≡ 1 + length samples
length-insert_by_time s [] = refl
length-insert_by_time s (t ∷ samples) = ground (arith, length-insert_by_time s samples)

unwrapped : (n : ℕ) → unwrap_or 0 (index_after 0 none n) ≡ n - 1
unwrapped zero = refl
unwrapped (suc n) = omega arith

length-sort_by_time :
    (samples : List CloudTraceSample) → length (sort_by_time samples) ≡ length samples
unfolding sort_by_time
length-sort_by_time [] = refl
length-sort_by_time (s ∷ samples) =
    ground (arith, length-insert_by_time s (sort_by_time samples), length-sort_by_time samples)

find_ordered :
    (start : ℤ) (samples : List CloudTraceSample)
    → IsOrdered samples
    → 0 < length samples
    → find_window_baseline_index samples start ≡ some (length (until start samples) - 1)
unfolding find_window_baseline_index
find_ordered start [] o b = absurd (ground arith)
find_ordered start (s ∷ samples) o b =
    ap (λ i. some (unwrap_or 0 i)) (baseline_from-until start 0 none (s ∷ samples) o)
    ∙ ap some (unwrapped (length (until start (s ∷ samples))))

-- In samples that are sorted by time, the baseline of a window is at the number of samples that are
-- not after its start, less one, and at 0 when there is none.
pub find_window_baseline_index_sorted :
    (start : ℤ) (samples : List CloudTraceSample)
    → 0 < length samples
    → find_window_baseline_index (sort_by_time samples) start
      ≡ some (length (until start samples) - 1)
find_window_baseline_index_sorted start samples b =
    find_ordered start (sort_by_time samples) (sort_by_time-IsOrdered samples)
      (omega (arith, length-sort_by_time samples))
    ∙ ap (λ n. some (n - 1)) (length-until-sort_by_time start samples)
