-- ===== src/Api/RoundMetrics/Averages.antt =====
-- The averages of the last rounds.
use haruki_event_tracker.Prelude.{
  ℕ, zero, suc, ◌*◌, wrap_i64, wrap_i64-pos, ◌+ℤ◌, ltb_ℤ, ◌+◌, ◌-◌, ◌/◌, ◌≤◌, ◌<◌, ltb, ℤ, ◌-ℤ◌,
  pos, true, List, [], ◌∷◌, length, All, Option, none, some, ◌≡◌, ◌⊎◌, refl, ap, ◌∙◌, arith,
  Bool-cases, Option-cases, inl, inr,
}
use native.Mathlib.Nat.{add-div_left}
use haruki_event_tracker.Api.Schemas.{RecordedRankData, CloudRankInfoSchema}
use haruki_event_tracker.Api.RoundMetrics.{
  CloudTraceSample, seconds, find_window_baseline_index, unwrap_or, deltas,
  effective_tracker_window_end_unix_seconds, last, drop, total, avg_window, with_averages,
  recovery_record_start_at,
}
use haruki_event_tracker.Api.RoundMetrics.Speeds.{
  metric_samples_of, with_record_start, with_window, with_speeds, window_from, hour_from, base_at,
  samples_of, apply_cloud_trace_metrics_at,
}
use haruki_event_tracker.Api.RoundMetrics.Scores.{HasScore, IsGain, deltas-All, samples_of-All}

-- The averages are those before, or of one to ten rounds of a positive gain each.
abbrev pub HasAverages : CloudRankInfoSchema → CloudRankInfoSchema → Type 0
HasAverages before info =
    ((info.average_round ≡ before.average_round)
      × (info.average_pt ≡ before.average_pt)
      × (info.latest_pt ≡ before.latest_pt))
    ⊎ ((n p l : ℕ) × (info.average_round ≡ some (pos n))
        × (info.average_pt ≡ some (pos p))
        × (info.latest_pt ≡ some (pos l))
        × (1 ≤ n)
        × (n ≤ 10)
        × (1 ≤ p)
        × (1 ≤ l))

drop-All : (n : ℕ) (ds : List ℕ) → All IsGain ds → All IsGain (drop n ds)
drop-All zero ds h = h
drop-All (suc n) [] h = tt
drop-All (suc n) (d ∷ ds) h = drop-All n ds h.1

length-drop : {A : Type 0} (n : ℕ) (xs : List A) → length (drop n xs) ≡ length xs - n
length-drop zero xs = omega arith
length-drop (suc n) [] = omega arith
length-drop (suc n) (x ∷ xs) = omega (arith, length-drop n xs)

abbrev sum : List ℕ → ℕ
sum [] = 0
sum (d ∷ ds) = d + sum ds

length-sum-le :
    (ds : List ℕ) → All IsGain ds → (length ds ≤ sum ds) × (sum ds ≤ length ds * 576460752303423488)
length-sum-le [] h = (omega arith, omega arith)
length-sum-le (d ∷ ds) h =
    let (least, most) = length-sum-le ds h.1 in
    (omega (arith, h.0.0, least), omega (arith, h.0.1, most))

add_pos : (a b : ℕ) → pos a +ℤ pos b ≡ pos (a + b)
unfolding ◌+ℤ◌
add_pos a b = ground arith

-- The sum of at most ten gains does not wrap around.
total-sum : (ds : List ℕ) → All IsGain ds → length ds ≤ 10 → total ds ≡ pos (sum ds)
unfolding total
total-sum [] h b = refl
total-sum (d ∷ ds) h b =
    ap (λ t. wrap_i64 (pos d +ℤ t)) (total-sum ds h.1 (omega (arith, b)))
    ∙ ap wrap_i64 (add_pos d (sum ds))
    ∙ wrap_i64-pos (d + sum ds) (omega (arith, (length-sum-le (d ∷ ds) h).1, b))

last-All : (ds : List ℕ) (l : ℕ) → All IsGain ds → last ds ≡ some l → (1 ≤ l) × (0 < length ds)
unfolding last
last-All [] l h e = absurd (ground arith)
last-All (d ∷ []) l h e = ground (arith, h.0.0)
last-All (d ∷ c ∷ ds) l h e = ((last-All (c ∷ ds) l h.1 e).0, omega arith)

div_ge_one : (t k : ℕ) → 0 < k → k ≤ t → 1 ≤ t / k
div_ge_one t k p h =
    let split : k + (t - k) ≡ t = omega (arith, h) in
    omega (arith, ap (λ x. x / k) split, add-div_left (t - k) p)

avg_window-All : (ds : List ℕ) → All IsGain ds → All IsGain (avg_window ds)
avg_window-All ds h = elim (Bool-cases (ltb 10 (length ds))) [
  | inl long ↦ rw long (drop-All (length ds - 10) ds h)
  | inr short ↦ rw short h
]

length-avg_window :
    (ds : List ℕ) → 0 < length ds → (0 < length (avg_window ds)) × (length (avg_window ds) ≤ 10)
length-avg_window ds b = elim (Bool-cases (ltb 10 (length ds))) [
  | inl long ↦ rw long (ground (arith, length-drop (length ds - 10) ds))
  | inr short ↦ rw short (ground arith)
]

with_averages-HasAverages :
    (ds : List ℕ) (info : CloudRankInfoSchema)
    → All IsGain ds
    → HasAverages info (with_averages ds (last ds) info)
unfolding with_averages
with_averages-HasAverages ds info h = elim (Option-cases (last ds)) [
  | inl n ↦ rw n (inl (refl, refl, refl))
  | inr (l, n) ↦
      let (positive, some_gain) = last-All ds l h n in
      let (least, most) = length-avg_window ds some_gain in
      let counted : ltb 0 (length (avg_window ds)) ≡ true = ground (arith, least) in
      let average =
        div_ge_one (sum (avg_window ds)) (length (avg_window ds)) least
          (length-sum-le (avg_window ds) (avg_window-All ds h)).0 in
      let summed = total-sum (avg_window ds) (avg_window-All ds h) most in
      rw (n, with_averages, counted, summed)
        (inr (
          length (avg_window ds),
          sum (avg_window ds) / length (avg_window ds),
          l,
          refl,
          refl,
          refl,
          omega (arith, least),
          most,
          average,
          positive,
        ))
]

-- The speeds leave the averages alone.
window_from-HasAverages :
    (latest : CloudTraceSample) (base : Option CloudTraceSample) (before info : CloudRankInfoSchema)
    → HasAverages before info
    → HasAverages before (window_from latest base info)
unfolding window_from
window_from-HasAverages latest none before info h = h
window_from-HasAverages latest (some base) before info h = h

hour_from-HasAverages :
    (end_sec : ℤ) (latest : CloudTraceSample) (since : List CloudTraceSample)
    (base : Option CloudTraceSample) (before info : CloudRankInfoSchema)
    → HasAverages before info
    → HasAverages before (hour_from end_sec latest since base info)
unfolding hour_from
hour_from-HasAverages end_sec latest since none before info h = h
hour_from-HasAverages end_sec latest since (some base) before info h =
    elim (Bool-cases (ltb_ℤ (seconds base) end_sec)) [
      | inl later ↦ rw later h
      | inr same ↦ rw same h
    ]

with_speeds-HasAverages :
    (end_sec : ℤ) (latest : CloudTraceSample) (samples : List CloudTraceSample)
    (before info : CloudRankInfoSchema)
    → HasAverages before info
    → HasAverages before (with_speeds end_sec latest samples info)
unfolding with_speeds
with_speeds-HasAverages end_sec latest samples before info h =
    let hour_base = find_window_baseline_index samples (end_sec -ℤ pos 3600) in
    let since = drop (unwrap_or 0 hour_base) samples in
    window_from-HasAverages latest
      (base_at samples (find_window_baseline_index samples (end_sec -ℤ pos 1200))) before
      (hour_from end_sec latest since (base_at samples hour_base) info)
      (hour_from-HasAverages end_sec latest since (base_at samples hour_base) before info h)

with_window-HasAverages :
    (now_sec : ℤ) (samples : List CloudTraceSample) (latest : Option CloudTraceSample)
    (before info : CloudRankInfoSchema)
    → HasAverages before info
    → HasAverages before (with_window now_sec samples latest info)
unfolding with_window
with_window-HasAverages now_sec samples none before info h = h
with_window-HasAverages now_sec samples (some latest) before info h =
    elim (Bool-cases (
      ltb
        (length (
          metric_samples_of (effective_tracker_window_end_unix_seconds latest.timestamp now_sec)
            samples))
        2)) [
          | inl few ↦ rw few h
          | inr many ↦ rw many (
              with_speeds-HasAverages
                (effective_tracker_window_end_unix_seconds latest.timestamp now_sec) latest
                (metric_samples_of
                  (effective_tracker_window_end_unix_seconds latest.timestamp now_sec) samples)
                before info h)
        ]

with_record_start-averages :
    (start : Option ℤ) (info : CloudRankInfoSchema) (ds : List ℕ)
    → All IsGain ds
    → HasAverages info (with_averages ds (last ds) (with_record_start start info))
with_record_start-averages none info ds h = with_averages-HasAverages ds info h
with_record_start-averages (some start) info ds h =
    with_averages-HasAverages ds (with_record_start (some start) info) h

-- Whatever the clock, for a trace of scores of at least 0 and below 2 ^ 59, the averages of an answer
-- are those before, or they are of one to ten rounds, with an average gain of at least 1 and a
-- latest gain of at least 1.
pub apply_cloud_trace_metrics_at-HasAverages :
    (info : CloudRankInfoSchema) (trace : List RecordedRankData) (now_sec : ℤ)
    → All HasScore trace
    → HasAverages info (apply_cloud_trace_metrics_at info trace now_sec)
unfolding apply_cloud_trace_metrics_at
apply_cloud_trace_metrics_at-HasAverages info trace now_sec h =
    elim (Bool-cases (ltb (length (samples_of trace)) 2)) [
      | inl few ↦ rw few (inl (refl, refl, refl))
      | inr many ↦ rw many (
          with_window-HasAverages now_sec (samples_of trace) (last (samples_of trace)) info
            (with_averages (deltas (samples_of trace)) (last (deltas (samples_of trace)))
              (with_record_start (recovery_record_start_at (samples_of trace)) info))
            (with_record_start-averages (recovery_record_start_at (samples_of trace)) info
              (deltas (samples_of trace)) (deltas-All (samples_of trace) (samples_of-All trace h))))
    ]
