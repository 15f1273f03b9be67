-- ===== src/Api/RoundMetrics.antt =====
-- src/api/handler/leaderboard/round_metrics.rs: what a trace of scores says of the rounds played.
-- The arithmetic of scores wraps around as on `i64`; that of times does not overflow, since the
-- times of the samples are positive. The slice of samples is a list in order.
pub mod Speeds
pub mod Baseline
pub mod Scores
pub mod Averages
use haruki_event_tracker.Prelude.{
  ℕ, zero, suc, ◌+◌, ◌-◌, ◌*◌, ◌/◌, ltb, leb, ℤ, pos, negsuc, pos_part, ◌+ℤ◌, ◌-ℤ◌, wrap_i64,
  div_i64, ltb_ℤ, leb_ℤ, beq_ℤ, Bool, true, false, not, ◌&&◌, ◌||◌, List, [], ◌∷◌, length, filter,
  filter_map, get_elem?, Option, none, some, if◌then◌else◌,
}
use haruki_event_tracker.Prelude.HashMap.{is_some}
use haruki_event_tracker.Api.Schemas.{RecordedRankData, normal, world_bloom, CloudRankInfoSchema}

pub record CloudTraceSample : Type 0 where
  pub score : ℤ
  pub timestamp : ℤ

abbrev pub cloud_trace_sample : RecordedRankData → Option CloudTraceSample
cloud_trace_sample (normal d) = some (record { score = d.score; timestamp = d.timestamp })
cloud_trace_sample (world_bloom d) = some (record { score = d.score; timestamp = d.timestamp })

-- A time in milliseconds is brought to seconds.
abbrev pub normalize_tracker_unix_seconds : ℤ → ℤ
normalize_tracker_unix_seconds (pos n) = if ltb 1000000000000 n then pos (n / 1000) else pos n
normalize_tracker_unix_seconds (negsuc n) = negsuc n

abbrev pub format_tracker_timestamp : ℤ → ℤ
format_tracker_timestamp (pos n) = if ltb 1000000000000 n then pos n else pos (n * 1000)
format_tracker_timestamp (negsuc n) = negsuc ((n + 1) * 1000 - 1)

abbrev pub seconds : CloudTraceSample → ℤ
seconds s = normalize_tracker_unix_seconds s.timestamp

-- 30 days.
abbrev pub tail_max_lag_seconds : ℤ
tail_max_lag_seconds = pos 2592000

unfoldable pub effective_tracker_window_end_unix_seconds : ℤ → ℤ → ℤ
unfolding ◌-ℤ◌
effective_tracker_window_end_unix_seconds last_timestamp now_sec =
    let last_sec = normalize_tracker_unix_seconds last_timestamp in
    if leb_ℤ last_sec (pos 0)
    then last_sec
    else if leb_ℤ now_sec last_sec || ltb_ℤ tail_max_lag_seconds (now_sec -ℤ last_sec)
    then last_sec
    else now_sec

-- The loop of `find_window_baseline_index`, from an index on.
abbrev pub baseline_from : ℤ → ℕ → Option ℕ → List CloudTraceSample → Option ℕ
baseline_from window_start idx baseline [] = baseline
baseline_from window_start idx baseline (s ∷ samples) =
    let rest = baseline_from window_start (idx + 1) (some idx) samples in
    if leb_ℤ (seconds s) window_start then rest else baseline

abbrev pub unwrap_or : ℕ → Option ℕ → ℕ
unwrap_or d none = d
unwrap_or d (some n) = n

unfoldable pub find_window_baseline_index : List CloudTraceSample → ℤ → Option ℕ
find_window_baseline_index [] window_start = none
find_window_baseline_index (s ∷ samples) window_start =
    some (unwrap_or 0 (baseline_from window_start 0 none (s ∷ samples)))

-- The gain from one sample to the next, when there is one.
abbrev pub gain : CloudTraceSample → CloudTraceSample → Option ℕ
unfolding ◌-ℤ◌ wrap_i64
gain a b =
    let diff = wrap_i64 (b.score -ℤ a.score) in
    if ltb_ℤ (pos 0) diff then some (pos_part diff) else none

abbrev pub push_some : Option ℕ → List ℕ → List ℕ
push_some none rest = rest
push_some (some d) rest = d ∷ rest

-- The positive gains, in order: `windows(2)` and `filter_map`.
unfoldable pub deltas : List CloudTraceSample → List ℕ
unfolding gain
deltas [] = []
deltas (a ∷ []) = []
deltas (a ∷ b ∷ samples) = let rest = deltas (b ∷ samples) in push_some (gain a b) rest

unfoldable pub count_positive_deltas : List CloudTraceSample → ℕ
unfolding deltas
count_positive_deltas samples = length (deltas samples)

abbrev pub recovery_idle_seconds : ℤ
recovery_idle_seconds = pos 300

-- The loop of `recovery_record_start_at`, with its three variables; `previous` is the sample before.
unfoldable pub recovery_loop :
    ℤ → CloudTraceSample → Bool → CloudTraceSample → List CloudTraceSample → ℤ
unfolding ◌-ℤ◌
recovery_loop latest flat_start in_flat previous [] = latest
recovery_loop latest flat_start in_flat previous (current ∷ samples) =
    let flat = recovery_loop latest flat_start true current samples in
    let recovered = recovery_loop current.timestamp current false current samples in
    let moved = recovery_loop latest current false current samples in
    if beq_ℤ current.score previous.score
    then flat
    else if ltb_ℤ previous.score current.score
    then (if in_flat && leb_ℤ recovery_idle_seconds (seconds current -ℤ seconds flat_start)
        then recovered
        else moved)
    else moved

unfoldable pub recovery_record_start_at : List CloudTraceSample → Option ℤ
unfolding recovery_loop
recovery_record_start_at [] = none
recovery_record_start_at (s ∷ samples) = some (recovery_loop s.timestamp s false s samples)

-- `sort_by_key`, which is stable.
abbrev pub insert_by_time : CloudTraceSample → List CloudTraceSample → List CloudTraceSample
insert_by_time s [] = s ∷ []
insert_by_time s (t ∷ samples) =
    if leb_ℤ (seconds s) (seconds t) then s ∷ t ∷ samples else t ∷ insert_by_time s samples

unfoldable pub sort_by_time : List CloudTraceSample → List CloudTraceSample
sort_by_time [] = []
sort_by_time (s ∷ samples) = insert_by_time s (sort_by_time samples)

unfoldable pub last : {A : Type 0} → List A → Option A
last [] = none
last (x ∷ []) = some x
last (x ∷ y ∷ xs) = last (y ∷ xs)

abbrev pub drop : {A : Type 0} → ℕ → List A → List A
drop zero xs = xs
drop (suc n) [] = []
drop (suc n) (x ∷ xs) = drop n xs

-- `sum::<i64>`
unfoldable pub total : List ℕ → ℤ
unfolding wrap_i64 ◌+ℤ◌
total [] = pos 0
total (x ∷ xs) = wrap_i64 (pos x +ℤ total xs)

-- The last ten gains, or all.
abbrev pub avg_window : List ℕ → List ℕ
avg_window ds = if ltb 10 (length ds) then drop (length ds - 10) ds else ds

unfoldable pub with_averages : List ℕ → Option ℕ → CloudRankInfoSchema → CloudRankInfoSchema
unfolding total
with_averages ds none info = info
with_averages ds (some latest) info =
    let round_count = length (avg_window ds) in
    if ltb 0 round_count
    then record info {
      latest_pt = some (pos latest);
      average_round = some (pos round_count);
      average_pt = some (div_i64 (total (avg_window ds)) round_count);
    }
    else record info { latest_pt = some (pos latest) }
