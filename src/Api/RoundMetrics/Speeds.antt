-- ===== src/Api/RoundMetrics/Speeds.antt =====
-- src/api/handler/leaderboard/round_metrics.rs: the speeds over the last hour and the last twenty
-- minutes, and the metrics of an answer.
use haruki_event_tracker.Prelude.{
  ℕ, ◌*◌, ltb, ℤ, pos, pos_part, ◌-ℤ◌, wrap_i64, div_i64, ltb_ℤ, Bool, ◌&&◌, List, length, filter,
  filter_map, get_elem?, Option, none, some, if◌then◌else◌,
}
use haruki_event_tracker.Prelude.HashMap.{is_some}
use haruki_event_tracker.Api.Schemas.{RecordedRankData, CloudRankInfoSchema}
use haruki_event_tracker.Api.RoundMetrics.{
  CloudTraceSample, cloud_trace_sample, format_tracker_timestamp, seconds,
  effective_tracker_window_end_unix_seconds, unwrap_or, find_window_baseline_index, deltas,
  count_positive_deltas, recovery_record_start_at, sort_by_time, last, drop, with_averages,
}

-- `(last.score - base.score).max(0)`
unfoldable pub gain_since : CloudTraceSample → CloudTraceSample → ℕ
unfolding ◌-ℤ◌ wrap_i64
gain_since base latest = pos_part (wrap_i64 (latest.score -ℤ base.score))

-- The speed over the hour before the end, and the rounds in it.
unfoldable pub hour_from :
    ℤ
    → CloudTraceSample
    → List CloudTraceSample
    → Option CloudTraceSample
    → CloudRankInfoSchema
    → CloudRankInfoSchema
unfolding count_positive_deltas gain_since ◌-ℤ◌ wrap_i64
hour_from end_sec latest since none info = info
hour_from end_sec latest since (some base) info =
    let rounds = some (pos (count_positive_deltas since)) in
    if ltb_ℤ (seconds base) end_sec
    then record info {
      speed = some (
          div_i64 (wrap_i64 (pos (gain_since base latest * 3600)))
            (pos_part (end_sec -ℤ seconds base)));
      hour_round = rounds;
    }
    else record info { hour_round = rounds }

unfoldable pub window_from :
    CloudTraceSample → Option CloudTraceSample → CloudRankInfoSchema → CloudRankInfoSchema
unfolding gain_since wrap_i64
window_from latest none info = info
window_from latest (some base) info = record info {
  min20_times_3_speed = some (wrap_i64 (pos (gain_since base latest * 3)));
}

-- The sample at the start of a window.
abbrev pub base_at : List CloudTraceSample → Option ℕ → Option CloudTraceSample
base_at samples none = none
base_at samples (some i) = get_elem? samples i

unfoldable pub with_speeds :
    ℤ → CloudTraceSample → List CloudTraceSample → CloudRankInfoSchema → CloudRankInfoSchema
unfolding find_window_baseline_index hour_from window_from ◌-ℤ◌
with_speeds end_sec latest metric_samples info =
    let hour_base = find_window_baseline_index metric_samples (end_sec -ℤ pos 3600) in
    let window_base = find_window_baseline_index metric_samples (end_sec -ℤ pos 1200) in
    window_from latest (base_at metric_samples window_base) (
      hour_from end_sec latest (drop (unwrap_or 0 hour_base) metric_samples)
        (base_at metric_samples hour_base) info)

-- 12 hours before the end of the window.
unfoldable pub metric_samples_of : ℤ → List CloudTraceSample → List CloudTraceSample
unfolding find_window_baseline_index ◌-ℤ◌
metric_samples_of end_sec samples =
    drop (unwrap_or 0 (find_window_baseline_index samples (end_sec -ℤ pos 43200))) samples

unfoldable pub with_window :
    ℤ → List CloudTraceSample → Option CloudTraceSample → CloudRankInfoSchema → CloudRankInfoSchema
unfolding metric_samples_of effective_tracker_window_end_unix_seconds with_speeds
with_window now_sec samples none info = info
with_window now_sec samples (some latest) info =
    let end_sec = effective_tracker_window_end_unix_seconds latest.timestamp now_sec in
    let metric_samples = metric_samples_of end_sec samples in
    if ltb (length metric_samples) 2 then info else with_speeds end_sec latest metric_samples info

abbrev pub with_record_start : Option ℤ → CloudRankInfoSchema → CloudRankInfoSchema
with_record_start none info = info
with_record_start (some start) info = record info {
  record_start_at = some (format_tracker_timestamp start);
}

-- The samples of a trace that have a time, in order of time.
unfoldable pub samples_of : List RecordedRankData → List CloudTraceSample
unfolding sort_by_time
samples_of trace =
    sort_by_time (filter (λ s. ltb_ℤ (pos 0) s.timestamp) (filter_map cloud_trace_sample trace))

unfoldable pub apply_cloud_trace_metrics_at :
    CloudRankInfoSchema → List RecordedRankData → ℤ → CloudRankInfoSchema
unfolding samples_of recovery_record_start_at deltas last with_window with_averages
apply_cloud_trace_metrics_at info trace now_sec =
    let samples = samples_of trace in
    if ltb (length samples) 2
    then info
    else with_window now_sec samples (last samples) (
        with_averages (deltas samples) (last (deltas samples))
          (with_record_start (recovery_record_start_at samples) info))

unfoldable pub has_cloud_round_metrics : CloudRankInfoSchema → Bool
has_cloud_round_metrics info =
    is_some info.average_round
    && is_some info.average_pt
    && is_some info.latest_pt
    && is_some info.hour_round
    && is_some info.min20_times_3_speed
    && is_some info.speed
    && is_some info.record_start_at

-- `positive_timestamp`
unfoldable pub positive_timestamp : Option ℤ → Option ℤ
positive_timestamp none = none
positive_timestamp (some t) = if ltb_ℤ (pos 0) t then some t else none
