-- ===== src/Tests/Rounds.antt =====
-- Runs of the metrics of play rounds.
use haruki_event_tracker.Prelude.{ℕ, ◌-◌, pos, List, [], ◌∷◌, length, none, some, ◌≡◌, refl, arith}
use haruki_event_tracker.Prelude.Text.{codes}
use haruki_event_tracker.Api.Schemas.{RecordedRankData, normal, CloudRankInfoSchema}
use haruki_event_tracker.Api.RoundMetrics.{
  CloudTraceSample, find_window_baseline_index, sort_by_time,
}
use haruki_event_tracker.Api.RoundMetrics.Speeds.{apply_cloud_trace_metrics_at}
use haruki_event_tracker.Api.RoundMetrics.Baseline.{until, find_window_baseline_index_sorted}
use haruki_event_tracker.Api.RoundMetrics.Averages.{
  HasAverages, apply_cloud_trace_metrics_at-HasAverages,
}

abbrev sample : ℕ → ℕ → CloudTraceSample
sample score time = record { score = pos score; timestamp = pos time }

abbrev samples : List CloudTraceSample
samples = sample 30 300 ∷ sample 10 100 ∷ sample 20 200 ∷ []

find_window_baseline_index_sorted_example :
    find_window_baseline_index (sort_by_time samples) (pos 250)
    ≡ some (length (until (pos 250) samples) - 1)
find_window_baseline_index_sorted_example =
    find_window_baseline_index_sorted (pos 250) samples (omega arith)

abbrev row : ℕ → ℕ → RecordedRankData
row score time =
    normal (record { timestamp = pos time; user_id = codes "1"; score = pos score; rank = pos 100 })

abbrev info : CloudRankInfoSchema
info = record {
  rank = pos 100;
  user_id = some (codes "1");
  name = codes "a";
  score = pos 1500000;
  timestamp = pos 1704067200;
  average_round = none;
  average_pt = none;
  latest_pt = none;
  speed = none;
  min20_times_3_speed = none;
  hour_round = none;
  record_start_at = none;
  speed_window = none;
  character_id = none;
}

abbrev trace : List RecordedRankData
trace = row 1000000 1704060000 ∷ row 1250000 1704063600 ∷ row 1500000 1704067200 ∷ []

apply_cloud_trace_metrics_at-HasAverages_example :
    HasAverages info (apply_cloud_trace_metrics_at info trace (pos 1704067200))
apply_cloud_trace_metrics_at-HasAverages_example =
    apply_cloud_trace_metrics_at-HasAverages info trace (pos 1704067200)
      ((refl, omega arith), ((refl, omega arith), ((refl, omega arith), tt)))
