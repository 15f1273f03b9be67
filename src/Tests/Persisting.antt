-- ===== src/Tests/Persisting.antt =====
-- Runs of a persist.
use haruki_event_tracker.Prelude.{◌≡◌, ◌⊎◌, refl, pos, true, false, [], is_empty}
use haruki_event_tracker.Prelude.HashMap
use haruki_event_tracker.Prelude.Result.{ok}
use haruki_event_tracker.Prelude.Text.{to_string, decimal, parse_i64}
use haruki_event_tracker.Tracker.Diff.{unchanged}
use haruki_event_tracker.Db.Bloom.{bloom_diff}
use haruki_event_tracker.Tracker.Base.{}
use haruki_event_tracker.Tracker.World.{}
use haruki_event_tracker.Tracker.Persist.{plan, persist_ranking_data}
use haruki_event_tracker.Tracker.Persist.Keeps.{rows_landed, bloom_landed}
use haruki_event_tracker.Tracker.Persist.State.{
  persist_ranking_data_ranks, persist_ranking_data_chapters,
}
use haruki_event_tracker.Tracker.Persist.Again.{persist_ranking_data_again}
use haruki_event_tracker.Tracker.World.{}
use haruki_event_tracker.Tests.Data.{
  payload, base, fresh, env_failing, two_rows-InRange, two_rows-DistinctRanks,
}

has_records : is_empty (plan base payload false).records ≡ false
unfolding plan unchanged HashMap.get HashMap.insert parse_i64 decimal to_string
has_records = refl

-- The insert of the event's rows fails.
persist_ranking_data_ranks_example :
    let after =
      (persist_ranking_data (env_failing 2) payload false true (pos 1000) (base, fresh)).1 in
    (after.0.prev_rank_state ≡ base.prev_rank_state) ⊎ (rows_landed after.1.log ≡ true)
persist_ranking_data_ranks_example =
    persist_ranking_data_ranks (env_failing 2) payload false true (pos 1000) base fresh has_records

persist_ranking_data_chapters_example :
    let after =
      (persist_ranking_data (env_failing 5) payload false true (pos 1000) (base, fresh)).1 in
    (after.0.prev_world_bloom_state ≡ base.prev_world_bloom_state)
    ⊎ (bloom_landed after.1.log ≡ true)
persist_ranking_data_chapters_example =
    persist_ranking_data_chapters (env_failing 5) payload false true (pos 1000) base fresh

all_land :
    (persist_ranking_data (env_failing 99) payload false true (pos 1000) (base, fresh)).0 ≡ ok true
unfolding persist_ranking_data unchanged HashMap.get HashMap.insert parse_i64 decimal to_string
    bloom_diff
all_land = refl

persist_ranking_data_again_example :
    (plan
      (persist_ranking_data (env_failing 99) payload false true (pos 1000) (base, fresh)).1.0
      payload
      false).records
    ≡ []
persist_ranking_data_again_example =
    persist_ranking_data_again (env_failing 99) payload false true (pos 1000) base fresh true
      two_rows-DistinctRanks two_rows-InRange all_land
