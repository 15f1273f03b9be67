-- ===== src/Tracker/Records.antt =====
-- src/tracker/diff.rs, `build_event_records` and `build_world_bloom_rows`, and their user in
-- src/tracker/base.rs, `collect_visible_user_records`: from upstream rows to database records.
pub mod Users
pub mod Rows
use haruki_event_tracker.Prelude.{
  ℤ, Bool, false, List, [], ◌∷◌, ◌++◌, Option, none, some, map, filter_map, if◌then◌else◌, list_eq,
  nat_eq,
}
use haruki_event_tracker.Prelude.HashMap
use haruki_event_tracker.Prelude.HashMap.{HashMap, values, is_some}
use haruki_event_tracker.Prelude.Text.{Text, to_string}
use haruki_event_tracker.Model.Sekai.{PlayerRankingSchema}
use haruki_event_tracker.Model.Tracker.{
  PlayerEventRankingRecordSchema, PlayerWorldBloomRankingRecordSchema, HandledRankingData,
}
use haruki_event_tracker.Tracker.Diff.{
  and_then, row_key, extract_cheerful_team_id, extract_player_profile,
}

module _ {Json : Type 0} where
  -- The record of a row that has a rank, a score, a user and a name.
  pub record_of : ℤ → PlayerRankingSchema Json → Option (PlayerEventRankingRecordSchema Json)
  unfolding extract_cheerful_team_id extract_player_profile
  record_of record_time r = and_then (row_key r) λ (rank, score, uid). and_then r.name λ name.
      some (record {
        timestamp = record_time;
        user_id = to_string uid;
        name = name;
        score = score;
        rank = rank;
        cheerful_team_id = extract_cheerful_team_id r;
        profile = extract_player_profile r;
      })

  -- `seen.entry(user_id).or_insert(record)`
  abbrev pub or_insert :
      PlayerEventRankingRecordSchema Json
      → HashMap Text (PlayerEventRankingRecordSchema Json)
      → HashMap Text (PlayerEventRankingRecordSchema Json)
  or_insert rec seen =
      if HashMap.contains_key rec.user_id seen then seen else HashMap.insert rec.user_id rec seen

  pub seen_after :
      ℤ
      → List (PlayerRankingSchema Json)
      → HashMap Text (PlayerEventRankingRecordSchema Json)
      → HashMap Text (PlayerEventRankingRecordSchema Json)
  unfolding record_of
  seen_after record_time [] seen = seen
  seen_after record_time (r ∷ rs) seen =
      seen_after record_time rs
        (elim (record_of record_time r) [ none ↦ seen | some rec ↦ or_insert rec seen ])

  unfoldable pub build_event_records :
      ℤ → List (PlayerRankingSchema Json) → List (PlayerEventRankingRecordSchema Json)
  unfolding seen_after
  build_event_records record_time diffed = values (seen_after record_time diffed [])

  -- One round of the inner loop. `skip_unchanged` is asked before the name is looked at.
  pub bloom_row :
      ℤ
      → (ℤ → ℤ → ℤ → ℤ → Bool)
      → ℤ
      → PlayerRankingSchema Json
      → Option (PlayerWorldBloomRankingRecordSchema Json)
  unfolding record_of
  bloom_row record_time skip_unchanged character_id r = and_then (row_key r) λ (rank, score, uid).
      if skip_unchanged character_id uid score rank
      then none
      else and_then (record_of record_time r)
          λ rec. some (record { base = rec; character_id = character_id })

  unfoldable pub build_world_bloom_rows :
      ℤ
      → HashMap ℤ (List (PlayerRankingSchema Json))
      → (ℤ → ℤ → ℤ → ℤ → Bool)
      → List (PlayerWorldBloomRankingRecordSchema Json)
  unfolding bloom_row
  build_world_bloom_rows record_time [] skip_unchanged = []
  build_world_bloom_rows record_time ((character_id, rankings) ∷ per_char) skip_unchanged =
      filter_map (bloom_row record_time skip_unchanged character_id) rankings
      ++ build_world_bloom_rows record_time per_char skip_unchanged

  unfoldable pub collect_visible_user_records :
      ℤ → HandledRankingData Json → List (PlayerEventRankingRecordSchema Json)
  unfolding build_event_records build_world_bloom_rows
  collect_visible_user_records record_time d =
      build_event_records record_time d.rankings
      ++ map (λ row. row.base)
          (build_world_bloom_rows record_time d.world_bloom_rankings (λ _ _ _ _. false))
