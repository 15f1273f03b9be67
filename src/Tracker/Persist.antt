-- ===== src/Tracker/Persist.antt =====
-- src/tracker/base.rs, `persist_ranking_data`, with `batch_insert_event_rankings` and
-- `batch_insert_world_bloom_rankings` of src/db/query/batch.rs as far as they decide, call the
-- database and keep state.
pub mod Phases
pub mod Chapters
pub mod Protocol
pub mod Marks
pub mod Keeps
pub mod State
pub mod Again
use haruki_event_tracker.Prelude.{
  ℕ, ltb, ℤ, Bool, true, false, not, ◌&&◌, ◌||◌, List, [], ◌∷◌, Option, none, some, filter_map,
  get_elem?, length, is_empty, if◌then◌else◌, int_eq, list_eq, nat_eq,
}
use haruki_event_tracker.Prelude.HashMap
use haruki_event_tracker.Prelude.HashMap.{HashMap}
use haruki_event_tracker.Prelude.Result.{Result, ok, err}
use haruki_event_tracker.Prelude.Text.{Text}
use haruki_event_tracker.Model.Sekai.{PlayerRankingSchema}
use haruki_event_tracker.Model.Tracker.{
  RankState, PlayerState, WorldBloomKey, HandledRankingData, PlayerEventRankingRecordSchema,
  PlayerWorldBloomRankingRecordSchema, bloom_key_eq,
}
use haruki_event_tracker.Tracker.Diff.{diff_rank_based}
use haruki_event_tracker.Tracker.Records.{build_event_records, build_world_bloom_rows}
use haruki_event_tracker.Tracker.Base.{EventTrackerBase, skip_unchanged}
use haruki_event_tracker.Db.Bloom.{BloomRow, remember_keys, bloom_diff}
use haruki_event_tracker.Tracker.World.{
  TrackerError, db, Effect, begin_update, finish_update, abort_update, upsert_users,
  insert_rankings, insert_bloom, heartbeat, store_border, save_ranks, World, Env, Exec, ◌>>=◌, ◌>>◌,
  pure, raise, gets, modify, guard, when, on_error, call, call_logged, observe, cache_call,
}

-- What a tick decides to write before it writes anything.
pub record Plan (Json : Type 0) : Type 0 where
  pub changed_ranks : HashMap ℤ RankState
  pub records : List (PlayerEventRankingRecordSchema Json)
  pub wl_rows : List (PlayerWorldBloomRankingRecordSchema Json)

module _ {Json : Type 0} where
  -- `&d.rankings[i]` for each index.
  pub rows_at : List (PlayerRankingSchema Json) → List ℕ → List (PlayerRankingSchema Json)
  rows_at rankings idx = filter_map (λ i. get_elem? rankings i) idx

  pub diff_main : EventTrackerBase → HandledRankingData Json → Bool → List ℕ × HashMap ℤ RankState
  unfolding diff_rank_based
  diff_main b d only_world_bloom =
      if not only_world_bloom && not (is_empty d.rankings)
      then diff_rank_based d.rankings b.prev_rank_state
      else ([], [])

  unfoldable pub plan : EventTrackerBase → HandledRankingData Json → Bool → Plan Json
  unfolding diff_main rows_at build_event_records build_world_bloom_rows skip_unchanged
  plan b d only_world_bloom =
      let (idx, changed) = diff_main b d only_world_bloom in
      record {
        changed_ranks = changed;
        records = build_event_records d.record_time (rows_at d.rankings idx);
        wl_rows = build_world_bloom_rows d.record_time d.world_bloom_rankings (skip_unchanged b);
      }

  abbrev pub will_write : Plan Json → Bool
  will_write p = not (is_empty p.records) || not (is_empty p.wl_rows)

  abbrev pub commit_ranks : Plan Json → Exec EventTrackerBase (Unit {0})
  commit_ranks p = when (not (is_empty p.changed_ranks)) (
      modify (λ b. record b { prev_rank_state = HashMap.extend b.prev_rank_state p.changed_ranks }))

  module _ (env : Env Json) where
    -- `.await?` on a call of the database.
    abbrev pub attempt : Effect → Exec EventTrackerBase (Unit {0})
    attempt e = call env e >>= guard db

    -- The user dimension is written outside the transaction of the rows.
    unfoldable pub batch_insert_event_rankings :
        List (PlayerEventRankingRecordSchema Json) → Exec EventTrackerBase (Unit {0})
    batch_insert_event_rankings records =
        if is_empty records then pure tt else attempt upsert_users >> attempt insert_rankings

    -- The result of `batch_get_or_create_user_id_keys`, which also feeds the memo of keys.
    abbrev pub lookup_users : Exec EventTrackerBase (HashMap Text ℤ)
    lookup_users =
        attempt upsert_users
        >> (observe env env.user_keys >>= λ user_lookup.
            modify (λ b. record b { wl_user_keys = remember_keys user_lookup b.wl_user_keys })
            >> pure user_lookup)

    abbrev pub write_bloom :
        Option (List BloomRow × HashMap WorldBloomKey PlayerState) → Exec EventTrackerBase ℕ
    write_bloom none = raise db
    write_bloom (some (changed, new_state)) =
        if is_empty changed
        then pure 0
        else attempt insert_bloom
          >> modify (λ b. record b {
            prev_world_bloom_state = HashMap.extend b.prev_world_bloom_state new_state;
          })
          >> pure (length changed)

    unfoldable pub batch_insert_world_bloom_rankings :
        List (PlayerWorldBloomRankingRecordSchema Json) → Exec EventTrackerBase ℕ
    batch_insert_world_bloom_rankings records =
        if is_empty records
        then pure 0
        else lookup_users >>= λ user_lookup.
            gets (λ b. bloom_diff user_lookup b.prev_world_bloom_state records) >>= write_bloom

    unfoldable pub write_main : Plan Json → Exec EventTrackerBase Bool
    unfolding batch_insert_event_rankings
    write_main p =
        if is_empty p.records
        then pure false
        else on_error (batch_insert_event_rankings p.records) (cache_call env abort_update)
          >> pure true

    abbrev pub after_bloom : Bool → ℕ → Exec EventTrackerBase Bool
    after_bloom batch_called inserted =
        if ltb 0 inserted
        then pure true
        else when (not batch_called) (cache_call env abort_update) >> pure batch_called

    unfoldable pub write_world_bloom : Plan Json → Bool → Exec EventTrackerBase Bool
    unfolding batch_insert_world_bloom_rankings
    write_world_bloom p batch_called =
        if is_empty p.wl_rows
        then pure batch_called
        else on_error (batch_insert_world_bloom_rankings p.wl_rows)
            (cache_call env (if batch_called then finish_update else abort_update))
          >>= after_bloom batch_called

    abbrev pub settle : Bool → ℤ → Bool → Exec EventTrackerBase (Unit {0})
    settle write_idle_heartbeat now batch_called =
        if batch_called
        then cache_call env finish_update
        else when write_idle_heartbeat (attempt (heartbeat now 0))

    abbrev pub store_border_hash : HandledRankingData Json → Bool → Exec EventTrackerBase (Unit {0})
    store_border_hash d only_world_bloom = when (not only_world_bloom) (elim d.border_cache [
      | none ↦ pure tt
      | some (cache_key, border_hash) ↦ call_logged env (store_border cache_key border_hash)
    ])

    abbrev pub save_rank_state : HashMap ℤ RankState → Exec EventTrackerBase (Unit {0})
    save_rank_state changed = when (not (is_empty changed)) (call_logged env (save_ranks changed))

    abbrev pub finish_persist :
        HandledRankingData Json → Plan Json → Bool → Bool → ℤ → Bool → Exec EventTrackerBase Bool
    finish_persist d p only_world_bloom write_idle_heartbeat now batch_called =
        settle write_idle_heartbeat now batch_called
        >> store_border_hash d only_world_bloom
        >> save_rank_state p.changed_ranks
        >> pure batch_called

    unfoldable pub persist_plan :
        HandledRankingData Json → Plan Json → Bool → Bool → ℤ → Exec EventTrackerBase Bool
    unfolding write_main write_world_bloom
    persist_plan d p only_world_bloom write_idle_heartbeat now =
        when (will_write p) (cache_call env begin_update)
        >> write_main p
        >>= (λ batch_called. commit_ranks p >> write_world_bloom p batch_called)
        >>= finish_persist d p only_world_bloom write_idle_heartbeat now

    unfoldable pub persist_ranking_data :
        HandledRankingData Json → Bool → Bool → ℤ → Exec EventTrackerBase Bool
    unfolding plan persist_plan
    persist_ranking_data d only_world_bloom write_idle_heartbeat now =
        gets (λ b. plan b d only_world_bloom) >>= λ p.
        persist_plan d p only_world_bloom write_idle_heartbeat now
