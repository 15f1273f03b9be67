-- ===== src/Tracker/Tick.antt =====
-- src/tracker/base.rs: the operations of `EventTrackerBase` that call the upstream API, Redis and
-- the database, other than the persist.
pub mod Protocol
use haruki_event_tracker.Prelude.{
  ℕ, ℤ, Bool, true, false, not, ◌++◌, List, [], ◌∷◌, Option, none, some, is_empty, list_beq,
  if◌then◌else◌, nat_eq,
}
use haruki_event_tracker.Prelude.Result.{Result, ok, err}
use haruki_event_tracker.Prelude.Text.{Text, codes, to_string}
use haruki_event_tracker.Model.Enums.{as_str, world_bloom, event_type_beq}
use haruki_event_tracker.Model.Sekai.{Top100RankingResponse, BorderRankingResponse}
use haruki_event_tracker.Model.Tracker.{HandledRankingData, PlayerEventRankingRecordSchema}
use haruki_event_tracker.Tracker.Diff.{merge_rankings, extract_world_bloom_rankings}
use haruki_event_tracker.Tracker.Records.{collect_visible_user_records}
use haruki_event_tracker.Tracker.Base.{EventTrackerBase, should_refresh_after_end}
use haruki_event_tracker.Tracker.World.{
  TrackerError, redis, db, api, Effect, fetch_rankings, check_border, check_ended, load_ranks,
  create_tables, extend_tables, begin_update, finish_update, abort_update, upsert_users, heartbeat,
  set_ended_flag, World, Env, Exec, ◌>>=◌, ◌>>◌, pure, raise, gets, modify, guard, when, on_error,
  recover, call, call_logged, observe, cache_call,
}
use haruki_event_tracker.Tracker.Persist.{attempt, persist_ranking_data}

-- `format!("{}-event-{}-main-border", self.server, self.event_id)`
abbrev pub border_key : EventTrackerBase → Text
border_key b = as_str b.server ++ codes "-event-" ++ to_string b.event_id ++ codes "-main-border"

-- Whether the stored hash is this one.
abbrev pub same_hash : List ℕ → Option (List ℕ) → Bool
same_hash hash none = false
same_hash hash (some stored) = list_beq stored hash

module _ {Json : Type 0} where
  -- What a tick hands on, once the border hash has been looked up.
  unfoldable pub handled :
      ℤ
      → Top100RankingResponse Json × (List ℕ × BorderRankingResponse Json)
      → Bool
      → EventTrackerBase
      → HandledRankingData Json
  unfolding merge_rankings extract_world_bloom_rankings
  handled record_time (top100, (border_hash, border)) is_cached b = record {
    record_time = record_time;
    rankings =
        if is_cached
        then top100.rankings
        else merge_rankings top100.rankings border.border_rankings;
    world_bloom_rankings =
        if event_type_beq b.event_type world_bloom
        then extract_world_bloom_rankings top100.user_world_bloom_chapter_rankings
            border.user_world_bloom_chapter_ranking_borders b.world_bloom_statuses
            b.is_world_bloom_chapter_ended
        else [];
    border_cache = if is_cached then none else some (border_key b, border_hash);
  }

  module _ (env : Env Json) where
    -- A failed lookup of the border hash is a miss.
    abbrev pub check_cache : List ℕ → Bool → Exec EventTrackerBase Bool
    check_cache border_hash true =
        observe env env.border_hash >>= λ stored. pure (same_hash border_hash stored)
    check_cache border_hash false = pure false

    unfoldable pub handle_ranking_data : Exec EventTrackerBase (HandledRankingData Json)
    unfolding handled
    handle_ranking_data =
        call env fetch_rankings
        >>= guard api
        >> (observe env env.payload >>= λ fetched. observe env env.clock >>= λ record_time.
            call env check_border >>= check_cache fetched.1.0 >>= λ is_cached.
            gets (handled record_time fetched is_cached))

    unfoldable pub record_ranking_data : Bool → Exec EventTrackerBase Bool
    unfolding handle_ranking_data persist_ranking_data
    record_ranking_data only_world_bloom = gets (λ b. b.is_event_ended) >>= λ is_event_ended.
        if is_event_ended
        then pure false
        else observe env env.clock >>= λ now.
            recover handle_ranking_data (λ e. attempt env (heartbeat now 1) >> raise e) >>= λ d.
            persist_ranking_data env d only_world_bloom true now

    abbrev pub refreshed : ℤ → Exec EventTrackerBase (Unit {0})
    refreshed now = modify (λ b. record b { last_post_end_user_refresh_at = some now })

    -- The user-dimension upsert of a refresh.
    abbrev pub refresh_users :
        List (PlayerEventRankingRecordSchema Json) → Exec EventTrackerBase (Unit {0})
    refresh_users records =
        if is_empty records
        then pure tt
        else cache_call env begin_update
          >> on_error (attempt env upsert_users) (cache_call env abort_update)
          >> cache_call env finish_update

    unfoldable pub refresh_after_end : Exec EventTrackerBase Bool
    unfolding should_refresh_after_end handle_ranking_data persist_ranking_data
        collect_visible_user_records
    refresh_after_end = observe env env.clock >>= λ now.
        gets (λ b.
          should_refresh_after_end b.last_post_end_user_refresh_at now
            b.post_end_user_refresh_interval_secs)
        >>= λ due.
            if not due
            then pure false
            else handle_ranking_data >>= λ d.
                persist_ranking_data env d false false now >>= λ changed.
                refresh_users (collect_visible_user_records d.record_time d)
                >> refreshed now
                >> pure changed

    -- The rank state is loaded, if it can be, and the tables are made.
    unfoldable pub init : Exec EventTrackerBase (Unit {0})
    init =
        call env check_ended
        >>= guard redis
        >> (observe env env.ended_flag >>= λ flag.
            if flag
            then modify (λ b. record b { is_event_ended = true })
            else call env load_ranks
              >>= (λ loaded. when loaded (
                  observe env env.stored_ranks >>= λ state.
                  modify (λ b. record b { prev_rank_state = state })))
              >> attempt env create_tables
              >> attempt env extend_tables)

    unfoldable pub set_event_ended : Bool → Exec EventTrackerBase (Unit {0})
    set_event_ended flag =
        modify (λ b. record b { is_event_ended = flag })
        >> when flag (call_logged env set_ended_flag)
