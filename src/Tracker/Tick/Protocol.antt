-- ===== src/Tracker/Tick/Protocol.antt =====
-- The updates of the API cache in a tick and in a refresh.
use haruki_event_tracker.Prelude.{
  ℕ, suc, ℤ, Bool, true, false, not, List, [], ◌∷◌, ◌≡◌, refl, arith, inl, inr, Bool-cases,
}
use haruki_event_tracker.Prelude.Result.{Result, ok, err}
use haruki_event_tracker.Model.Sekai.{Top100RankingResponse, BorderRankingResponse}
use haruki_event_tracker.Model.Tracker.{HandledRankingData, PlayerEventRankingRecordSchema}
use haruki_event_tracker.Tracker.Records.{collect_visible_user_records}
use haruki_event_tracker.Tracker.Base.{EventTrackerBase, should_refresh_after_end}
use haruki_event_tracker.Tracker.World.{
  TrackerError, api, fetch_rankings, check_border, heartbeat, World, Env, ◌>>=◌, ◌>>◌, pure, raise,
  gets, guard, recover, recover_from, call, observe,
}
use haruki_event_tracker.Tracker.World.Hoare.{Post, Triple, >>=-Triple, >>-Keeps, if-Triple}
use haruki_event_tracker.Tracker.Persist.{attempt, persist_ranking_data}
use haruki_event_tracker.Tracker.Persist.Phases.{idle, In}
use haruki_event_tracker.Tracker.Persist.Protocol.{persist-Triple}
use haruki_event_tracker.Tracker.Tick.{
  handled, check_cache, handle_ranking_data, record_ranking_data, refreshed, refresh_users,
  refresh_after_end,
}

module _ {Json : Type 0} (env : Env Json) where
  looked_up-Triple :
      (record_time : ℤ)
      (fetched : Top100RankingResponse Json × (List ℕ × BorderRankingResponse Json))
      → Triple
          (In idle)
          (call env check_border >>= check_cache env fetched.1.0 >>= λ is_cached.
            gets (handled record_time fetched is_cached))
          (λ _. In idle)
          (In idle)
  looked_up-Triple record_time fetched s h = elim (Bool-cases (env.succeeds s.1.calls)) [
    | inl a ↦ ground arith
    | inr a ↦ ground arith
  ]

  fetch-Triple : Triple (In idle) (call env fetch_rankings >>= guard api) (λ _. In idle) (In idle)
  fetch-Triple s h = elim (Bool-cases (env.succeeds s.1.calls)) [
    | inl a ↦ ground arith
    | inr a ↦ ground arith
  ]

  handle-Triple : Triple (In idle) (handle_ranking_data env) (λ _. In idle) (In idle)
  unfolding handle_ranking_data
  handle-Triple =
      >>=-Triple (λ _. In idle) (λ _. In idle) (In idle) (call env fetch_rankings >>= guard api)
        (λ _. observe env env.payload >>= λ fetched. observe env env.clock >>= λ record_time.
          call env check_border >>= check_cache env fetched.1.0 >>= λ is_cached.
          gets (handled record_time fetched is_cached))
        fetch-Triple
        (λ _ t k.
          looked_up-Triple (env.clock (suc t.1.calls)) (env.payload t.1.calls)
            (t.0, record t.1 { calls = suc (suc t.1.calls) }) k)

  -- A failed fetch is followed by a heartbeat.
  recover-Post :
      (now : ℤ) (r : Result TrackerError (HandledRankingData Json)) (s : EventTrackerBase × World)
      → Post (λ _. In idle) (In idle) (r, s)
      → Post
          (λ _. In idle)
          (In idle)
          (recover_from (r, s) (λ e. attempt env (heartbeat now 1) >> raise e))
  recover-Post now (ok d) s h = h
  recover-Post now (err e) s h = elim (Bool-cases (env.succeeds s.1.calls)) [
    | inl a ↦ rw (a, h) refl
    | inr a ↦ rw (a, h) refl
  ]

  module _ (cached : env.api_cache ≡ true) where
    pub record-Triple :
        (only_world_bloom : Bool)
        → Triple (In idle) (record_ranking_data env only_world_bloom) (λ _. In idle) (In idle)
    unfolding record_ranking_data
    record-Triple only_world_bloom s h =
        let now = env.clock s.1.calls in
        if-Triple (λ _. In idle) (In idle) s.0.is_event_ended (pure false)
          (observe env env.clock >>= λ t.
            recover (handle_ranking_data env) (λ e. attempt env (heartbeat t 1) >> raise e) >>= λ d.
            persist_ranking_data env d only_world_bloom true t)
          (λ _ t k. k)
          (λ _ t k.
            >>=-Triple (λ _. In idle) (λ _. In idle) (In idle)
              (recover (handle_ranking_data env)
                (λ e. attempt env (heartbeat (env.clock t.1.calls) 1) >> raise e))
              (λ d. persist_ranking_data env d only_world_bloom true (env.clock t.1.calls))
              (λ u l.
                recover-Post (env.clock t.1.calls) (handle_ranking_data env u).0
                  (handle_ranking_data env u).1 (handle-Triple u l))
              (λ d. persist-Triple env cached d only_world_bloom true (env.clock t.1.calls))
              (t.0, record t.1 { calls = suc t.1.calls }) k)
          s h

    users-Triple :
        (records : List (PlayerEventRankingRecordSchema Json))
        → Triple (In idle) (refresh_users env records) (λ _. In idle) (In idle)
    users-Triple [] s h = h
    users-Triple (r ∷ records) s h = elim (Bool-cases (env.succeeds (suc s.1.calls))) [
      | inl a ↦ rw (cached, a, h) refl
      | inr a ↦ rw (cached, a, h) refl
    ]

    pub refresh-Triple : Triple (In idle) (refresh_after_end env) (λ _. In idle) (In idle)
    unfolding refresh_after_end
    refresh-Triple s h =
        if-Triple (λ _. In idle) (In idle)
          (not (
            should_refresh_after_end s.0.last_post_end_user_refresh_at (env.clock s.1.calls)
              s.0.post_end_user_refresh_interval_secs))
          (pure false)
          (handle_ranking_data env >>= λ d.
            persist_ranking_data env d false false (env.clock s.1.calls) >>= λ changed.
            refresh_users env (collect_visible_user_records d.record_time d)
            >> refreshed env (env.clock s.1.calls)
            >> pure changed)
          (λ _ t k. k)
          (λ _.
            >>=-Triple (λ _. In idle) (λ _. In idle) (In idle) (handle_ranking_data env)
              (λ d. persist_ranking_data env d false false (env.clock s.1.calls) >>= λ changed.
                refresh_users env (collect_visible_user_records d.record_time d)
                >> refreshed env (env.clock s.1.calls)
                >> pure changed)
              handle-Triple
              (λ d.
                >>=-Triple (λ _. In idle) (λ _. In idle) (In idle)
                  (persist_ranking_data env d false false (env.clock s.1.calls))
                  (λ changed.
                    refresh_users env (collect_visible_user_records d.record_time d)
                    >> refreshed env (env.clock s.1.calls)
                    >> pure changed)
                  (persist-Triple env cached d false false (env.clock s.1.calls))
                  (λ changed.
                    >>-Keeps
                      (refresh_users env (collect_visible_user_records d.record_time d)
                        >> refreshed env (env.clock s.1.calls))
                      (pure changed)
                      (>>-Keeps (refresh_users env (collect_visible_user_records d.record_time d))
                        (refreshed env (env.clock s.1.calls))
                        (users-Triple (collect_visible_user_records d.record_time d)) (λ t k. k))
                      (λ t k. k))))
          (s.0, record s.1 { calls = suc s.1.calls }) h
