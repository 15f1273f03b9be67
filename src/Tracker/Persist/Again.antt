-- ===== src/Tracker/Persist/Again.antt =====
-- What the next tick makes of the payload of a persist that returned.
use haruki_event_tracker.Prelude.{
  false, true, int_eq, ℤ, Bool, not, [], is_empty, ◌≡◌, refl, ap, ◌∙◌, ◌⊎◌, All, if◌then◌else◌,
  arith, inl, inr, Bool-cases,
}
use haruki_event_tracker.Prelude.HashMap
use haruki_event_tracker.Prelude.HashMap.{HashMap}
use haruki_event_tracker.Prelude.Result.{Result, ok, err}
use haruki_event_tracker.Prelude.Text.{}
use haruki_event_tracker.Model.Tracker.{HandledRankingData, bloom_key_eq}
use haruki_event_tracker.Tracker.Base.{EventTrackerBase}
use haruki_event_tracker.Db.Bloom.{}
use haruki_event_tracker.Tracker.World.{World, Env, TrackerError}
use haruki_event_tracker.Tracker.World.Hoare.{Post}
use haruki_event_tracker.Tracker.Persist.{plan, persist_ranking_data, rows_at, diff_main}
use haruki_event_tracker.Model.Sekai.{}
use haruki_event_tracker.Tracker.Diff.{diff_rank_based}
use haruki_event_tracker.Tracker.Diff.Changes.{InRange, DistinctRanks}
use haruki_event_tracker.Tracker.Diff.Commit.{diff_rank_based_again}
use haruki_event_tracker.Tracker.Records.{build_event_records}
use haruki_event_tracker.Tracker.Persist.Keeps.{write_main-Keeps}
use haruki_event_tracker.Tracker.Persist.State.{
  Ranks, Ranks-calls, Ranks-bloom, persist_plan-Triple, commit_ranks-Ranks,
}

Post-ok :
    {A : Type 0} (C E : EventTrackerBase × World → Type 0) (r : Result TrackerError A)
    (s : EventTrackerBase × World) (a : A)
    → r ≡ ok a
    → Post (λ _. C) E (r, s)
    → C s
Post-ok C E (ok a') s a e h = h
Post-ok C E (err x) s a e h = absurd (ground arith)

no_records :
    {Json : Type 0} (d : HandledRankingData Json)
    → build_event_records d.record_time (rows_at d.rankings []) ≡ []
unfolding build_event_records rows_at
no_records d = refl

module _ {Json : Type 0} (env : Env Json) where
  ok-Ranks :
      (d : HandledRankingData Json) (only_world_bloom write_idle_heartbeat : Bool) (now : ℤ)
      (b : EventTrackerBase) (w : World) (landed : Bool)
      → (persist_ranking_data env d only_world_bloom write_idle_heartbeat now (b, w)).0 ≡ ok landed
      → (persist_ranking_data env d only_world_bloom write_idle_heartbeat now
          (b, w)).1.0.prev_rank_state
        ≡ HashMap.extend b.prev_rank_state (plan b d only_world_bloom).changed_ranks
  unfolding persist_ranking_data
  ok-Ranks d only_world_bloom write_idle_heartbeat now b w landed e =
      let p = plan b d only_world_bloom in
      let new_ranks = HashMap.extend b.prev_rank_state p.changed_ranks in
      Post-ok (Ranks new_ranks) (λ s. Ranks b.prev_rank_state s ⊎ Ranks new_ranks s) _ _ landed e
        (persist_plan-Triple env (Ranks b.prev_rank_state) (Ranks b.prev_rank_state)
          (Ranks new_ranks) d p only_world_bloom write_idle_heartbeat now
          (Ranks-calls b.prev_rank_state) (Ranks-calls new_ranks) (Ranks-bloom new_ranks)
          (write_main-Keeps env (Ranks b.prev_rank_state) (Ranks-calls b.prev_rank_state) p)
          (commit_ranks-Ranks env p b.prev_rank_state) (b, w) refl)

  diff_main-again :
      (d : HandledRankingData Json) (only_world_bloom : Bool) (b b' : EventTrackerBase)
      → DistinctRanks d.rankings
      → All InRange d.rankings
      → b'.prev_rank_state ≡ HashMap.extend b.prev_rank_state (diff_main b d false).1
      → diff_main b' d only_world_bloom ≡ ([], [])
  unfolding diff_main
  diff_main-again d true b b' u h e = refl
  diff_main-again d false b b' u h e = elim (Bool-cases (not (is_empty d.rankings))) [
    | inl c ↦ rw c (
        ap (diff_rank_based d.rankings) (
          e
          ∙ ap
              (λ x.
                HashMap.extend b.prev_rank_state
                  (if x then diff_rank_based d.rankings b.prev_rank_state else ([], [])).1)
              c)
        ∙ diff_rank_based_again d.rankings b.prev_rank_state u h)
    | inr c ↦ rw c refl
  ]

  -- After a persist that covers the event's ranking (`only_world_bloom` is false) and returns a
  -- result, the next tick with the same payload has nothing to record of the event's ranking,
  -- whether or not it is asked for world bloom rows only, when no rank stands twice in the payload
  -- and its users are `i64`s.
  pub persist_ranking_data_again :
      (d : HandledRankingData Json) (only_world_bloom write_idle_heartbeat : Bool) (now : ℤ)
      (b : EventTrackerBase) (w : World) (landed : Bool)
      → DistinctRanks d.rankings
      → All InRange d.rankings
      → (persist_ranking_data env d false write_idle_heartbeat now (b, w)).0 ≡ ok landed
      → (plan
          (persist_ranking_data env d false write_idle_heartbeat now (b, w)).1.0
          d
          only_world_bloom).records
        ≡ []
  persist_ranking_data_again d only_world_bloom write_idle_heartbeat now b w landed u h e =
      unfold plan in
      ap (λ x. build_event_records d.record_time (rows_at d.rankings x.0))
        (diff_main-again d only_world_bloom b
          (persist_ranking_data env d false write_idle_heartbeat now (b, w)).1.0 u h
          (ok-Ranks d false write_idle_heartbeat now b w landed e))
      ∙ no_records d
