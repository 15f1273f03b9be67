-- ===== src/Tracker/Persist/Protocol.antt =====
-- The dirty mark of the API cache around the writes of a tick, read off the log of its calls.
use haruki_event_tracker.Prelude.{
  suc, ℤ, Bool, true, false, not, ◌||◌, List, [], ◌∷◌, is_empty, ◌≡◌, refl, ap, ◌∙◌, arith, inl,
  inr, Bool-cases, Option-cases,
}
use haruki_event_tracker.Prelude.HashMap.{HashMap}
use haruki_event_tracker.Prelude.Result.{Result, ok, err}
use haruki_event_tracker.Prelude.Text.{}
use haruki_event_tracker.Model.Tracker.{
  HandledRankingData, RankState, PlayerEventRankingRecordSchema,
}
use haruki_event_tracker.Tracker.Base.{EventTrackerBase}
use haruki_event_tracker.Db.Bloom.{}
use haruki_event_tracker.Tracker.World.{
  begin_update, abort_update, World, Env, TrackerError, ◌>>=◌, ◌>>◌, pure, when, on_error,
  cache_call,
}
use haruki_event_tracker.Tracker.World.Hoare.{Post, Triple, >>=-Triple, >>-Keeps, if-Triple}
use haruki_event_tracker.Tracker.Persist.{
  Plan, plan, will_write, batch_insert_event_rankings, write_main, commit_ranks, write_world_bloom,
  settle, store_border_hash, save_rank_state, finish_persist, persist_plan, persist_ranking_data,
}
use haruki_event_tracker.Tracker.Persist.Phases.{
  UpdatePhase, idle, clean, rows, phase_of, In, opened,
}
use haruki_event_tracker.Tracker.Persist.Chapters.{bloom-Triple}

module _ {Json : Type 0} (env : Env Json) (cached : env.api_cache ≡ true) where
  begin-Triple :
      (p : Plan Json)
      → Triple
          (In idle)
          (when (will_write p) (cache_call env begin_update))
          (λ _. In (opened (will_write p) false))
          (In idle)
  begin-Triple p = elim (Bool-cases (will_write p)) [
    | inl e ↦ λ s h. ground arith
    | inr e ↦ λ s h. ground arith
  ]

  insert-Triple :
      (records : List (PlayerEventRankingRecordSchema Json))
      → is_empty records ≡ false
      → Triple
          (In clean)
          (on_error (batch_insert_event_rankings env records) (cache_call env abort_update))
          (λ _. In rows)
          (In idle)
  unfolding batch_insert_event_rankings
  insert-Triple records e s h = elim (Bool-cases (env.succeeds s.1.calls)) [
    | inl a ↦ elim (Bool-cases (env.succeeds (suc s.1.calls))) [
      | inl c ↦ rw (e, a, c, h) refl
      | inr c ↦ rw (e, a, c, cached, h) refl
    ]
    | inr a ↦ rw (e, a, cached, h) refl
  ]

  main-Triple :
      (p : Plan Json)
      → Triple
          (In (opened (will_write p) false))
          (write_main env p)
          (λ batch_called. In (opened (batch_called || not (is_empty p.wl_rows)) batch_called))
          (In idle)
  unfolding write_main
  main-Triple p =
      if-Triple _ _ (is_empty p.records) (pure false)
        (on_error (batch_insert_event_rankings env p.records) (cache_call env abort_update)
          >> pure true)
        (λ e s h. h ∙ ap (λ x. opened (not x || not (is_empty p.wl_rows)) false) e)
        (λ e s h.
          >>=-Triple (λ _. In rows)
            (λ batch_called. In (opened (batch_called || not (is_empty p.wl_rows)) batch_called))
            (In idle)
            (on_error (batch_insert_event_rankings env p.records) (cache_call env abort_update))
            (λ _. pure true) (insert-Triple p.records e) (λ _ t k. k) s
            (h ∙ ap (λ x. opened (not x || not (is_empty p.wl_rows)) false) e))

  settle-Triple :
      (write_idle_heartbeat : Bool) (now : ℤ) (batch_called : Bool)
      → Triple
          (In (opened batch_called batch_called))
          (settle env write_idle_heartbeat now batch_called)
          (λ _. In idle)
          (In idle)
  settle-Triple write_idle_heartbeat now true s h = ground arith
  settle-Triple false now false s h = h
  settle-Triple true now false s h = ground arith

  store-Triple :
      (d : HandledRankingData Json) (only_world_bloom : Bool)
      → Triple (In idle) (store_border_hash env d only_world_bloom) (λ _. In idle) (In idle)
  store-Triple d true s h = h
  store-Triple d false s h = elim (Option-cases d.border_cache) [
    | inl e ↦ rw e h
    | inr (c, e) ↦ rw (e, h) refl
  ]

  save-Triple :
      (changed : HashMap ℤ RankState)
      → Triple (In idle) (save_rank_state env changed) (λ _. In idle) (In idle)
  save-Triple [] s h = h
  save-Triple (c ∷ changed) s h = rw h refl

  finish-Triple :
      (d : HandledRankingData Json) (p : Plan Json) (only_world_bloom write_idle_heartbeat : Bool)
      (now : ℤ) (batch_called : Bool)
      → Triple
          (In (opened batch_called batch_called))
          (finish_persist env d p only_world_bloom write_idle_heartbeat now batch_called)
          (λ _. In idle)
          (In idle)
  finish-Triple d p only_world_bloom write_idle_heartbeat now batch_called =
      >>-Keeps
        (settle env write_idle_heartbeat now batch_called
          >> store_border_hash env d only_world_bloom
          >> save_rank_state env p.changed_ranks)
        (pure batch_called)
        (>>-Keeps
          (settle env write_idle_heartbeat now batch_called
            >> store_border_hash env d only_world_bloom)
          (save_rank_state env p.changed_ranks)
          (>>-Keeps (settle env write_idle_heartbeat now batch_called)
            (store_border_hash env d only_world_bloom)
            (settle-Triple write_idle_heartbeat now batch_called) (store-Triple d only_world_bloom))
          (save-Triple p.changed_ranks))
        (λ s h. h)

  commit-Triple :
      (p : Plan Json) (phase : UpdatePhase)
      → Triple (In phase) (commit_ranks p) (λ _. In phase) (In idle)
  commit-Triple p phase = elim (Bool-cases (is_empty p.changed_ranks)) [
    | inl e ↦ λ s h. rw e h
    | inr e ↦ λ s h. rw e h
  ]

  plan-Triple :
      (d : HandledRankingData Json) (p : Plan Json) (only_world_bloom write_idle_heartbeat : Bool)
      (now : ℤ)
      → Triple
          (In idle)
          (persist_plan env d p only_world_bloom write_idle_heartbeat now)
          (λ _. In idle)
          (In idle)
  unfolding persist_plan
  plan-Triple d p only_world_bloom write_idle_heartbeat now =
      >>=-Triple (λ landed. In (opened landed landed)) (λ _. In idle) (In idle)
        (when (will_write p) (cache_call env begin_update)
          >> write_main env p
          >>= (λ batch_called. commit_ranks p >> write_world_bloom env p batch_called))
        (finish_persist env d p only_world_bloom write_idle_heartbeat now)
        (>>=-Triple
          (λ batch_called. In (opened (batch_called || not (is_empty p.wl_rows)) batch_called))
          (λ landed. In (opened landed landed)) (In idle)
          (when (will_write p) (cache_call env begin_update) >> write_main env p)
          (λ batch_called. commit_ranks p >> write_world_bloom env p batch_called)
          (>>=-Triple (λ _. In (opened (will_write p) false)) _ (In idle)
            (when (will_write p) (cache_call env begin_update)) (λ _. write_main env p)
            (begin-Triple p) (λ _. main-Triple p))
          (λ batch_called.
            >>=-Triple (λ _. In (opened (batch_called || not (is_empty p.wl_rows)) batch_called)) _
              (In idle) (commit_ranks p) (λ _. write_world_bloom env p batch_called)
              (commit-Triple p (opened (batch_called || not (is_empty p.wl_rows)) batch_called))
              (λ _. bloom-Triple env cached p batch_called)))
        (finish-Triple d p only_world_bloom write_idle_heartbeat now)

pub persist-Triple :
    {Json : Type 0} (env : Env Json) (cached : env.api_cache ≡ true) (d : HandledRankingData Json)
    (only_world_bloom write_idle_heartbeat : Bool) (now : ℤ)
    → Triple
        (In idle)
        (persist_ranking_data env d only_world_bloom write_idle_heartbeat now)
        (λ _. In idle)
        (In idle)
unfolding persist_ranking_data
persist-Triple env cached d only_world_bloom write_idle_heartbeat now s =
    plan-Triple env cached d (plan s.0 d only_world_bloom) only_world_bloom write_idle_heartbeat now
      s

pub Post-idle :
    {A : Type 0} (r : Result TrackerError A) (s : EventTrackerBase × World)
    → Post (λ _. In idle) (In idle) (r, s)
    → phase_of s.1.log ≡ idle
Post-idle (ok a) s h = h
Post-idle (err e) s h = h
