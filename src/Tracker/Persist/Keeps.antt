-- ===== src/Tracker/Persist/Keeps.antt =====
-- What the steps of a persist leave in place: a condition on the state and the world that calls
-- and observations keep is kept by each step, whatever the calls answer.
use haruki_event_tracker.Prelude.{
  ℕ, suc, ltb, ℤ, Bool, true, false, not, List, [], ◌∷◌, Option, none, some, is_empty, ◌≡◌, refl,
  if◌then◌else◌, inl, inr, Bool-cases, Option-cases,
}
use haruki_event_tracker.Prelude.HashMap
use haruki_event_tracker.Prelude.HashMap.{HashMap}
use haruki_event_tracker.Prelude.Result.{Result, ok, err}
use haruki_event_tracker.Prelude.Text.{}
use haruki_event_tracker.Model.Tracker.{
  HandledRankingData, RankState, WorldBloomKey, PlayerState, PlayerEventRankingRecordSchema,
  PlayerWorldBloomRankingRecordSchema, bloom_key_eq,
}
use haruki_event_tracker.Tracker.Base.{EventTrackerBase}
use haruki_event_tracker.Db.Bloom.{BloomRow, remember_keys, bloom_diff}
use haruki_event_tracker.Tracker.World.{
  Effect, finish_update, abort_update, upsert_users, insert_rankings, insert_bloom, heartbeat,
  store_border, save_ranks, World, Env, Exec, ◌>>=◌, ◌>>◌, pure, gets, when, on_error, handle,
  cache_call, TrackerError,
}
use haruki_event_tracker.Tracker.World.Hoare.{Post, Triple, >>=-Triple, >>-Keeps, if-Triple}
use haruki_event_tracker.Tracker.Persist.{
  Plan, attempt, batch_insert_event_rankings, lookup_users, write_bloom,
  batch_insert_world_bloom_rankings, write_main, after_bloom, write_world_bloom, settle,
  store_border_hash, save_rank_state, finish_persist,
}

-- Whether rows of the event, or of its chapters, have been inserted.
abbrev pub rows_landed : List (Effect × Bool) → Bool
rows_landed [] = false
rows_landed ((insert_rankings, true) ∷ log) = true
rows_landed (_ ∷ log) = rows_landed log

abbrev pub bloom_landed : List (Effect × Bool) → Bool
bloom_landed [] = false
bloom_landed ((insert_bloom, true) ∷ log) = true
bloom_landed (_ ∷ log) = bloom_landed log

-- After one more call.
abbrev pub called : Effect → Bool → World → World
called e succeeded w = record { calls = suc w.calls; log = (e, succeeded) ∷ w.log }

abbrev pub KeptByCalls : (EventTrackerBase × World → Type 0) → Type 0
KeptByCalls I =
    (e : Effect) (succeeded : Bool) (b : EventTrackerBase) (w : World)
    → I (b, w)
    → I (b, called e succeeded w)

-- Kept by what a chapter insert does to the tracker: the memo of keys, and the commit of states
-- once their rows have landed.
abbrev pub KeptByBloom : (EventTrackerBase × World → Type 0) → Type 0
KeptByBloom I =
    ((user_keys : HashMap ℤ ℤ) (calls : ℕ) (b : EventTrackerBase) (w : World)
      → I (b, w)
      → I (record b { wl_user_keys = user_keys }, record w { calls = calls }))
    × ((states : HashMap WorldBloomKey PlayerState) (b : EventTrackerBase) (w : World)
        → I (b, w)
        → bloom_landed w.log ≡ true
        → I (record b { prev_world_bloom_state = states }, w))

module _ {Json : Type 0} (env : Env Json) (I : EventTrackerBase × World → Type 0)
    (hc : KeptByCalls I) where
  pub attempt-Keeps : (e : Effect) → Triple I (attempt env e) (λ _. I) I
  attempt-Keeps e s i = elim (Bool-cases (env.succeeds s.1.calls)) [
    | inl a ↦ rw a (hc e true s.0 s.1 i)
    | inr a ↦ rw a (hc e false s.0 s.1 i)
  ]

  pub cache_call-Keeps : (e : Effect) → Triple I (cache_call env e) (λ _. I) I
  cache_call-Keeps e s i = elim (Bool-cases env.api_cache) [
    | inl a ↦ rw a (hc e (env.succeeds s.1.calls) s.0 s.1 i)
    | inr a ↦ rw a i
  ]

  pub when-Keeps :
      (b : Bool) (m : Exec EventTrackerBase (Unit {0}))
      → Triple I m (λ _. I) I
      → Triple I (when b m) (λ _. I) I
  when-Keeps true m h s i = h s i
  when-Keeps false m h s i = i

  handle-Keeps :
      (A : Type 0) (r : Result TrackerError A) (s : EventTrackerBase × World)
      (cleanup : Exec EventTrackerBase (Unit {0}))
      → ((t : EventTrackerBase × World) → I t → I (cleanup t).1)
      → Post (λ _. I) I (r, s)
      → Post (λ _. I) I (handle (r, s) cleanup)
  handle-Keeps A (ok a) s cleanup h i = i
  handle-Keeps A (err e) s cleanup h i = h s i

  pub Post-state :
      {A : Type 0} (r : Result TrackerError A) (s : EventTrackerBase × World)
      → Post (λ _. I) I (r, s)
      → I s
  Post-state (ok a) s i = i
  Post-state (err e) s i = i

  on_error-Keeps :
      {A : Type 0} (m : Exec EventTrackerBase A) (e : Effect)
      → Triple I m (λ _. I) I
      → Triple I (on_error m (cache_call env e)) (λ _. I) I
  on_error-Keeps {A} m e h s i =
      handle-Keeps A (m s).0 (m s).1 (cache_call env e)
        (λ t k. Post-state (cache_call env e t).0 (cache_call env e t).1 (cache_call-Keeps e t k))
        (h s i)

  insert-Keeps :
      (records : List (PlayerEventRankingRecordSchema Json))
      → Triple I (batch_insert_event_rankings env records) (λ _. I) I
  unfolding batch_insert_event_rankings
  insert-Keeps records =
      if-Triple (λ _. I) I (is_empty records) (pure tt)
        (attempt env upsert_users >> attempt env insert_rankings) (λ _ s i. i)
        (λ _.
          >>-Keeps (attempt env upsert_users) (attempt env insert_rankings)
            (attempt-Keeps upsert_users) (attempt-Keeps insert_rankings))

  pub write_main-Keeps : (p : Plan Json) → Triple I (write_main env p) (λ _. I) I
  unfolding write_main
  write_main-Keeps p =
      if-Triple (λ _. I) I (is_empty p.records) (pure false)
        (on_error (batch_insert_event_rankings env p.records) (cache_call env abort_update)
          >> pure true)
        (λ _ s i. i)
        (λ _.
          >>-Keeps
            (on_error (batch_insert_event_rankings env p.records) (cache_call env abort_update))
            (pure true)
            (on_error-Keeps (batch_insert_event_rankings env p.records) abort_update
              (insert-Keeps p.records))
            (λ s i. i))

  settle-Keeps :
      (write_idle_heartbeat : Bool) (now : ℤ) (batch_called : Bool)
      → Triple I (settle env write_idle_heartbeat now batch_called) (λ _. I) I
  settle-Keeps write_idle_heartbeat now true = cache_call-Keeps finish_update
  settle-Keeps write_idle_heartbeat now false =
      when-Keeps write_idle_heartbeat (attempt env (heartbeat now 0))
        (attempt-Keeps (heartbeat now 0))

  store-Keeps :
      (d : HandledRankingData Json) (only_world_bloom : Bool)
      → Triple I (store_border_hash env d only_world_bloom) (λ _. I) I
  store-Keeps d true s i = i
  store-Keeps d false s i = elim (Option-cases d.border_cache) [
    | inl e ↦ rw e i
    | inr (c, e) ↦ rw e (hc (store_border c.0 c.1) (env.succeeds s.1.calls) s.0 s.1 i)
  ]

  save-Keeps : (changed : HashMap ℤ RankState) → Triple I (save_rank_state env changed) (λ _. I) I
  save-Keeps [] s i = i
  save-Keeps (c ∷ changed) s i = hc (save_ranks (c ∷ changed)) (env.succeeds s.1.calls) s.0 s.1 i

  pub finish_persist-Keeps :
      (d : HandledRankingData Json) (p : Plan Json) (only_world_bloom write_idle_heartbeat : Bool)
      (now : ℤ) (batch_called : Bool)
      → Triple I
          (finish_persist env d p only_world_bloom write_idle_heartbeat now batch_called)
          (λ _. I)
          I
  finish_persist-Keeps d p only_world_bloom write_idle_heartbeat now batch_called =
      >>-Keeps
        (settle env write_idle_heartbeat now batch_called
          >> store_border_hash env d only_world_bloom
          >> save_rank_state env p.changed_ranks)
        (pure batch_called)
        (>>-Keeps
          (settle env write_idle_heartbeat now batch_called
            >> store_border_hash env d only_world_bloom)
          (save_rank_state env p.changed_ranks)
          (>>-Keeps (settle env write_idle_heartbeat now batch_called)
            (store_border_hash env d only_world_bloom)
            (settle-Keeps write_idle_heartbeat now batch_called) (store-Keeps d only_world_bloom))
          (save-Keeps p.changed_ranks))
        (λ s i. i)

  module _ (hb : KeptByBloom I) where
    lookup-Keeps : Triple I (lookup_users env) (λ _. I) I
    lookup-Keeps s i = elim (Bool-cases (env.succeeds s.1.calls)) [
      | inl a ↦ rw a (
          hb.0 (remember_keys (env.user_keys (suc s.1.calls)) s.0.wl_user_keys)
            (suc (suc s.1.calls)) s.0 (called upsert_users true s.1)
            (hc upsert_users true s.0 s.1 i))
      | inr a ↦ rw a (hc upsert_users false s.0 s.1 i)
    ]

    write_bloom-Keeps :
        (d : Option (List BloomRow × HashMap WorldBloomKey PlayerState))
        → Triple I (write_bloom env d) (λ _. I) I
    write_bloom-Keeps none s i = i
    write_bloom-Keeps (some ([], new_state)) s i = i
    write_bloom-Keeps (some (c ∷ changed, new_state)) s i =
        elim (Bool-cases (env.succeeds s.1.calls)) [
          | inl a ↦ rw a (
              hb.1 (HashMap.extend s.0.prev_world_bloom_state new_state) s.0
                (called insert_bloom true s.1) (hc insert_bloom true s.0 s.1 i) refl)
          | inr a ↦ rw a (hc insert_bloom false s.0 s.1 i)
        ]

    batch-Keeps :
        (records : List (PlayerWorldBloomRankingRecordSchema Json))
        → Triple I (batch_insert_world_bloom_rankings env records) (λ _. I) I
    unfolding batch_insert_world_bloom_rankings
    batch-Keeps records =
        if-Triple (λ _. I) I (is_empty records) (pure 0)
          (lookup_users env >>= λ user_lookup.
            gets (λ b. bloom_diff user_lookup b.prev_world_bloom_state records) >>= write_bloom env)
          (λ _ s i. i)
          (λ _.
            >>=-Triple (λ _. I) (λ _. I) I (lookup_users env)
              (λ user_lookup.
                gets (λ b. bloom_diff user_lookup b.prev_world_bloom_state records)
                >>= write_bloom env)
              lookup-Keeps
              (λ user_lookup t.
                write_bloom-Keeps (bloom_diff user_lookup t.0.prev_world_bloom_state records) t))

    pub write_world_bloom-Keeps :
        (p : Plan Json) (batch_called : Bool)
        → Triple I (write_world_bloom env p batch_called) (λ _. I) I
    unfolding write_world_bloom
    write_world_bloom-Keeps p batch_called =
        if-Triple (λ _. I) I (is_empty p.wl_rows) (pure batch_called)
          (on_error (batch_insert_world_bloom_rankings env p.wl_rows)
              (cache_call env (if batch_called then finish_update else abort_update))
            >>= after_bloom env batch_called)
          (λ _ s i. i)
          (λ _.
            >>=-Triple (λ _. I) (λ _. I) I
              (on_error (batch_insert_world_bloom_rankings env p.wl_rows)
                (cache_call env (if batch_called then finish_update else abort_update)))
              (after_bloom env batch_called)
              (on_error-Keeps (batch_insert_world_bloom_rankings env p.wl_rows)
                (if batch_called then finish_update else abort_update) (batch-Keeps p.wl_rows))
              (λ inserted.
                if-Triple (λ _. I) I (ltb 0 inserted) (pure true)
                  (when (not batch_called) (cache_call env abort_update) >> pure batch_called)
                  (λ _ s i. i)
                  (λ _.
                    >>-Keeps (when (not batch_called) (cache_call env abort_update))
                      (pure batch_called)
                      (when-Keeps (not batch_called) (cache_call env abort_update)
                        (cache_call-Keeps abort_update))
                      (λ s i. i))))
