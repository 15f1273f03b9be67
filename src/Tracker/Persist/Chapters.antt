-- ===== src/Tracker/Persist/Chapters.antt =====
-- The update of the API cache around the chapter rows of a persist.
use haruki_event_tracker.Prelude.{
  ℕ, ltb, Bool, true, false, not, ◌||◌, List, [], ◌∷◌, Option, none, some, is_empty, ◌≡◌, ap, ◌∙◌,
  if◌then◌else◌, arith, inl, inr, Bool-cases,
}
use haruki_event_tracker.Prelude.HashMap.{HashMap}
use haruki_event_tracker.Prelude.Result.{Result, ok, err}
use haruki_event_tracker.Prelude.Text.{}
use haruki_event_tracker.Model.Tracker.{
  WorldBloomKey, PlayerState, PlayerWorldBloomRankingRecordSchema,
}
use haruki_event_tracker.Tracker.Base.{EventTrackerBase}
use haruki_event_tracker.Db.Bloom.{BloomRow, bloom_diff}
use haruki_event_tracker.Tracker.World.{
  finish_update, abort_update, World, Env, TrackerError, handle, ◌>>=◌, ◌>>◌, pure, gets, when,
  on_error, cache_call,
}
use haruki_event_tracker.Tracker.World.Hoare.{Post, Triple, >>=-Triple, if-Triple}
use haruki_event_tracker.Tracker.Persist.{
  Plan, lookup_users, write_bloom, batch_insert_world_bloom_rankings, after_bloom,
  write_world_bloom,
}
use haruki_event_tracker.Tracker.Persist.Phases.{
  UpdatePhase, idle, users, rows, next_phase, phase_of, In, opened,
}

module _ {Json : Type 0} (env : Env Json) (cached : env.api_cache ≡ true) where
  -- Closing the update, after an error, as the tick does leaves none open.
  abbrev Closable : Bool → EventTrackerBase × World → Type 0
  Closable batch_called s =
      (landed : Bool)
      → next_phase (phase_of s.1.log) (if batch_called then finish_update else abort_update) landed
        ≡ idle

  lookup-Triple :
      (batch_called : Bool)
      → Triple
          (In (opened true batch_called))
          (lookup_users env)
          (λ _. In (if batch_called then rows else users))
          (Closable batch_called)
  lookup-Triple true s h = elim (Bool-cases (env.succeeds s.1.calls)) [
    | inl a ↦ ground arith
    | inr a ↦ ground arith
  ]
  lookup-Triple false s h = elim (Bool-cases (env.succeeds s.1.calls)) [
    | inl a ↦ ground arith
    | inr a ↦ ground arith
  ]

  abbrev after_write : Bool → ℕ → UpdatePhase
  after_write batch_called inserted =
      if batch_called then rows else if ltb 0 inserted then rows else users

  write-Triple :
      (batch_called : Bool) (d : Option (List BloomRow × HashMap WorldBloomKey PlayerState))
      → Triple
          (In (if batch_called then rows else users))
          (write_bloom env d)
          (λ inserted. In (after_write batch_called inserted))
          (Closable batch_called)
  write-Triple true none s h = λ landed. ground arith
  write-Triple false none s h = λ landed. ground arith
  write-Triple batch_called (some ([], new_state)) s h = ground arith
  write-Triple batch_called (some (c ∷ changed, new_state)) s h =
      elim (Bool-cases (env.succeeds s.1.calls)) [ inl a ↦ ground arith | inr a ↦ ground arith ]

  batch-Triple :
      (records : List (PlayerWorldBloomRankingRecordSchema Json)) (batch_called : Bool)
      → is_empty records ≡ false
      → Triple
          (In (opened true batch_called))
          (batch_insert_world_bloom_rankings env records)
          (λ inserted. In (after_write batch_called inserted))
          (Closable batch_called)
  unfolding batch_insert_world_bloom_rankings
  batch-Triple records batch_called e s h =
      if-Triple _ _ (is_empty records) (pure 0)
        (lookup_users env >>= λ user_lookup.
          gets (λ b. bloom_diff user_lookup b.prev_world_bloom_state records) >>= write_bloom env)
        (λ c. absurd (ground arith))
        (λ _.
          >>=-Triple (λ _. In (if batch_called then rows else users))
            (λ inserted. In (after_write batch_called inserted)) (Closable batch_called)
            (lookup_users env)
            (λ user_lookup.
              gets (λ b. bloom_diff user_lookup b.prev_world_bloom_state records)
              >>= write_bloom env)
            (lookup-Triple batch_called)
            (λ user_lookup t.
              write-Triple batch_called (bloom_diff user_lookup t.0.prev_world_bloom_state records)
                t))
        s h

  handle-Post :
      (A : Type 0) (batch_called : Bool) (Q : A → EventTrackerBase × World → Type 0)
      (r : Result TrackerError A) (s : EventTrackerBase × World)
      → Post Q (Closable batch_called) (r, s)
      → Post Q
          (In idle)
          (handle (r, s) (cache_call env (if batch_called then finish_update else abort_update)))
  handle-Post A batch_called Q (ok a) s q = q
  handle-Post A batch_called Q (err e) s q = rw cached (q (env.succeeds s.1.calls))

  after-Triple :
      (batch_called : Bool) (inserted : ℕ)
      → Triple
          (In (after_write batch_called inserted))
          (after_bloom env batch_called inserted)
          (λ landed. In (opened landed landed))
          (In idle)
  after-Triple true inserted =
      if-Triple _ _ (ltb 0 inserted) (pure true)
        (when false (cache_call env abort_update) >> pure true) (λ e s h. h) (λ e s h. h)
  after-Triple false inserted =
      if-Triple _ _ (ltb 0 inserted) (pure true)
        (when true (cache_call env abort_update) >> pure false) (λ e s h. ground arith)
        (λ e s h. ground arith)

  -- The rows of the chapters, from an open update: a result tells whether it is still open.
  pub bloom-Triple :
      (p : Plan Json) (batch_called : Bool)
      → Triple
          (In (opened (batch_called || not (is_empty p.wl_rows)) batch_called))
          (write_world_bloom env p batch_called)
          (λ landed. In (opened landed landed))
          (In idle)
  unfolding write_world_bloom
  bloom-Triple p batch_called =
      if-Triple _ _ (is_empty p.wl_rows) (pure batch_called)
        (on_error (batch_insert_world_bloom_rankings env p.wl_rows)
            (cache_call env (if batch_called then finish_update else abort_update))
          >>= after_bloom env batch_called)
        (λ e s h. ground arith)
        (λ e s h.
          >>=-Triple (λ inserted. In (after_write batch_called inserted))
            (λ landed. In (opened landed landed)) (In idle)
            (on_error (batch_insert_world_bloom_rankings env p.wl_rows)
              (cache_call env (if batch_called then finish_update else abort_update)))
            (after_bloom env batch_called)
            (λ t k.
              handle-Post ℕ batch_called (λ inserted. In (after_write batch_called inserted))
                (batch_insert_world_bloom_rankings env p.wl_rows t).0
                (batch_insert_world_bloom_rankings env p.wl_rows t).1
                (batch-Triple p.wl_rows batch_called e t k))
            (after-Triple batch_called) s
            (h ∙ ap (λ x. opened (batch_called || not x) batch_called) e ∙ ground arith))
