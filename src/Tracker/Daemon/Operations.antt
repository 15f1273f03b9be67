-- ===== src/Tracker/Daemon/Operations.antt =====
-- The updates of the API cache in a scheduler tick's operations on the inner tracker.
use haruki_event_tracker.Prelude.{
  suc, ℤ, Bool, true, false, not, ◌||◌, [], ◌∷◌, ◌≡◌, refl, if◌then◌else◌, inl, inr, Bool-cases,
}
use haruki_event_tracker.Prelude.HashMap.{HashMap}
use haruki_event_tracker.Prelude.Result.{Result, ok, err}
use haruki_event_tracker.Model.Enums.{
  SekaiEventStatus, not_started, ongoing, aggregating, ended, world_bloom, status_beq,
  event_type_beq,
}
use haruki_event_tracker.Model.Event.{EventStatus, WorldBloomChapterStatus}
use haruki_event_tracker.Tracker.Base.{
  EventTrackerBase, is_world_bloom_chapter_ended, set_world_bloom_chapter_ended,
  set_world_bloom_statuses,
}
use haruki_event_tracker.Tracker.World.{
  TrackerError, redis, Effect, check_ended, load_ranks, create_tables, extend_tables, World, Env,
  Exec, ◌>>=◌, ◌>>◌, pure, gets, modify, guard, when, call, observe,
}
use haruki_event_tracker.Tracker.World.Hoare.{Post, Triple, >>=-Triple, >>-Keeps, if-Triple}
use haruki_event_tracker.Tracker.Persist.{attempt}
use haruki_event_tracker.Tracker.Persist.Phases.{idle, next_phase, In}
use haruki_event_tracker.Tracker.Persist.Protocol.{}
use haruki_event_tracker.Tracker.Tick
use haruki_event_tracker.Tracker.Tick.{record_ranking_data, refresh_after_end, set_event_ended}
use haruki_event_tracker.Tracker.Tick.Protocol.{record-Triple, refresh-Triple}
use haruki_event_tracker.Tracker.Daemon.{
  world_bloom_statuses_equal, report, reported, handle_event_ended, finalize_event,
  finalize_chapter, chapter_with, handle_world_bloom_chapter, handle_chapters, handle_world_bloom,
  handle_open, handle_tracker_match,
}

module _ {Json : Type 0} (env : Env Json) where
  attempt-Quiet :
      (e : Effect)
      → ((landed : Bool) → next_phase idle e landed ≡ idle)
      → Triple (In idle) (attempt env e) (λ _. In idle) (In idle)
  attempt-Quiet e q s h = elim (Bool-cases (env.succeeds s.1.calls)) [
    | inl a ↦ rw (a, h) (q true)
    | inr a ↦ rw (a, h) (q false)
  ]

  load-Quiet :
      Triple
        (In idle)
        (call env load_ranks >>= (λ loaded. when loaded (
          observe env env.stored_ranks >>= λ state.
          modify (λ b. record b { prev_rank_state = state }))))
        (λ _. In idle)
        (In idle)
  load-Quiet s h = elim (Bool-cases (env.succeeds s.1.calls)) [
    | inl a ↦ rw (a, h) refl
    | inr a ↦ rw (a, h) refl
  ]

  abbrev load_tables : Exec EventTrackerBase (Unit {0})
  load_tables =
      call env load_ranks
      >>= (λ loaded. when loaded (
          observe env env.stored_ranks >>= λ state.
          modify (λ b. record b { prev_rank_state = state })))
      >> attempt env create_tables
      >> attempt env extend_tables

  tables-Quiet : Triple (In idle) load_tables (λ _. In idle) (In idle)
  tables-Quiet =
      >>-Keeps
        (call env load_ranks
          >>= (λ loaded. when loaded (
              observe env env.stored_ranks >>= λ state.
              modify (λ b. record b { prev_rank_state = state })))
          >> attempt env create_tables)
        (attempt env extend_tables)
        (>>-Keeps
          (call env load_ranks >>= (λ loaded. when loaded (
            observe env env.stored_ranks >>= λ state.
            modify (λ b. record b { prev_rank_state = state }))))
          (attempt env create_tables) load-Quiet (attempt-Quiet create_tables (λ landed. refl)))
        (attempt-Quiet extend_tables (λ landed. refl))

  check-Quiet : Triple (In idle) (call env check_ended >>= guard redis) (λ _. In idle) (In idle)
  check-Quiet s h = elim (Bool-cases (env.succeeds s.1.calls)) [
    | inl a ↦ rw (a, h) refl
    | inr a ↦ rw (a, h) refl
  ]

  pub init-Quiet : Triple (In idle) (Tick.init env) (λ _. In idle) (In idle)
  unfolding Tick.init
  init-Quiet =
      >>=-Triple (λ _. In idle) (λ _. In idle) (In idle) (call env check_ended >>= guard redis)
        (λ _. observe env env.ended_flag >>= λ flag.
          if flag then modify (λ b. record b { is_event_ended = true }) else load_tables)
        check-Quiet
        (λ _ t k.
          if-Triple (λ _. In idle) (In idle) (env.ended_flag t.1.calls)
            (modify (λ b. record b { is_event_ended = true })) load_tables (λ _ u l. l)
            (λ _. tables-Quiet) (t.0, record t.1 { calls = suc t.1.calls }) k)

  reported-Quiet :
      (event_id : ℤ) (r : Result TrackerError Bool) (s : EventTrackerBase × World)
      → Post (λ _. In idle) (In idle) (r, s)
      → Post (λ _. In idle) (In idle) (reported env event_id (r, s))
  reported-Quiet event_id (ok true) s h = rw h refl
  reported-Quiet event_id (ok false) s h = h
  reported-Quiet event_id (err e) s h = h

  pub report-Quiet :
      (event_id : ℤ) (m : Exec EventTrackerBase Bool)
      → Triple (In idle) m (λ _. In idle) (In idle)
      → Triple (In idle) (report env event_id m) (λ _. In idle) (In idle)
  report-Quiet event_id m h s k = reported-Quiet event_id (m s).0 (m s).1 (h s k)

  when-Quiet :
      (b : Bool) (m : Exec EventTrackerBase (Unit {0}))
      → Triple (In idle) m (λ _. In idle) (In idle)
      → Triple (In idle) (when b m) (λ _. In idle) (In idle)
  when-Quiet true m h s k = h s k
  when-Quiet false m h s k = k

  end-Quiet : (flag : Bool) → Triple (In idle) (set_event_ended env flag) (λ _. In idle) (In idle)
  unfolding set_event_ended
  end-Quiet true s h = rw h refl
  end-Quiet false s h = h

  module _ (cached : env.api_cache ≡ true) where
    finalize_event-Quiet :
        (event : EventStatus) (flag : Bool)
        → Triple (In idle) (finalize_event env event flag) (λ _. In idle) (In idle)
    finalize_event-Quiet event true s h = h
    finalize_event-Quiet event false s h =
        >>-Keeps
          (report env event.event_id (record_ranking_data env false) >> set_event_ended env true)
          (pure true)
          (>>-Keeps (report env event.event_id (record_ranking_data env false))
            (set_event_ended env true)
            (report-Quiet event.event_id (record_ranking_data env false)
              (record-Triple env cached false))
            (end-Quiet true))
          (λ t k. k) s h

    ended-Quiet :
        (event : EventStatus)
        → Triple (In idle) (handle_event_ended env event) (λ _. In idle) (In idle)
    unfolding handle_event_ended
    ended-Quiet event s =
        finalize_event-Quiet event (not (status_beq event.event_status ended) || s.0.is_event_ended)
          s

    finalize-Quiet :
        (event : EventStatus) (character_id : ℤ) (flag : Bool)
        → Triple (In idle) (finalize_chapter env event character_id flag) (λ _. In idle) (In idle)
    finalize-Quiet event character_id true s h = h
    finalize-Quiet event character_id false s h =
        >>-Keeps
          (report env event.event_id (record_ranking_data env true)
            >> modify (λ b. set_world_bloom_chapter_ended b character_id true))
          (pure true)
          (>>-Keeps (report env event.event_id (record_ranking_data env true))
            (modify (λ b. set_world_bloom_chapter_ended b character_id true))
            (report-Quiet event.event_id (record_ranking_data env true)
              (record-Triple env cached true))
            (λ t k. k))
          (λ t k. k) s h

    with-Quiet :
        (event : EventStatus) (character_id : ℤ) (status : SekaiEventStatus)
        → Triple (In idle) (chapter_with env event character_id status) (λ _. In idle) (In idle)
    with-Quiet event character_id not_started s h = h
    with-Quiet event character_id aggregating s h = h
    with-Quiet event character_id ended s h =
        finalize-Quiet event character_id (is_world_bloom_chapter_ended s.0 character_id) s h
    with-Quiet event character_id ongoing s h = h

    chapters-Quiet :
        (event : EventStatus) (chapters : HashMap ℤ WorldBloomChapterStatus)
        → Triple (In idle) (handle_chapters env event chapters) (λ _. In idle) (In idle)
    unfolding handle_chapters handle_world_bloom_chapter
    chapters-Quiet event [] s h = h
    chapters-Quiet event ((c, d) ∷ chapters) s h =
        >>-Keeps (handle_world_bloom_chapter env event c d) (handle_chapters env event chapters)
          (with-Quiet event c d.chapter_status) (chapters-Quiet event chapters) s h

    bloom-Quiet :
        (event : EventStatus)
        → Triple (In idle) (handle_world_bloom env event) (λ _. In idle) (In idle)
    unfolding handle_world_bloom
    bloom-Quiet event =
        >>=-Triple (λ _. In idle) (λ _. In idle) (In idle)
          (gets (λ b. world_bloom_statuses_equal b.world_bloom_statuses event.chapter_statuses))
          (λ same.
            when (not same) (modify (λ b. set_world_bloom_statuses b event.chapter_statuses))
            >> handle_chapters env event event.chapter_statuses)
          (λ s h. h)
          (λ same.
            >>-Keeps
              (when (not same) (modify (λ b. set_world_bloom_statuses b event.chapter_statuses)))
              (handle_chapters env event event.chapter_statuses)
              (when-Quiet (not same)
                (modify (λ b. set_world_bloom_statuses b event.chapter_statuses)) (λ s h. h))
              (chapters-Quiet event event.chapter_statuses))

    open-Quiet :
        (event : EventStatus) → Triple (In idle) (handle_open env event) (λ _. In idle) (In idle)
    open-Quiet event =
        >>=-Triple (λ _. In idle) (λ _. In idle) (In idle) (handle_event_ended env event)
          (λ finalized.
            if finalized
            then pure true
            else when (event_type_beq event.event_type world_bloom) (handle_world_bloom env event)
              >> pure false)
          (ended-Quiet event)
          (λ finalized.
            if-Triple (λ _. In idle) (In idle) finalized (pure true)
              (when (event_type_beq event.event_type world_bloom) (handle_world_bloom env event)
                >> pure false)
              (λ _ s h. h)
              (λ _.
                >>-Keeps
                  (when (event_type_beq event.event_type world_bloom)
                    (handle_world_bloom env event))
                  (pure false)
                  (when-Quiet (event_type_beq event.event_type world_bloom)
                    (handle_world_bloom env event) (bloom-Quiet event))
                  (λ s h. h)))

    pub match-Quiet :
        (event : EventStatus)
        → Triple (In idle) (handle_tracker_match env event) (λ _. In idle) (In idle)
    unfolding handle_tracker_match
    match-Quiet event s =
        if-Triple (λ _. In idle) (In idle) s.0.is_event_ended
          (report env event.event_id (refresh_after_end env) >> pure true)
          (if status_beq event.event_status aggregating then pure true else handle_open env event)
          (λ _.
            >>-Keeps (report env event.event_id (refresh_after_end env)) (pure true)
              (report-Quiet event.event_id (refresh_after_end env) (refresh-Triple env cached))
              (λ t h. h))
          (λ _.
            if-Triple (λ _. In idle) (In idle) (status_beq event.event_status aggregating)
              (pure true) (handle_open env event) (λ _ t h. h) (λ _. open-Quiet event))
          s
