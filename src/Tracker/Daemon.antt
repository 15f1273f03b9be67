-- ===== src/Tracker/Daemon.antt =====
-- src/tracker/daemon.rs: the scheduler's tick over the tracker of the current event.
pub mod Operations
pub mod Protocol
pub mod Finalized
use haruki_event_tracker.Prelude.{
  ℕ, suc, ℤ, ltb_ℤ, beq_ℤ, nat_beq, Bool, true, false, not, ◌||◌, ◌&&◌, List, [], ◌∷◌, Option, none,
  some, length, if◌then◌else◌, int_eq, all,
}
use haruki_event_tracker.Prelude.HashMap
use haruki_event_tracker.Prelude.HashMap.{HashMap}
use haruki_event_tracker.Prelude.Result.{Result, ok, err}
use haruki_event_tracker.Model.Enums.{
  SekaiServerRegion, SekaiEventStatus, not_started, ongoing, aggregating, ended, world_bloom,
  status_beq, event_type_beq, region_beq,
}
use haruki_event_tracker.Model.Event.{EventStatus, WorldBloomChapterStatus}
use haruki_event_tracker.Tracker.Base.{
  EventTrackerBase, new, is_world_bloom_chapter_ended, set_world_bloom_chapter_ended,
  set_world_bloom_statuses,
}
use haruki_event_tracker.Tracker.World.{
  TrackerError, notify_update, World, Env, Exec, ◌>>=◌, ◌>>◌, pure, gets, modify, when, call_logged,
}
use haruki_event_tracker.Tracker.Tick
use haruki_event_tracker.Tracker.Tick.{record_ranking_data, refresh_after_end, set_event_ended}

pub data DaemonError (E : Type 0) : Type 0 where
  parse : E → DaemonError E
  tracker : TrackerError → DaemonError E
  no_active_event : DaemonError E

-- Without the connections.
pub record HarukiEventTracker : Type 0 where
  pub server : SekaiServerRegion
  pub post_end_user_refresh_interval_secs : ℕ
  pub inner : Option EventTrackerBase

-- `v` and `bv` have the same fields.
abbrev pub same_status : WorldBloomChapterStatus → WorldBloomChapterStatus → Bool
same_status v bv =
    region_beq v.server bv.server
    && beq_ℤ v.event_id bv.event_id
    && beq_ℤ v.character_id bv.character_id
    && status_beq v.chapter_status bv.chapter_status

unfoldable pub world_bloom_statuses_equal :
    HashMap ℤ WorldBloomChapterStatus → HashMap ℤ WorldBloomChapterStatus → Bool
world_bloom_statuses_equal a b =
    if not (nat_beq (length a) (length b))
    then false
    else all (λ e. elim (HashMap.get e.0 b) [ none ↦ false | some bv ↦ same_status e.1 bv ]) a

abbrev pub new_inner : HarukiEventTracker → EventStatus → EventTrackerBase
new_inner t event =
    new t.server event.event_id event.event_type (status_beq event.event_status ended)
      t.post_end_user_refresh_interval_secs event.chapter_statuses

abbrev pub need_init : HarukiEventTracker → EventStatus → Bool
need_init t event = elim t.inner [ none ↦ true | some b ↦ ltb_ℤ b.event_id event.event_id ]

abbrev pub is_inner : HarukiEventTracker → EventStatus → Bool
is_inner t event = elim t.inner [ none ↦ false | some b ↦ beq_ℤ b.event_id event.event_id ]

module _ {Json : Type 0} (env : Env Json) where
  -- Clients are told when rows changed; an error is only logged.
  abbrev pub reported :
      ℤ
      → Result TrackerError Bool × (EventTrackerBase × World)
      → Result TrackerError (Unit {0}) × (EventTrackerBase × World)
  reported event_id (ok true, s) = call_logged env (notify_update event_id) s
  reported event_id (ok false, s) = (ok tt, s)
  reported event_id (err e, s) = (ok tt, s)

  abbrev pub report : ℤ → Exec EventTrackerBase Bool → Exec EventTrackerBase (Unit {0})
  report event_id m s = reported event_id (m s)

  abbrev pub finalize_event : EventStatus → Bool → Exec EventTrackerBase Bool
  finalize_event event true = pure false
  finalize_event event false =
      report event.event_id (record_ranking_data env false) >> set_event_ended env true >> pure true

  unfoldable pub handle_event_ended : EventStatus → Exec EventTrackerBase Bool
  unfolding record_ranking_data set_event_ended
  handle_event_ended event =
      gets (λ b. not (status_beq event.event_status ended) || b.is_event_ended)
      >>= finalize_event event

  -- The final rows of a chapter that is over are recorded once.
  abbrev pub finalize_chapter : EventStatus → ℤ → Bool → Exec EventTrackerBase Bool
  finalize_chapter event character_id true = pure false
  finalize_chapter event character_id false =
      report event.event_id (record_ranking_data env true)
      >> modify (λ b. set_world_bloom_chapter_ended b character_id true)
      >> pure true

  -- The match on the chapter's status.
  abbrev pub chapter_with : EventStatus → ℤ → SekaiEventStatus → Exec EventTrackerBase Bool
  chapter_with event character_id not_started = pure false
  chapter_with event character_id aggregating = pure false
  chapter_with event character_id ended =
      gets (λ b. is_world_bloom_chapter_ended b character_id)
      >>= finalize_chapter event character_id
  chapter_with event character_id ongoing = pure false

  unfoldable pub handle_world_bloom_chapter :
      EventStatus → ℤ → WorldBloomChapterStatus → Exec EventTrackerBase Bool
  unfolding record_ranking_data set_world_bloom_chapter_ended is_world_bloom_chapter_ended
  handle_world_bloom_chapter event character_id detail =
      chapter_with event character_id detail.chapter_status

  pub handle_chapters :
      EventStatus → HashMap ℤ WorldBloomChapterStatus → Exec EventTrackerBase (Unit {0})
  unfolding handle_world_bloom_chapter
  handle_chapters event [] = pure tt
  handle_chapters event ((character_id, detail) ∷ chapters) =
      handle_world_bloom_chapter event character_id detail >> handle_chapters event chapters

  unfoldable pub handle_world_bloom : EventStatus → Exec EventTrackerBase (Unit {0})
  unfolding handle_chapters world_bloom_statuses_equal set_world_bloom_statuses
  handle_world_bloom event =
      gets (λ b. world_bloom_statuses_equal b.world_bloom_statuses event.chapter_statuses)
      >>= λ same.
          when (not same) (modify (λ b. set_world_bloom_statuses b event.chapter_statuses))
          >> handle_chapters event event.chapter_statuses

  -- What is left of a tick's match once the event is known to be neither over nor aggregating
  -- here: whether the main recording is to be skipped.
  abbrev pub handle_open : EventStatus → Exec EventTrackerBase Bool
  handle_open event = handle_event_ended event >>= λ finalized.
      if finalized
      then pure true
      else when (event_type_beq event.event_type world_bloom) (handle_world_bloom event)
        >> pure false

  unfoldable pub handle_tracker_match : EventStatus → Exec EventTrackerBase Bool
  unfolding refresh_after_end handle_event_ended handle_world_bloom
  handle_tracker_match event = gets (λ b. b.is_event_ended) >>= λ over.
      if over
      then report event.event_id (refresh_after_end env) >> pure true
      else if status_beq event.event_status aggregating
      then pure true
      else handle_open event

  -- An operation of the inner tracker, if there is one.
  abbrev pub on_inner :
      {A : Type 0}
      → A
      → Exec EventTrackerBase A
      → HarukiEventTracker × World
      → Result TrackerError A × (HarukiEventTracker × World)
  on_inner a m (t, w) = elim t.inner [
    | none ↦ (ok a, (t, w))
    | some b ↦ let (r, (b', w')) = m (b, w) in (r, (record t { inner = some b' }, w'))
  ]

  -- The main recording, unless the match said to skip it.
  abbrev pub record_main :
      EventStatus
      → Result TrackerError Bool × (HarukiEventTracker × World)
      → HarukiEventTracker × World
  record_main event (ok true, s) = s
  record_main event (ok false, s) =
      (on_inner tt (report event.event_id (record_ranking_data env false)) s).1
  record_main event (err e, s) = s

  abbrev pub track_event : EventStatus → HarukiEventTracker × World → HarukiEventTracker × World
  track_event event s =
      record_main event (
        if is_inner s.0 event then on_inner false (handle_tracker_match event) s else (ok false, s))

  module _ {E : Type 0} (current : ℕ → Result E (Option EventStatus)) where
    -- The tracker is replaced only if the new one initializes.
    abbrev pub initialized :
        HarukiEventTracker
        → Result TrackerError (Unit {0}) × (EventTrackerBase × World)
        → Result (DaemonError E) (Unit {0}) × (HarukiEventTracker × World)
    initialized t (ok u, (b, w)) = (ok tt, (record t { inner = some b }, w))
    initialized t (err e, (b, w)) = (err (tracker e), (t, w))

    -- The rest of `init`, once the status of the current event is read.
    abbrev pub init_with :
        HarukiEventTracker
        → World
        → Result E (Option EventStatus)
        → Result (DaemonError E) (Unit {0}) × (HarukiEventTracker × World)
    init_with t w (err e) = (err (parse e), (t, w))
    init_with t w (ok none) = (err no_active_event, (t, w))
    init_with t w (ok (some event)) = initialized t (Tick.init env (new_inner t event, w))

    unfoldable pub init :
        HarukiEventTracker × World
        → Result (DaemonError E) (Unit {0}) × (HarukiEventTracker × World)
    unfolding Tick.init
    init (t, w) = init_with t (record w { calls = suc w.calls }) (current w.calls)

    abbrev pub after_init :
        EventStatus
        → Result (DaemonError E) (Unit {0}) × (HarukiEventTracker × World)
        → HarukiEventTracker × World
    after_init event (ok u, s) = track_event event s
    after_init event (err e, s) = s

    abbrev pub track_with :
        HarukiEventTracker → World → Result E (Option EventStatus) → HarukiEventTracker × World
    track_with t w (err e) = (t, w)
    track_with t w (ok none) = (t, w)
    track_with t w (ok (some event)) =
        after_init event (if need_init t event then init (t, w) else (ok tt, (t, w)))

    unfoldable pub track_ranking_data : HarukiEventTracker × World → HarukiEventTracker × World
    unfolding init handle_tracker_match record_ranking_data
    track_ranking_data (t, w) = track_with t (record w { calls = suc w.calls }) (current w.calls)
