-- ===== src/Tracker/Daemon/Finalized.antt =====
-- The end of events and chapters.
use haruki_event_tracker.Prelude.{ℤ, Bool, true, false, none, some, ◌≡◌, refl, ap, int_eq}
use haruki_event_tracker.Prelude.HashMap.{get-insert_self}
use haruki_event_tracker.Prelude.Result.{Result, ok, err}
use haruki_event_tracker.Model.Enums.{ended}
use haruki_event_tracker.Model.Event.{EventStatus, WorldBloomChapterStatus}
use haruki_event_tracker.Tracker.Base.{
  EventTrackerBase, is_world_bloom_chapter_ended, set_world_bloom_chapter_ended,
}
use haruki_event_tracker.Tracker.World.{TrackerError, World, Env}
use haruki_event_tracker.Tracker.Tick.{record_ranking_data, set_event_ended}
use haruki_event_tracker.Tracker.Daemon.{
  reported, handle_event_ended, finalize_event, finalize_chapter, handle_world_bloom_chapter,
}

module _ {Json : Type 0} (env : Env Json) where
  -- Reporting never fails.
  reported-ok :
      (event_id : ℤ) (r : Result TrackerError Bool × (EventTrackerBase × World))
      → (reported env event_id r).0 ≡ ok tt
  reported-ok event_id (ok true, s) = refl
  reported-ok event_id (ok false, s) = refl
  reported-ok event_id (err e, s) = refl

  set-ended :
      (b : EventTrackerBase) (c : ℤ)
      → is_world_bloom_chapter_ended (set_world_bloom_chapter_ended b c true) c ≡ true
  unfolding is_world_bloom_chapter_ended set_world_bloom_chapter_ended
  set-ended b c =
      ap (λ o. elim o [ none ↦ false | some v ↦ v ])
        (get-insert_self c true b.is_world_bloom_chapter_ended)

  finalize-state :
      (event : EventStatus) (c : ℤ) (flag : Bool) (s : EventTrackerBase × World)
      → is_world_bloom_chapter_ended s.0 c ≡ flag
      → is_world_bloom_chapter_ended (finalize_chapter env event c flag s).1.0 c ≡ true
  finalize-state event c true s h = h
  finalize-state event c false s h =
      rw (reported-ok event.event_id (record_ranking_data env true s)) (set-ended _ c)

  -- Handling a chapter that is over flags it, whatever fails in between, and handling it again
  -- makes no call and changes nothing.
  pub handle_world_bloom_chapter_once :
      (event : EventStatus) (character_id : ℤ) (detail : WorldBloomChapterStatus)
      (s : EventTrackerBase × World)
      → detail.chapter_status ≡ ended
      → let after = (handle_world_bloom_chapter env event character_id detail s).1 in
        (is_world_bloom_chapter_ended after.0 character_id ≡ true)
        × (handle_world_bloom_chapter env event character_id detail after ≡ (ok false, after))
  unfolding handle_world_bloom_chapter
  handle_world_bloom_chapter_once event c detail s e =
      let flagged = finalize-state event c (is_world_bloom_chapter_ended s.0 c) s refl in
      let after = (finalize_chapter env event c (is_world_bloom_chapter_ended s.0 c) s).1 in
      rw e (flagged, ap (λ flag. finalize_chapter env event c flag after) flagged)

  finalize_event-state :
      (event : EventStatus) (flag : Bool) (s : EventTrackerBase × World)
      → s.0.is_event_ended ≡ flag
      → (finalize_event env event flag s).1.0.is_event_ended ≡ true
  unfolding set_event_ended
  finalize_event-state event true s h = h
  finalize_event-state event false s h =
      rw (reported-ok event.event_id (record_ranking_data env false s)) refl

  -- An event that is reported over is over for the tracker after it is handled, whatever fails in
  -- between, and handling it again makes no call and changes nothing.
  pub handle_event_ended_once :
      (event : EventStatus) (s : EventTrackerBase × World)
      → event.event_status ≡ ended
      → let after = (handle_event_ended env event s).1 in
        (after.0.is_event_ended ≡ true) × (handle_event_ended env event after ≡ (ok false, after))
  unfolding handle_event_ended set_event_ended
  handle_event_ended_once event s e =
      let after = (finalize_event env event s.0.is_event_ended s).1 in
      let over = finalize_event-state event s.0.is_event_ended s refl in
      rw e (over, ap (λ flag. finalize_event env event flag after) over)
