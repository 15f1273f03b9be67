-- ===== src/Tracker/Daemon/Protocol.antt =====
-- The updates of the API cache over scheduler ticks.
use haruki_event_tracker.Prelude.{ℕ, zero, suc, Option}
use haruki_event_tracker.Prelude.HashMap.{}
use haruki_event_tracker.Prelude.Result.{Result}
use haruki_event_tracker.Model.Enums.{}
use haruki_event_tracker.Model.Event.{EventStatus}
use haruki_event_tracker.Tracker.World.{World, Env}
use haruki_event_tracker.Tracker.Persist.{}
use haruki_event_tracker.Tracker.Tick
use haruki_event_tracker.Tracker.Tick.{refresh_after_end, set_event_ended}
use haruki_event_tracker.Tracker.Daemon
use haruki_event_tracker.Tracker.Daemon.{
  HarukiEventTracker, world_bloom_statuses_equal, reported, handle_event_ended, finalize_event,
  finalize_chapter, chapter_with, handle_world_bloom_chapter, handle_chapters, handle_world_bloom,
  handle_open, track_ranking_data,
}

-- A number of scheduler ticks, one after another.
unfoldable pub ticks :
    {Json : Type 0}
    → Env Json
    → {E : Type 0} → (ℕ → Result E (Option EventStatus))
    → ℕ
    → HarukiEventTracker × World
    → HarukiEventTracker × World
ticks env current zero s = s
ticks env current (suc n) s = ticks env current n (track_ranking_data env current s)
