-- ===== src/Tracker/Parser/Windows.antt =====
-- The windows of time in which an event or a chapter has each status.
use haruki_event_tracker.Prelude.{ℤ, pos, ◌+ℤ◌, ◌≤ℤ◌, ◌<ℤ◌, eq_of_parts, ◌≡◌, ◌↔◌, ◌⊎◌, arith}
use haruki_event_tracker.Model.Enums.{not_started, ongoing, aggregating, ended}
use haruki_event_tracker.Model.Event.{Event, WorldBloom}
use haruki_event_tracker.Tracker.Parser.{chapter_phase, event_phase}

-- What an event's status says of the clock, for an event that has started: it is ongoing exactly
-- before the aggregation, aggregating strictly inside the ten minutes after the aggregation began,
-- and ended exactly at the instant of the aggregation itself or from ten minutes after it.
pub event_phase_windows :
    (now : ℤ) (event : Event)
    → event.start_at <ℤ now
    → ((event_phase now event ≡ ongoing) ↔ (now <ℤ event.aggregate_at))
      × ((event_phase now event ≡ aggregating)
          ↔ ((event.aggregate_at <ℤ now) × (now <ℤ event.aggregate_at +ℤ pos 600000)))
      × ((event_phase now event ≡ ended)
          ↔ ((now ≡ event.aggregate_at) ⊎ (event.aggregate_at +ℤ pos 600000 ≤ℤ now)))
unfolding event_phase
event_phase_windows now event h = ground (arith, eq_of_parts now event.aggregate_at)

-- What a chapter's status says of the clock, for a chapter whose times are in order: it is not
-- started up to its start and again at the instant of its aggregation, ongoing strictly between
-- these, aggregating strictly between the aggregation and the end, and ended from its end on.
pub chapter_phase_windows :
    (now : ℤ) (chapter : WorldBloom)
    → chapter.chapter_start_at <ℤ chapter.aggregate_at
    → chapter.aggregate_at <ℤ chapter.chapter_end_at
    → ((chapter_phase now chapter ≡ not_started)
        ↔ ((now ≤ℤ chapter.chapter_start_at) ⊎ (now ≡ chapter.aggregate_at)))
      × ((chapter_phase now chapter ≡ ongoing)
          ↔ ((chapter.chapter_start_at <ℤ now) × (now <ℤ chapter.aggregate_at)))
      × ((chapter_phase now chapter ≡ aggregating)
          ↔ ((chapter.aggregate_at <ℤ now) × (now <ℤ chapter.chapter_end_at)))
      × ((chapter_phase now chapter ≡ ended) ↔ (chapter.chapter_end_at ≤ℤ now))
unfolding chapter_phase
chapter_phase_windows now chapter h k = ground (arith, eq_of_parts now chapter.aggregate_at)
