-- ===== src/Tests/Scheduling.antt =====
-- Runs of the scheduler's tick.
use haruki_event_tracker.Prelude.{◌≡◌, refl, pos, true, false, [], some}
use haruki_event_tracker.Prelude.Result.{ok}
use haruki_event_tracker.Prelude.Text.{codes}
use haruki_event_tracker.Model.Enums.{jp, world_bloom, ended}
use haruki_event_tracker.Model.Enums.Lines.{idol}
use haruki_event_tracker.Model.Event.{EventStatus, WorldBloomChapterStatus}
use haruki_event_tracker.Tracker.Base.{is_world_bloom_chapter_ended}
use haruki_event_tracker.Tracker.World.{}
use haruki_event_tracker.Tracker.Daemon.{
  HarukiEventTracker, handle_event_ended, handle_world_bloom_chapter,
}
use haruki_event_tracker.Tracker.Daemon.Finalized.{
  handle_world_bloom_chapter_once, handle_event_ended_once,
}
use haruki_event_tracker.Tests.Data.{base, fresh, statuses, env_failing}

abbrev event : EventStatus
event = record {
  server = jp;
  event_id = pos 5;
  event_type = world_bloom;
  event_status = ended;
  remain = [];
  assetbundle_name = codes "a";
  chapter_statuses = statuses;
  detail = record {
    id = pos 5;
    event_type = world_bloom;
    name = codes "e";
    assetbundle_name = codes "a";
    bgm_assetbundle_name = codes "b";
    event_only_component_display_start_at = pos 0;
    start_at = pos 0;
    aggregate_at = pos 10;
    ranking_announce_at = pos 10;
    distribution_start_at = pos 10;
    event_only_component_display_end_at = pos 20;
    closed_at = pos 20;
    distribution_end_at = pos 20;
    virtual_live_id = pos 0;
    unit = idol;
    is_count_leader_character_play = false;
    event_point_assetbundle_name = codes "p";
    standby_screen_display_start_at = pos 0;
  };
}

abbrev daemon : HarukiEventTracker
daemon = record { server = jp; post_end_user_refresh_interval_secs = 60; inner = some base }

abbrev over : WorldBloomChapterStatus
over = record { server = jp; event_id = pos 5; character_id = pos 21; chapter_status = ended }

-- The fetch fails.
handle_world_bloom_chapter_once_example :
    let after = (handle_world_bloom_chapter (env_failing 1) event (pos 21) over (base, fresh)).1 in
    (is_world_bloom_chapter_ended after.0 (pos 21) ≡ true)
    × (handle_world_bloom_chapter (env_failing 1) event (pos 21) over after ≡ (ok false, after))
handle_world_bloom_chapter_once_example =
    handle_world_bloom_chapter_once (env_failing 1) event (pos 21) over (base, fresh) refl

handle_event_ended_once_example :
    let after = (handle_event_ended (env_failing 1) event (base, fresh)).1 in
    (after.0.is_event_ended ≡ true)
    × (handle_event_ended (env_failing 1) event after ≡ (ok false, after))
handle_event_ended_once_example = handle_event_ended_once (env_failing 1) event (base, fresh) refl
