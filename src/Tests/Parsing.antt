-- ===== src/Tests/Parsing.antt =====
-- Runs of the statuses of the current event.
use haruki_event_tracker.Prelude.{
  ℕ, ◌≡◌, ◌⊎◌, ◌↔◌, refl, ℤ, pos, ◌<ℤ◌, ◌≤ℤ◌, ◌+ℤ◌, true, false, List, [], ◌∷◌, Option, none, some,
  map, arith,
}
use haruki_event_tracker.Prelude.Result.{Result, ok, err}
use haruki_event_tracker.Prelude.Text.{codes}
use haruki_event_tracker.Model.Enums.{
  jp, world_bloom, game_character, not_started, ongoing, aggregating, ended, parse, as_str,
  to_ascii_lowercase,
}
use haruki_event_tracker.Model.Enums.Spelling.{parse_iff}
use haruki_event_tracker.Model.Enums.Lines.{idol}
use haruki_event_tracker.Model.Event.{Event, WorldBloom}
use haruki_event_tracker.Tracker.Parser.{
  event_phase, chapter_phase, time_units, event_time_remain, get_current_event_status,
}
use haruki_event_tracker.Tracker.Parser.Windows.{event_phase_windows, chapter_phase_windows}
use haruki_event_tracker.Tracker.Parser.Current.{Reports, get_current_event_status-Reports}
use haruki_event_tracker.Tracker.Parser.Remain.{clock_text, event_time_remain_parts}
use haruki_event_tracker.Tracker.Parser.Cached.{Fingerprint, load_series, load_json_cached_series}

abbrev event : Event
event = record {
  id = pos 5;
  event_type = world_bloom;
  name = codes "e";
  assetbundle_name = codes "a";
  bgm_assetbundle_name = codes "b";
  event_only_component_display_start_at = pos 0;
  start_at = pos 1000;
  aggregate_at = pos 900000;
  ranking_announce_at = pos 900000;
  distribution_start_at = pos 900000;
  event_only_component_display_end_at = pos 2000000;
  closed_at = pos 2000000;
  distribution_end_at = pos 2000000;
  virtual_live_id = pos 0;
  unit = idol;
  is_count_leader_character_play = false;
  event_point_assetbundle_name = codes "p";
  standby_screen_display_start_at = pos 0;
}

abbrev chapter : WorldBloom
chapter = record {
  id = pos 1;
  event_id = pos 5;
  game_character_id = pos 21;
  world_bloom_chapter_type = game_character;
  chapter_no = pos 1;
  chapter_start_at = pos 1000;
  aggregate_at = pos 5000;
  chapter_end_at = pos 9000;
  is_supplemental = false;
}

-- At the instant of the aggregation.
event_phase_windows_example :
    ((event_phase (pos 900000) event ≡ ongoing) ↔ (pos 900000 <ℤ event.aggregate_at))
    × ((event_phase (pos 900000) event ≡ aggregating)
        ↔ ((event.aggregate_at <ℤ pos 900000) × (pos 900000 <ℤ event.aggregate_at +ℤ pos 600000)))
    × ((event_phase (pos 900000) event ≡ ended)
        ↔ ((pos 900000 ≡ event.aggregate_at) ⊎ (event.aggregate_at +ℤ pos 600000 ≤ℤ pos 900000)))
event_phase_windows_example = event_phase_windows (pos 900000) event (ground arith)

chapter_phase_windows_example :
    ((chapter_phase (pos 5000) chapter ≡ not_started)
      ↔ ((pos 5000 ≤ℤ chapter.chapter_start_at) ⊎ (pos 5000 ≡ chapter.aggregate_at)))
    × ((chapter_phase (pos 5000) chapter ≡ ongoing)
        ↔ ((chapter.chapter_start_at <ℤ pos 5000) × (pos 5000 <ℤ chapter.aggregate_at)))
    × ((chapter_phase (pos 5000) chapter ≡ aggregating)
        ↔ ((chapter.aggregate_at <ℤ pos 5000) × (pos 5000 <ℤ chapter.chapter_end_at)))
    × ((chapter_phase (pos 5000) chapter ≡ ended) ↔ (chapter.chapter_end_at ≤ℤ pos 5000))
chapter_phase_windows_example =
    chapter_phase_windows (pos 5000) chapter (ground arith) (ground arith)

get_current_event_status-Reports_example :
    Reports {E = ℕ} jp
      (ok (chapter ∷ []))
      (pos 4000)
      (pos 4001)
      (event ∷ [])
      (get_current_event_status jp (ok (event ∷ [])) (ok (chapter ∷ [])) (pos 4000) (pos 4001))
get_current_event_status-Reports_example =
    get_current_event_status-Reports jp (event ∷ []) (ok (chapter ∷ [])) (pos 4000) (pos 4001)

event_time_remain_parts_example :
    event_time_remain (pos 90061) true jp ≡ some (clock_text 90061 true (time_units jp))
event_time_remain_parts_example = event_time_remain_parts 90061 true jp

abbrev seen : Fingerprint
seen = record { last_modified = some (pos 3); size = 2; etag = none }

-- A file that is read twice with one fingerprint, and once while its fingerprint is unknown.
abbrev reads : List (Option Fingerprint × Result ℕ ℤ)
reads = (some seen, ok (pos 4)) ∷ (none, err 1) ∷ (some seen, ok (pos 4)) ∷ []

load_json_cached_series_example : load_series none reads ≡ map (λ c. c.1) reads
load_json_cached_series_example =
    load_json_cached_series (λ fp. pos 4) reads
      (λ fp e. refl, (λ fp e. absurd (ground arith), (λ fp e. refl, tt)))

parse_iff_example : (parse (codes "JP") ≡ some jp) ↔ (to_ascii_lowercase (codes "JP") ≡ as_str jp)
parse_iff_example = parse_iff (codes "JP") jp
