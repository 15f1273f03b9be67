-- ===== src/Model/Enums/Lines.antt =====
-- src/model/enums.rs: the speeds and units of an event, and the ranks whose lines are reported.
use haruki_event_tracker.Prelude.{ℤ, pos, List, [], ◌∷◌, map}

pub data SekaiEventSpeedType : Type 0 where
  hourly semi_daily daily : SekaiEventSpeedType

pub data SekaiUnit : Type 0 where
  none light_sound idol street theme_park school_refusal : SekaiUnit

abbrev pub sekai_event_ranking_lines_normal : List ℤ
sekai_event_ranking_lines_normal = map pos (
    10 ∷ 20 ∷ 30 ∷ 40 ∷ 50 ∷ 100 ∷ 200 ∷ 300 ∷ 400 ∷ 500 ∷ 1000 ∷ 1500 ∷ 2000 ∷ 2500 ∷ 3000 ∷ 4000
    ∷ 5000 ∷ 10000 ∷ 20000 ∷ 30000 ∷ 40000 ∷ 50000 ∷ 100000 ∷ 200000 ∷ 300000 ∷ [])

abbrev pub sekai_event_ranking_lines_world_bloom : List ℤ
sekai_event_ranking_lines_world_bloom = map pos (
    10 ∷ 20 ∷ 30 ∷ 40 ∷ 50 ∷ 100 ∷ 200 ∷ 300 ∷ 400 ∷ 500 ∷ 1000 ∷ 2000 ∷ 3000 ∷ 4000 ∷ 5000 ∷ 7000
    ∷ 10000 ∷ 20000 ∷ 30000 ∷ 40000 ∷ 50000 ∷ 70000 ∷ 100000 ∷ [])
