-- ===== src/Model/Event.antt =====
-- src/model/event.rs: master data, and the statuses computed from it.
use haruki_event_tracker.Prelude.{ℤ, Bool}
use haruki_event_tracker.Prelude.HashMap.{HashMap}
use haruki_event_tracker.Prelude.Text.{Text}
use haruki_event_tracker.Model.Enums.{
  SekaiServerRegion, SekaiEventType, SekaiWorldBloomType, SekaiEventStatus,
}
use haruki_event_tracker.Model.Enums.Lines.{SekaiUnit}

pub record WorldBloomChapterStatus : Type 0 where
  pub server : SekaiServerRegion
  pub event_id : ℤ
  pub character_id : ℤ
  pub chapter_status : SekaiEventStatus

pub record WorldBloom : Type 0 where
  pub id : ℤ
  pub event_id : ℤ
  pub game_character_id : ℤ
  pub world_bloom_chapter_type : SekaiWorldBloomType
  pub chapter_no : ℤ
  pub chapter_start_at : ℤ
  pub aggregate_at : ℤ
  pub chapter_end_at : ℤ
  pub is_supplemental : Bool

pub record Event : Type 0 where
  pub id : ℤ
  pub event_type : SekaiEventType
  pub name : Text
  pub assetbundle_name : Text
  pub bgm_assetbundle_name : Text
  pub event_only_component_display_start_at : ℤ
  pub start_at : ℤ
  pub aggregate_at : ℤ
  pub ranking_announce_at : ℤ
  pub distribution_start_at : ℤ
  pub event_only_component_display_end_at : ℤ
  pub closed_at : ℤ
  pub distribution_end_at : ℤ
  pub virtual_live_id : ℤ
  pub unit : SekaiUnit
  pub is_count_leader_character_play : Bool
  pub event_point_assetbundle_name : Text
  pub standby_screen_display_start_at : ℤ

pub record EventStatus : Type 0 where
  pub server : SekaiServerRegion
  pub event_id : ℤ
  pub event_type : SekaiEventType
  pub event_status : SekaiEventStatus
  pub remain : Text
  pub assetbundle_name : Text
  pub chapter_statuses : HashMap ℤ WorldBloomChapterStatus
  pub detail : Event
