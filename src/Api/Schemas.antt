-- ===== src/Api/Schemas.antt =====
-- src/model/api.rs: the rows and answers that the metrics of play rounds read and fill.
use haruki_event_tracker.Prelude.{ℤ, Option}
use haruki_event_tracker.Prelude.Text.{Text}

pub record RecordedRankingSchema : Type 0 where
  pub timestamp : ℤ
  pub user_id : Text
  pub score : ℤ
  pub rank : ℤ

pub record RecordedWorldBloomRankingSchema : Type 0 where
  pub timestamp : ℤ
  pub user_id : Text
  pub score : ℤ
  pub rank : ℤ
  pub character_id : Option ℤ

pub data RecordedRankData : Type 0 where
  normal : RecordedRankingSchema → RecordedRankData
  world_bloom : RecordedWorldBloomRankingSchema → RecordedRankData

pub record CloudRankInfoSchema : Type 0 where
  pub rank : ℤ
  pub user_id : Option Text
  pub name : Text
  pub score : ℤ
  pub timestamp : ℤ
  pub average_round : Option ℤ
  pub average_pt : Option ℤ
  pub latest_pt : Option ℤ
  pub speed : Option ℤ
  pub min20_times_3_speed : Option ℤ
  pub hour_round : Option ℤ
  pub record_start_at : Option ℤ
  pub speed_window : Option ℤ
  pub character_id : Option ℤ
