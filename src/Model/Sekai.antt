-- ===== src/Model/Sekai.antt =====
-- src/model/sekai.rs: the upstream payloads. `Json` stands for `serde_json::Value`.
use haruki_event_tracker.Prelude.{ℤ, Bool, List, Option}
use haruki_event_tracker.Prelude.Text.{Text}

pub record UserCheerfulCarnival : Type 0 where
  pub cheerful_carnival_team_id : Option ℤ
  pub event_id : Option ℤ
  pub register_at : Option ℤ
  pub team_change_count : Option ℤ

pub record UserCard : Type 0 where
  pub card_id : Option ℤ
  pub level : Option ℤ
  pub master_rank : Option ℤ
  pub special_training_status : Option Text
  pub default_image : Option Text

pub record UserProfile : Type 0 where
  pub word : Option Text

pub record UserProfileHonor : Type 0 where
  pub seq : Option ℤ
  pub profile_honor_type : Option Text
  pub honor_id : Option ℤ
  pub honor_level : Option ℤ
  pub bonds_honor_view_type : Option Text
  pub bonds_honor_word_id : Option ℤ

pub record UserPlayerFrame : Type 0 where
  pub player_frame_id : Option ℤ
  pub player_frame_attach_status : Option Text

pub record PlayerRankingSchema (Json : Type 0) : Type 0 where
  pub is_own : Option Bool
  pub name : Option Text
  pub rank : Option ℤ
  pub score : Option ℤ
  pub user_id : Option ℤ
  pub user_card : Option UserCard
  pub user_profile : Option UserProfile
  pub user_profile_honors : List UserProfileHonor
  pub user_cheerful_carnival : Option UserCheerfulCarnival
  pub user_honor_missions : List Json
  pub user_player_frames : List UserPlayerFrame

pub record UserWorldBloomChapterRankingBase : Type 0 where
  pub event_id : Option ℤ
  pub game_character_id : Option ℤ
  pub is_world_bloom_chapter_aggregate : Option Bool

pub record UserWorldBloomChapterRanking (Json : Type 0) : Type 0 where
  pub base : UserWorldBloomChapterRankingBase
  pub rankings : List (PlayerRankingSchema Json)

pub record UserWorldBloomChapterRankingBorder (Json : Type 0) : Type 0 where
  pub base : UserWorldBloomChapterRankingBase
  pub border_rankings : List (PlayerRankingSchema Json)

pub record Top100RankingResponse (Json : Type 0) : Type 0 where
  pub is_event_aggregate : Option Bool
  pub rankings : List (PlayerRankingSchema Json)
  pub user_ranking_status : Text
  pub user_world_bloom_chapter_rankings : List (UserWorldBloomChapterRanking Json)

pub record BorderRankingResponse (Json : Type 0) : Type 0 where
  pub event_id : Option ℤ
  pub is_event_aggregate : Option Bool
  pub border_rankings : List (PlayerRankingSchema Json)
  pub user_world_bloom_chapter_ranking_borders : List (UserWorldBloomChapterRankingBorder Json)
