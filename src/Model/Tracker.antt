-- ===== src/Model/Tracker.antt =====
-- src/model/tracker.rs: the records handed to the database, and the tracker's diff state.
use haruki_event_tracker.Prelude.{
  ℕ, ℤ, List, Option, Eq, beq_ℤ, beq_ℤ_iff, Bool, false, true, ◌≡◌, ◌↔◌, arith, if◌then◌else◌,
}
use haruki_event_tracker.Prelude.HashMap.{HashMap}
use haruki_event_tracker.Prelude.Text.{Text}
use haruki_event_tracker.Model.Sekai.{
  PlayerRankingSchema, UserCard, UserPlayerFrame, UserProfileHonor,
}

pub record PlayerProfileSchema (Json : Type 0) : Type 0 where
  pub card : Option UserCard
  pub profile_word : Option Text
  pub profile_honors : List UserProfileHonor
  pub honor_missions : List Json
  pub player_frames : List UserPlayerFrame

pub record PlayerEventRankingRecordSchema (Json : Type 0) : Type 0 where
  pub timestamp : ℤ
  pub user_id : Text
  pub name : Text
  pub score : ℤ
  pub rank : ℤ
  pub cheerful_team_id : Option ℤ
  pub profile : PlayerProfileSchema Json

pub record PlayerWorldBloomRankingRecordSchema (Json : Type 0) : Type 0 where
  pub base : PlayerEventRankingRecordSchema Json
  pub character_id : ℤ

pub record PlayerState : Type 0 where
  pub score : ℤ
  pub rank : ℤ

pub record RankState : Type 0 where
  pub user_id : Text
  pub score : ℤ

pub record WorldBloomKey : Type 0 where
  pub user_id_key : ℤ
  pub character_id : ℤ

abbrev pub bloom_key_beq : WorldBloomKey → WorldBloomKey → Bool
bloom_key_beq a b =
    if beq_ℤ a.user_id_key b.user_id_key then beq_ℤ a.character_id b.character_id else false

pub bloom_key_beq_iff : (a b : WorldBloomKey) → (bloom_key_beq a b ≡ true) ↔ (a ≡ b)
bloom_key_beq_iff a b =
    ground (arith, beq_ℤ_iff a.user_id_key b.user_id_key, beq_ℤ_iff a.character_id b.character_id)

instance abbrev pub bloom_key_eq : Eq WorldBloomKey
bloom_key_eq = record { beq = bloom_key_beq; beq_iff = bloom_key_beq_iff }

pub record HandledRankingData (Json : Type 0) : Type 0 where
  pub record_time : ℤ
  pub rankings : List (PlayerRankingSchema Json)
  pub world_bloom_rankings : HashMap ℤ (List (PlayerRankingSchema Json))
  -- The redis key and the 32 bytes of the border hash, to commit once the rows have persisted.
  pub border_cache : Option (Text × List ℕ)
