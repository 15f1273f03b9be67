-- ===== src/Tracker/Base.antt =====
-- src/tracker/base.rs: the state of the tracker of one event, and the operations on it that call
-- nothing outside. The connections (database, Redis, upstream API) are not part of the state.
use haruki_event_tracker.Prelude.{
  ℕ, ◌-◌, ◌^◌, ℤ, pos, negsuc, ◌-ℤ◌, leb, ltb_ℤ, leb_ℤ, beq_ℤ, nat_beq, Bool, true, false, not,
  ◌&&◌, [], Option, none, some, map, is_empty, if◌then◌else◌, int_eq, list_eq, nat_eq,
}
use haruki_event_tracker.Prelude.HashMap
use haruki_event_tracker.Prelude.HashMap.{HashMap, keys}
use haruki_event_tracker.Prelude.Result.{}
use haruki_event_tracker.Prelude.Text.{}
use haruki_event_tracker.Model.Enums.{
  SekaiServerRegion, SekaiEventType, world_bloom, event_type_beq,
}
use haruki_event_tracker.Model.Event.{WorldBloomChapterStatus}
use haruki_event_tracker.Model.Sekai.{}
use haruki_event_tracker.Model.Tracker.{RankState, PlayerState, WorldBloomKey, bloom_key_eq}

pub record EventTrackerBase : Type 0 where
  pub server : SekaiServerRegion
  pub event_id : ℤ
  pub event_type : SekaiEventType
  pub is_event_ended : Bool
  pub world_bloom_statuses : HashMap ℤ WorldBloomChapterStatus
  pub is_world_bloom_chapter_ended : HashMap ℤ Bool
  pub post_end_user_refresh_interval_secs : ℕ
  pub last_post_end_user_refresh_at : Option ℤ
  pub prev_rank_state : HashMap ℤ RankState
  pub prev_world_bloom_state : HashMap WorldBloomKey PlayerState
  pub wl_user_keys : HashMap ℤ ℤ

unfoldable pub new :
    SekaiServerRegion
    → ℤ
    → SekaiEventType
    → Bool
    → ℕ
    → HashMap ℤ WorldBloomChapterStatus
    → EventTrackerBase
new server event_id event_type is_event_ended interval_secs world_bloom_statuses = record {
  server = server;
  event_id = event_id;
  event_type = event_type;
  is_event_ended = is_event_ended;
  world_bloom_statuses = world_bloom_statuses;
  is_world_bloom_chapter_ended =
      if event_type_beq event_type world_bloom && not (is_empty world_bloom_statuses)
      then map (λ e. (e.0, false)) world_bloom_statuses
      else [];
  post_end_user_refresh_interval_secs = interval_secs;
  last_post_end_user_refresh_at = none;
  prev_rank_state = [];
  prev_world_bloom_state = [];
  wl_user_keys = [];
}

unfoldable pub is_world_bloom_chapter_ended : EventTrackerBase → ℤ → Bool
is_world_bloom_chapter_ended b character_id =
    HashMap.get_or character_id false b.is_world_bloom_chapter_ended

unfoldable pub set_world_bloom_chapter_ended : EventTrackerBase → ℤ → Bool → EventTrackerBase
set_world_bloom_chapter_ended b character_id ended = record b {
  is_world_bloom_chapter_ended = HashMap.insert character_id ended b.is_world_bloom_chapter_ended;
}

-- Finished chapters stay finished; new ones are not.
unfoldable pub set_world_bloom_statuses :
    EventTrackerBase → HashMap ℤ WorldBloomChapterStatus → EventTrackerBase
unfolding is_world_bloom_chapter_ended
set_world_bloom_statuses b statuses = record b {
  world_bloom_statuses = statuses;
  is_world_bloom_chapter_ended = map (λ e. (e.0, is_world_bloom_chapter_ended b e.0)) statuses;
}

-- `now.saturating_sub(last)` on `i64`.
unfoldable pub saturating_sub : ℤ → ℤ → ℤ
saturating_sub a b =
    let d = a -ℤ b in
    if ltb_ℤ (pos (2 ^ 63 - 1)) d
    then pos (2 ^ 63 - 1)
    else if ltb_ℤ d (negsuc (2 ^ 63 - 1))
    then negsuc (2 ^ 63 - 1)
    else d

unfoldable pub should_refresh_after_end : Option ℤ → ℤ → ℕ → Bool
unfolding saturating_sub
should_refresh_after_end last now interval_secs =
    if nat_beq interval_secs 0
    then true
    else if leb (2 ^ 63) interval_secs
    then false
    else elim last [ none ↦ true | some l ↦ leb_ℤ (pos interval_secs) (saturating_sub now l) ]

-- The filter that a tick hands to `build_world_bloom_rows`: the user's last row of this character
-- has the same score and rank.
unfoldable pub skip_unchanged : EventTrackerBase → ℤ → ℤ → ℤ → ℤ → Bool
skip_unchanged b character_id uid score rank = elim (HashMap.get uid b.wl_user_keys) [
  | none ↦ false
  | some user_id_key ↦
      elim (HashMap.get (record { user_id_key = user_id_key; character_id = character_id })
        b.prev_world_bloom_state) [
          | none ↦ false
          | some p ↦ if beq_ℤ p.score score then beq_ℤ p.rank rank else false
        ]
]
