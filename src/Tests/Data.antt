-- ===== src/Tests/Data.antt =====
-- Test data. `ℕ` stands for `serde_json::Value`.
use haruki_event_tracker.Prelude.{
  ◌<◌, ◌^◌, All, arith, ℕ, nat_beq, ℤ, pos, true, false, not, List, [], ◌∷◌, none, some,
}
use haruki_event_tracker.Prelude.HashMap.{HashMap}
use haruki_event_tracker.Prelude.Text.{codes}
use haruki_event_tracker.Model.Enums.{jp, world_bloom, ongoing}
use haruki_event_tracker.Model.Event.{WorldBloomChapterStatus}
use haruki_event_tracker.Model.Sekai.{PlayerRankingSchema}
use haruki_event_tracker.Model.Tracker.{HandledRankingData, RankState}
use haruki_event_tracker.Tracker.Base.{EventTrackerBase}
use haruki_event_tracker.Tracker.World.{World, Env}
use haruki_event_tracker.Tracker.Diff.Changes.{InRange, DistinctRanks}

abbrev pub row : ℤ → ℤ → ℤ → PlayerRankingSchema ℕ
row rank score uid = record {
  is_own = none;
  name = some (codes "n");
  rank = some rank;
  score = some score;
  user_id = some uid;
  user_card = none;
  user_profile = none;
  user_profile_honors = [];
  user_cheerful_carnival = none;
  user_honor_missions = [];
  user_player_frames = [];
}

-- Two rows of the event and one of a chapter.
abbrev pub two_rows : List (PlayerRankingSchema ℕ)
two_rows = row (pos 1) (pos 500) (pos 7) ∷ row (pos 2) (pos 400) (pos 8) ∷ []

abbrev pub chapter_rows : HashMap ℤ (List (PlayerRankingSchema ℕ))
chapter_rows = (pos 21, row (pos 1) (pos 90) (pos 7) ∷ []) ∷ []

abbrev pub payload : HandledRankingData ℕ
payload = record {
  record_time = pos 1000;
  rankings = two_rows;
  world_bloom_rankings = chapter_rows;
  border_cache = some (codes "k", 1 ∷ 2 ∷ []);
}

abbrev pub statuses : HashMap ℤ WorldBloomChapterStatus
statuses =
    (
      pos 21,
      record { server = jp; event_id = pos 5; character_id = pos 21; chapter_status = ongoing },
    )
    ∷ []

-- Rank 1 is recorded with another score.
abbrev pub ranks : HashMap ℤ RankState
ranks = (pos 1, record { user_id = codes "7"; score = pos 450 }) ∷ []

abbrev pub base : EventTrackerBase
base = record {
  server = jp;
  event_id = pos 5;
  event_type = world_bloom;
  is_event_ended = false;
  world_bloom_statuses = statuses;
  is_world_bloom_chapter_ended = (pos 21, false) ∷ [];
  post_end_user_refresh_interval_secs = 60;
  last_post_end_user_refresh_at = none;
  prev_rank_state = ranks;
  prev_world_bloom_state = [];
  wl_user_keys = [];
}

abbrev pub fresh : World
fresh = record { calls = 0; log = [] }

-- Every call with this number fails.
abbrev pub env_failing : ℕ → Env ℕ
env_failing k = record {
  api_cache = true;
  succeeds = λ n. not (nat_beq n k);
  clock = λ n. pos 1000;
  payload = λ n. (
    record {
      is_event_aggregate = none;
      rankings = two_rows;
      user_ranking_status = [];
      user_world_bloom_chapter_rankings = [];
    },
    (
      1 ∷ [],
      record {
        event_id = none;
        is_event_aggregate = none;
        border_rankings = [];
        user_world_bloom_chapter_ranking_borders = [];
      },
    ),
  );
  border_hash = λ n. none;
  user_keys = λ n. (codes "7", pos 70) ∷ [];
  ended_flag = λ n. false;
  stored_ranks = λ n. [];
}

row-InRange : (rank score : ℤ) (n : ℕ) → n < 2 ^ 63 → InRange (row rank score (pos n))
row-InRange rank score n h uid e = ground arith

pub two_rows-InRange : All InRange two_rows
two_rows-InRange = (
  row-InRange (pos 1) (pos 500) 7 (ground arith),
  (row-InRange (pos 2) (pos 400) 8 (ground arith), tt),
)

pub two_rows-DistinctRanks : DistinctRanks two_rows
two_rows-DistinctRanks = ((λ k e. λ e'. ground arith, tt), (tt, tt))

pub chapter_rows-InRange : All (λ e. All InRange e.1) chapter_rows
chapter_rows-InRange = ((row-InRange (pos 1) (pos 90) 7 (ground arith), tt), tt)
