-- ===== src/Tracker/Diff.antt =====
-- src/tracker/diff.rs: the pure helpers of a tick. `Json` stands for `serde_json::Value`.
pub mod Changes
pub mod Commit
pub mod Merge
pub mod Bloom
use haruki_event_tracker.Prelude.{
  ℕ, suc, ℤ, Bool, true, false, not, ◌&&◌, List, [], ◌∷◌, ◌++◌, Option, none, some, beq_ℤ,
  filter_map, filter, is_empty, if◌then◌else◌, int_eq, list_eq, nat_eq, any, get_elem?,
}
use haruki_event_tracker.Prelude.HashMap
use haruki_event_tracker.Prelude.HashMap.{HashMap, values, is_some}
use haruki_event_tracker.Prelude.Text.{Text, to_string, parse_i64}
use haruki_event_tracker.Model.Enums.{SekaiEventStatus, ongoing, ended}
use haruki_event_tracker.Model.Event.{WorldBloomChapterStatus}
use haruki_event_tracker.Model.Sekai.{
  PlayerRankingSchema, UserWorldBloomChapterRanking, UserWorldBloomChapterRankingBorder,
}
use haruki_event_tracker.Model.Tracker.{
  PlayerEventRankingRecordSchema, PlayerProfileSchema, PlayerWorldBloomRankingRecordSchema,
  RankState,
}

-- `o.and_then(f)`
abbrev pub and_then : {A B : Type 0} → Option A → (A → Option B) → Option B
and_then none f = none
and_then (some a) f = f a

-- `prev.user_id.parse() == Ok(uid)`
abbrev pub parses_to : Option ℤ → ℤ → Bool
parses_to none uid = false
parses_to (some u) uid = beq_ℤ u uid

-- Whether the stored state of `rank` already has this score and this user.
unfoldable pub unchanged : HashMap ℤ RankState → ℤ → ℤ → ℤ → Bool
unchanged prev_rank_state rank score uid = elim (HashMap.get rank prev_rank_state) [
  | none ↦ false
  | some prev ↦ if beq_ℤ prev.score score then parses_to (parse_i64 prev.user_id) uid else false
]

-- `should_track` of a chapter status and the "final row written" flag.
abbrev pub should_track : SekaiEventStatus → Bool → Bool
should_track ongoing chapter_ended = true
should_track ended chapter_ended = not chapter_ended
should_track _ chapter_ended = false

module _ {Json : Type 0} where
  unfoldable pub extract_cheerful_team_id : PlayerRankingSchema Json → Option ℤ
  extract_cheerful_team_id r = and_then r.user_cheerful_carnival (λ c. c.cheerful_carnival_team_id)

  unfoldable pub extract_player_profile : PlayerRankingSchema Json → PlayerProfileSchema Json
  extract_player_profile r = record {
    card = r.user_card;
    profile_word = and_then r.user_profile (λ p. p.word);
    profile_honors = r.user_profile_honors;
    honor_missions = r.user_honor_missions;
    player_frames = r.user_player_frames;
  }

  -- `let (Some(rank), Some(score), Some(uid)) = (r.rank, r.score, r.user_id) else { continue }`
  abbrev pub row_key : PlayerRankingSchema Json → Option (ℤ × ℤ × ℤ)
  row_key r =
      and_then r.rank
        (λ rank. and_then r.score (λ score. and_then r.user_id (λ uid. some (rank, score, uid))))

  -- One round of the loop of `diff_rank_based`.
  pub diff_row :
      HashMap ℤ RankState
      → ℕ
      → PlayerRankingSchema Json
      → List ℕ × HashMap ℤ RankState
      → List ℕ × HashMap ℤ RankState
  diff_row prev i r (changed_idx, changed_ranks) = elim (row_key r) [
    | none ↦ (changed_idx, changed_ranks)
    | some (rank, score, uid) ↦
        if unchanged prev rank score uid then (changed_idx, changed_ranks) else (
          changed_idx ++ i ∷ [],
          HashMap.insert rank (record { user_id = to_string uid; score = score }) changed_ranks,
        )
  ]

  pub diff_loop :
      ℕ
      → List (PlayerRankingSchema Json)
      → HashMap ℤ RankState
      → List ℕ × HashMap ℤ RankState
      → List ℕ × HashMap ℤ RankState
  unfolding diff_row
  diff_loop i [] prev acc = acc
  diff_loop i (r ∷ rs) prev acc = diff_loop (suc i) rs prev (diff_row prev i r acc)

  unfoldable pub diff_rank_based :
      List (PlayerRankingSchema Json) → HashMap ℤ RankState → List ℕ × HashMap ℤ RankState
  unfolding diff_loop
  diff_rank_based rankings prev_rank_state = diff_loop 0 rankings prev_rank_state ([], [])

  -- `top_ranks.contains(&rk)` for the ranks of the top 100.
  abbrev pub has_rank : List (PlayerRankingSchema Json) → ℤ → Bool
  has_rank top100 rk = any (λ k. beq_ℤ k rk) (filter_map (λ r. r.rank) top100)

  -- The guard of the match in `merge_rankings`.
  abbrev pub is_uncovered : List (PlayerRankingSchema Json) → PlayerRankingSchema Json → Bool
  is_uncovered top100 b = elim b.rank [ none ↦ false | some rk ↦ not (has_rank top100 rk) ]

  unfoldable pub merge_rankings :
      List (PlayerRankingSchema Json)
      → List (PlayerRankingSchema Json)
      → List (PlayerRankingSchema Json)
  merge_rankings top100 border = top100 ++ filter (is_uncovered top100) border

  unfoldable pub merge_world_bloom_rankings_for_character :
      List (PlayerRankingSchema Json)
      → List (PlayerRankingSchema Json)
      → List (PlayerRankingSchema Json)
  unfolding merge_rankings
  merge_world_bloom_rankings_for_character top100 border =
      if is_empty border then top100 else merge_rankings top100 border

  unfoldable pub process_world_bloom_chapter :
      UserWorldBloomChapterRanking Json
      → HashMap ℤ WorldBloomChapterStatus
      → HashMap ℤ Bool
      → Option (ℤ × List (PlayerRankingSchema Json))
  process_world_bloom_chapter chapter statuses is_chapter_ended =
      and_then chapter.base.game_character_id λ char_id.
        and_then (HashMap.get char_id statuses) λ status.
          if elim chapter.base.is_world_bloom_chapter_aggregate [ none ↦ false | some b ↦ b ]
          then none
          else if should_track status.chapter_status (HashMap.get_or char_id false is_chapter_ended)
              && not (is_empty chapter.rankings)
          then some (char_id, chapter.rankings)
          else none

  unfoldable pub extract_world_bloom_border_rankings :
      List (UserWorldBloomChapterRankingBorder Json) → ℤ → List (PlayerRankingSchema Json)
  extract_world_bloom_border_rankings [] character_id = []
  extract_world_bloom_border_rankings (b ∷ borders) character_id =
      if elim b.base.game_character_id [ none ↦ false | some c ↦ beq_ℤ c character_id ]
      then b.border_rankings
      else extract_world_bloom_border_rankings borders character_id

  -- The map from character to border rows; a later entry of a character overwrites an earlier one.
  pub borders_by_char :
      List (UserWorldBloomChapterRankingBorder Json)
      → HashMap ℤ (List (PlayerRankingSchema Json))
      → HashMap ℤ (List (PlayerRankingSchema Json))
  borders_by_char [] m = m
  borders_by_char (b ∷ borders) m =
      borders_by_char borders
        (elim b.base.game_character_id [ none ↦ m | some c ↦ HashMap.insert c b.border_rankings m ])

  -- One round of the loop over the top-100 chapters; the border rows of a character are taken
  -- out of their map when they are used.
  pub extract_chapter :
      HashMap ℤ WorldBloomChapterStatus
      → HashMap ℤ Bool
      → UserWorldBloomChapterRanking Json
      → HashMap ℤ (List (PlayerRankingSchema Json)) × HashMap ℤ (List (PlayerRankingSchema Json))
      → HashMap ℤ (List (PlayerRankingSchema Json)) × HashMap ℤ (List (PlayerRankingSchema Json))
  unfolding process_world_bloom_chapter merge_world_bloom_rankings_for_character
  extract_chapter statuses is_chapter_ended chapter (borders, out) =
      elim (process_world_bloom_chapter chapter statuses is_chapter_ended) [
        | none ↦ (borders, out)
        | some (char_id, rankings) ↦ (
          HashMap.remove char_id borders,
          HashMap.insert char_id
              (merge_world_bloom_rankings_for_character rankings
                (HashMap.get_or char_id [] borders))
              out,
        )
      ]

  pub extract_loop :
      HashMap ℤ WorldBloomChapterStatus
      → HashMap ℤ Bool
      → List (UserWorldBloomChapterRanking Json)
      → HashMap ℤ (List (PlayerRankingSchema Json)) × HashMap ℤ (List (PlayerRankingSchema Json))
      → HashMap ℤ (List (PlayerRankingSchema Json)) × HashMap ℤ (List (PlayerRankingSchema Json))
  unfolding extract_chapter
  extract_loop statuses is_chapter_ended [] acc = acc
  extract_loop statuses is_chapter_ended (c ∷ cs) acc =
      extract_loop statuses is_chapter_ended cs (extract_chapter statuses is_chapter_ended c acc)

  unfoldable pub extract_world_bloom_rankings :
      List (UserWorldBloomChapterRanking Json)
      → List (UserWorldBloomChapterRankingBorder Json)
      → HashMap ℤ WorldBloomChapterStatus
      → HashMap ℤ Bool
      → HashMap ℤ (List (PlayerRankingSchema Json))
  unfolding extract_loop borders_by_char
  extract_world_bloom_rankings top100_chapters border_chapters statuses is_chapter_ended =
      if is_empty top100_chapters
      then []
      else (extract_loop statuses is_chapter_ended top100_chapters
          (borders_by_char border_chapters [], [])).1
