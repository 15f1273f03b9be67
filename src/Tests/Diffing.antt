-- ===== src/Tests/Diffing.antt =====
-- Runs of the diff, the merges and the records of a tick.
use haruki_event_tracker.Prelude.{
  is_empty, if◌then◌else◌, ℕ, ◌≡◌, ◌↔◌, refl, ℤ, pos, beq_ℤ, Bool, false, List, [], ◌∷◌, ◌++◌, none,
  some, filter, arith, int_eq,
}
use haruki_event_tracker.Prelude.HashMap
use haruki_event_tracker.Prelude.HashMap.{HashMap}
use haruki_event_tracker.Prelude.Text.{codes, to_string, decimal}
use haruki_event_tracker.Model.Sekai.{PlayerRankingSchema, UserWorldBloomChapterRanking}
use haruki_event_tracker.Model.Tracker.{}
use haruki_event_tracker.Tracker.Diff.{
  diff_rank_based, merge_rankings, process_world_bloom_chapter, extract_world_bloom_rankings,
}
use haruki_event_tracker.Tracker.Diff.Changes.{
  rows_at, is_new, IsCanonical, DistinctRanks, diff_rank_based_selects,
}
use haruki_event_tracker.Tracker.Diff.Commit.{diff_rank_based_again}
use haruki_event_tracker.Tracker.Diff.Merge.{
  rows_at_rank, rows_at_rank-merge_rankings, merge_rankings-DistinctRanks,
}
use haruki_event_tracker.Tracker.Diff.Bloom.{
  Tracked, IsDue, process_world_bloom_chapter_iff, extract_world_bloom_rankings-IsDue,
}
use haruki_event_tracker.Tracker.Records.{build_event_records, build_world_bloom_rows}
use haruki_event_tracker.Tracker.Records.Users.{
  DistinctUsers, record_for, first_of, build_event_records_users,
}
use haruki_event_tracker.Tracker.Records.Rows.{keeps, build_world_bloom_rows_skip}
use haruki_event_tracker.Tests.Data.{
  row, two_rows, ranks, statuses, chapter_rows, two_rows-InRange, two_rows-DistinctRanks,
  chapter_rows-InRange,
}

ranks-IsCanonical : IsCanonical ranks
unfolding HashMap.get to_string decimal
ranks-IsCanonical k st h = (pos 7, ground arith, ground arith)

diff_rank_based_selects_example :
    rows_at two_rows (diff_rank_based two_rows ranks).0 ≡ some (filter (is_new ranks) two_rows)
diff_rank_based_selects_example =
    diff_rank_based_selects two_rows ranks ranks-IsCanonical two_rows-InRange

diff_rank_based_again_example :
    diff_rank_based two_rows (HashMap.extend ranks (diff_rank_based two_rows ranks).1) ≡ ([], [])
diff_rank_based_again_example =
    diff_rank_based_again two_rows ranks two_rows-DistinctRanks two_rows-InRange

-- Rank 2 stands in both lists, rank 100 in the border only.
abbrev border : List (PlayerRankingSchema ℕ)
border = row (pos 2) (pos 300) (pos 9) ∷ row (pos 100) (pos 10) (pos 10) ∷ []

rows_at_rank-merge_rankings_example : rows_at_rank (pos 100) (merge_rankings two_rows border) ≡ (
    if is_empty (rows_at_rank (pos 100) two_rows)
    then rows_at_rank (pos 100) border
    else rows_at_rank (pos 100) two_rows)
rows_at_rank-merge_rankings_example = rows_at_rank-merge_rankings (pos 100) two_rows border

border-DistinctRanks : DistinctRanks border
border-DistinctRanks = ((λ k e. λ e'. ground arith, tt), (tt, tt))

merge_rankings-DistinctRanks_example : DistinctRanks (merge_rankings two_rows border)
merge_rankings-DistinctRanks_example =
    merge_rankings-DistinctRanks two_rows border two_rows-DistinctRanks border-DistinctRanks

abbrev chapter : UserWorldBloomChapterRanking ℕ
chapter = record {
  base = record {
    event_id = some (pos 5);
    game_character_id = some (pos 21);
    is_world_bloom_chapter_aggregate = none;
  };
  rankings = two_rows;
}

process_world_bloom_chapter_iff_example :
    (process_world_bloom_chapter chapter statuses [] ≡ some (pos 21, two_rows))
    ↔ (Tracked chapter statuses [] (pos 21) × (two_rows ≡ chapter.rankings))
process_world_bloom_chapter_iff_example =
    process_world_bloom_chapter_iff chapter statuses [] (pos 21) two_rows

extracted :
    HashMap.get (pos 21) (extract_world_bloom_rankings (chapter ∷ []) [] statuses [])
    ≡ some two_rows
unfolding extract_world_bloom_rankings HashMap.get HashMap.insert
extracted = refl

extract_world_bloom_rankings-IsDue_example : IsDue statuses [] (pos 21)
extract_world_bloom_rankings-IsDue_example =
    extract_world_bloom_rankings-IsDue (chapter ∷ []) [] statuses [] (pos 21) two_rows extracted

build_event_records_users_example :
    DistinctUsers (build_event_records (pos 9) (two_rows ++ two_rows))
    × (record_for (codes "7") (build_event_records (pos 9) (two_rows ++ two_rows))
        ≡ first_of (pos 9) (codes "7") (two_rows ++ two_rows))
build_event_records_users_example =
    build_event_records_users (pos 9) (two_rows ++ two_rows) (codes "7")

abbrev is_user_seven : ℤ → ℤ → ℤ → ℤ → Bool
is_user_seven character_id uid score rank = beq_ℤ uid (pos 7)

build_world_bloom_rows_skip_example :
    build_world_bloom_rows (pos 9) chapter_rows is_user_seven
    ≡ filter (keeps is_user_seven) (build_world_bloom_rows (pos 9) chapter_rows (λ _ _ _ _. false))
build_world_bloom_rows_skip_example =
    build_world_bloom_rows_skip (pos 9) chapter_rows is_user_seven chapter_rows-InRange
