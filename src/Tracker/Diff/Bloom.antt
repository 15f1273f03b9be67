-- ===== src/Tracker/Diff/Bloom.antt =====
-- Which World Bloom chapters are tracked in a tick.
use haruki_event_tracker.Prelude.{
  ℤ, Bool, true, false, List, [], ◌∷◌, Option, none, some, ◌≡◌, ◌≢◌, ◌↔◌, ◌⊎◌, refl, ◌∙◌, arith,
  beq_ℤ, beq_ℤ_iff, inl, inr, Bool-cases, Option-cases, int_eq, sym, subst,
}
use haruki_event_tracker.Prelude.HashMap
use haruki_event_tracker.Prelude.HashMap.{HashMap, get-insert, get-insert_self}
use haruki_event_tracker.Model.Enums.{SekaiEventStatus, not_started, ongoing, aggregating, ended}
use haruki_event_tracker.Model.Event.{WorldBloomChapterStatus}
use haruki_event_tracker.Model.Sekai.{
  PlayerRankingSchema, UserWorldBloomChapterRanking, UserWorldBloomChapterRankingBorder,
}
use haruki_event_tracker.Tracker.Diff.{
  should_track, process_world_bloom_chapter, borders_by_char, extract_chapter, extract_loop,
  extract_world_bloom_rankings, merge_world_bloom_rankings_for_character,
}

-- A character whose chapter is open, or is over and has not had its final rows written.
abbrev pub IsDue : HashMap ℤ WorldBloomChapterStatus → HashMap ℤ Bool → ℤ → Type 0
IsDue statuses is_chapter_ended c =
    (st : WorldBloomChapterStatus) × (HashMap.get c statuses ≡ some st)
    × ((st.chapter_status ≡ ongoing)
        ⊎ ((st.chapter_status ≡ ended) × (HashMap.get c is_chapter_ended ≢ some true)))

should_track-due :
    (s : SekaiEventStatus) (flag : Option Bool)
    → should_track s (elim flag [ none ↦ false | some b ↦ b ]) ≡ true
    → (s ≡ ongoing) ⊎ ((s ≡ ended) × (flag ≢ some true))
should_track-due ongoing flag h = inl refl
should_track-due ended none h = inr (refl, λ e. cc)
should_track-due ended (some true) h = cc
should_track-due ended (some false) h = inr (refl, λ e. cc)
should_track-due not_started flag h = cc
should_track-due aggregating flag h = cc

due-should_track :
    (s : SekaiEventStatus) (flag : Option Bool)
    → (s ≡ ongoing) ⊎ ((s ≡ ended) × (flag ≢ some true))
    → should_track s (elim flag [ none ↦ false | some b ↦ b ]) ≡ true
due-should_track s none h = ground arith
due-should_track s (some b) h = ground arith

module _ {Json : Type 0} where
  abbrev pub Tracked :
      UserWorldBloomChapterRanking Json
      → HashMap ℤ WorldBloomChapterStatus
      → HashMap ℤ Bool
      → ℤ
      → Type 0
  Tracked chapter statuses is_chapter_ended c =
      (chapter.base.game_character_id ≡ some c)
      × IsDue statuses is_chapter_ended c
      × (chapter.base.is_world_bloom_chapter_aggregate ≢ some true)
      × (chapter.rankings ≢ [])

  process-Tracked :
      (chapter : UserWorldBloomChapterRanking Json) (statuses : HashMap ℤ WorldBloomChapterStatus)
      (is_chapter_ended : HashMap ℤ Bool) (c : ℤ) (rows : List (PlayerRankingSchema Json))
      → process_world_bloom_chapter chapter statuses is_chapter_ended ≡ some (c, rows)
      → Tracked chapter statuses is_chapter_ended c × (rows ≡ chapter.rankings)
  unfolding process_world_bloom_chapter
  process-Tracked chapter statuses is_chapter_ended c rows h =
      elim (Option-cases chapter.base.game_character_id) [
        | inl e ↦ absurd (ground arith)
        | inr (id, e) ↦ elim (Option-cases (HashMap.get id statuses)) [
          | inl e' ↦ absurd (ground arith)
          | inr (st, e') ↦
              let same : id ≡ c = ground arith in
              let found : HashMap.get c statuses ≡ some st = ground arith in
              let due : should_track st.chapter_status (HashMap.get_or c false is_chapter_ended)
                  ≡ true =
                ground arith in
              (
                (
                  ground arith,
                  (
                    st,
                    found,
                    should_track-due st.chapter_status (HashMap.get c is_chapter_ended) due,
                  ),
                  ground arith,
                  ground arith,
                ),
                ground arith,
              )
        ]
      ]

  Tracked-process :
      (chapter : UserWorldBloomChapterRanking Json) (statuses : HashMap ℤ WorldBloomChapterStatus)
      (is_chapter_ended : HashMap ℤ Bool) (c : ℤ)
      → Tracked chapter statuses is_chapter_ended c
      → process_world_bloom_chapter chapter statuses is_chapter_ended ≡ some (c, chapter.rankings)
  unfolding process_world_bloom_chapter
  Tracked-process chapter statuses is_chapter_ended c (id, (st, found, due), agg, rows) =
      ground (arith, due-should_track st.chapter_status (HashMap.get c is_chapter_ended) due)

  -- A chapter is tracked in a tick exactly when it names a character whose chapter is open, or is
  -- over with its final rows unwritten, upstream is not aggregating it, and it has rows; the
  -- result is then the character and the chapter's rows.
  pub process_world_bloom_chapter_iff :
      (chapter : UserWorldBloomChapterRanking Json) (statuses : HashMap ℤ WorldBloomChapterStatus)
      (is_chapter_ended : HashMap ℤ Bool) (c : ℤ) (rows : List (PlayerRankingSchema Json))
      → (process_world_bloom_chapter chapter statuses is_chapter_ended ≡ some (c, rows))
        ↔ (Tracked chapter statuses is_chapter_ended c × (rows ≡ chapter.rankings))
  process_world_bloom_chapter_iff chapter statuses is_chapter_ended c rows = (
    process-Tracked chapter statuses is_chapter_ended c rows,
    λ h. Tracked-process chapter statuses is_chapter_ended c h.0 ∙ (λ i. some (c, sym h.1 i)),
  )

  -- Every character of the map is due.
  abbrev AllDue :
      HashMap ℤ WorldBloomChapterStatus
      → HashMap ℤ Bool
      → HashMap ℤ (List (PlayerRankingSchema Json))
      → Type 0
  AllDue statuses is_chapter_ended out =
      (c : ℤ) (rows : List (PlayerRankingSchema Json))
      → HashMap.get c out ≡ some rows
      → IsDue statuses is_chapter_ended c

  extract_chapter-AllDue :
      (statuses : HashMap ℤ WorldBloomChapterStatus) (is_chapter_ended : HashMap ℤ Bool)
      (chapter : UserWorldBloomChapterRanking Json)
      (acc : HashMap ℤ (List (PlayerRankingSchema Json))
        × HashMap ℤ (List (PlayerRankingSchema Json)))
      → AllDue statuses is_chapter_ended acc.1
      → AllDue statuses is_chapter_ended (extract_chapter statuses is_chapter_ended chapter acc).1
  unfolding extract_chapter
  extract_chapter-AllDue statuses is_chapter_ended chapter acc h c rows found =
      elim (Option-cases (process_world_bloom_chapter chapter statuses is_chapter_ended)) [
        | inl e ↦ h c rows (rw (e, extract_chapter) at found)
        | inr ((id, own), e) ↦ elim (Bool-cases (beq_ℤ id c)) [
          | inl same ↦
              subst (IsDue statuses is_chapter_ended) ((beq_ℤ_iff id c).0 same)
                (process-Tracked chapter statuses is_chapter_ended id own e).0.1
          | inr other ↦ h c rows (
              ground (
                arith,
                e,
                get-insert id c
                    (merge_world_bloom_rankings_for_character own (HashMap.get_or id [] acc.0))
                    acc.1,
              ))
        ]
      ]

  extract_loop-AllDue :
      (statuses : HashMap ℤ WorldBloomChapterStatus) (is_chapter_ended : HashMap ℤ Bool)
      (chapters : List (UserWorldBloomChapterRanking Json))
      (acc : HashMap ℤ (List (PlayerRankingSchema Json))
        × HashMap ℤ (List (PlayerRankingSchema Json)))
      → AllDue statuses is_chapter_ended acc.1
      → AllDue statuses is_chapter_ended (extract_loop statuses is_chapter_ended chapters acc).1
  unfolding extract_loop
  extract_loop-AllDue statuses is_chapter_ended [] acc h = h
  extract_loop-AllDue statuses is_chapter_ended (c ∷ cs) acc h =
      extract_loop-AllDue statuses is_chapter_ended cs
        (extract_chapter statuses is_chapter_ended c acc)
        (extract_chapter-AllDue statuses is_chapter_ended c acc h)

  AllDue-nil :
      (statuses : HashMap ℤ WorldBloomChapterStatus) (is_chapter_ended : HashMap ℤ Bool)
      → AllDue statuses is_chapter_ended []
  unfolding HashMap.get
  AllDue-nil statuses is_chapter_ended c rows h = cc

  -- Every character that a tick extracts rows for is due: its chapter is open, or is over and its
  -- final rows have not been written.
  pub extract_world_bloom_rankings-IsDue :
      (chapters : List (UserWorldBloomChapterRanking Json))
      (borders : List (UserWorldBloomChapterRankingBorder Json))
      (statuses : HashMap ℤ WorldBloomChapterStatus) (is_chapter_ended : HashMap ℤ Bool) (c : ℤ)
      (rows : List (PlayerRankingSchema Json))
      → HashMap.get c (extract_world_bloom_rankings chapters borders statuses is_chapter_ended)
        ≡ some rows
      → IsDue statuses is_chapter_ended c
  unfolding extract_world_bloom_rankings
  extract_world_bloom_rankings-IsDue [] borders statuses is_chapter_ended c rows h =
      AllDue-nil statuses is_chapter_ended c rows h
  extract_world_bloom_rankings-IsDue (x ∷ xs) borders statuses is_chapter_ended c rows h =
      extract_loop-AllDue statuses is_chapter_ended (x ∷ xs) (borders_by_char borders [], [])
        (AllDue-nil statuses is_chapter_ended) c rows h
