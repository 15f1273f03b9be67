-- ===== src/Tracker/Diff/Commit.antt =====
-- Committing the map of `diff_rank_based` to the rank state.
use mathlib.Core.List.{}
use haruki_event_tracker.Prelude.{
  ℕ, suc, ℤ, IsI64, true, List, [], ◌∷◌, none, some, ◌≡◌, ◌≢◌, refl, ◌∙◌, arith, beq_ℤ_iff, All,
  if◌then◌else◌, int_eq, inl, inr, Bool-cases, Option-cases,
}
use haruki_event_tracker.Prelude.HashMap
use haruki_event_tracker.Prelude.HashMap.{
  HashMap, Distinct, get-insert, insert-Distinct, get-extend,
}
use haruki_event_tracker.Prelude.Text.{to_string}
use haruki_event_tracker.Prelude.Text.Roundtrip.{parse_i64-to_string}
use haruki_event_tracker.Model.Sekai.{PlayerRankingSchema}
use haruki_event_tracker.Model.Tracker.{RankState}
use haruki_event_tracker.Tracker.Diff.{unchanged, row_key, diff_row, diff_loop, diff_rank_based}
use haruki_event_tracker.Tracker.Diff.Changes.{InRange, OtherRank, DistinctRanks}

-- After the whole loop and the commit, a row that was met is recorded.
unchanged-committed :
    (prev ranks : HashMap ℤ RankState) (rank score uid : ℤ)
    → Distinct ranks
    → IsI64 uid
    → HashMap.get rank ranks ≡ (
        if unchanged prev rank score uid
        then none
        else some (record { user_id = to_string uid; score = score }))
    → unchanged (HashMap.extend prev ranks) rank score uid ≡ true
unfolding unchanged
unchanged-committed prev ranks rank score uid d h e = ground (
  arith,
  get-extend rank ranks prev d,
  parse_i64-to_string uid h,
  beq_ℤ_iff uid uid,
  beq_ℤ_iff score score,
)

module _ {Json : Type 0} where
  -- A complete row finds its own user and score at its rank.
  abbrev pub IsRecorded : HashMap ℤ RankState → PlayerRankingSchema Json → Type 0
  IsRecorded m r =
      (rank score uid : ℤ) → row_key r ≡ some (rank, score, uid) → unchanged m rank score uid ≡ true

  -- A rank that no row of the payload has.
  abbrev Avoids : ℤ → PlayerRankingSchema Json → Type 0
  Avoids k r = r.rank ≢ some k

  diff_row-Distinct :
      (prev : HashMap ℤ RankState) (i : ℕ) (r : PlayerRankingSchema Json)
      (acc : List ℕ × HashMap ℤ RankState)
      → Distinct acc.1
      → Distinct (diff_row prev i r acc).1
  unfolding diff_row
  diff_row-Distinct prev i r acc d = elim (Option-cases (row_key r)) [
    | inl e ↦ rw (e, diff_row) d
    | inr (k, e) ↦ elim (Bool-cases (unchanged prev k.0 k.1 k.2)) [
      | inl c ↦ rw (e, c, diff_row) d
      | inr c ↦ rw (e, c, diff_row) (insert-Distinct k.0 _ acc.1 d)
    ]
  ]

  diff_loop-Distinct :
      (i : ℕ) (rs : List (PlayerRankingSchema Json)) (prev : HashMap ℤ RankState)
      (acc : List ℕ × HashMap ℤ RankState)
      → Distinct acc.1
      → Distinct (diff_loop i rs prev acc).1
  unfolding diff_loop
  diff_loop-Distinct i [] prev acc d = d
  diff_loop-Distinct i (r ∷ rs) prev acc d =
      diff_loop-Distinct (suc i) rs prev (diff_row prev i r acc) (diff_row-Distinct prev i r acc d)

  row_key-rank :
      (r : PlayerRankingSchema Json) (rank score uid : ℤ)
      → row_key r ≡ some (rank, score, uid)
      → (r.rank ≡ some rank) × (r.user_id ≡ some uid)
  row_key-rank r rank score uid h = ground arith

  -- A round leaves the entries of other ranks.
  get-diff_row_other :
      (prev : HashMap ℤ RankState) (i : ℕ) (r : PlayerRankingSchema Json)
      (acc : List ℕ × HashMap ℤ RankState) (k : ℤ)
      → Avoids k r
      → HashMap.get k (diff_row prev i r acc).1 ≡ HashMap.get k acc.1
  unfolding diff_row
  get-diff_row_other prev i r acc k h = elim (Option-cases (row_key r)) [
    | inl e ↦ rw (e, diff_row)
    | inr ((rank, score, uid), e) ↦
        let at = (row_key-rank r rank score uid e).0 in
        elim (Bool-cases (unchanged prev rank score uid)) [
          | inl c ↦ rw (e, c, diff_row)
          | inr c ↦
              rw (e, c, diff_row)
                (ground (
                  arith,
                  get-insert rank k (record { user_id = to_string uid; score = score }) acc.1,
                  beq_ℤ_iff rank k,
                  h,
                ))
        ]
  ]

  get-diff_loop_other :
      (i : ℕ) (rs : List (PlayerRankingSchema Json)) (prev : HashMap ℤ RankState)
      (acc : List ℕ × HashMap ℤ RankState) (k : ℤ)
      → All (Avoids k) rs
      → HashMap.get k (diff_loop i rs prev acc).1 ≡ HashMap.get k acc.1
  unfolding diff_loop
  get-diff_loop_other i [] prev acc k h = refl
  get-diff_loop_other i (r ∷ rs) prev acc k h =
      get-diff_loop_other (suc i) rs prev (diff_row prev i r acc) k h.1
      ∙ get-diff_row_other prev i r acc k h.0

  -- A round writes the row's own entry, if the row changed.
  get-diff_row_self :
      (prev : HashMap ℤ RankState) (i : ℕ) (r : PlayerRankingSchema Json)
      (acc : List ℕ × HashMap ℤ RankState) (rank score uid : ℤ)
      → row_key r ≡ some (rank, score, uid)
      → HashMap.get rank acc.1 ≡ none
      → HashMap.get rank (diff_row prev i r acc).1 ≡ (
          if unchanged prev rank score uid
          then none
          else some (record { user_id = to_string uid; score = score }))
  unfolding diff_row
  get-diff_row_self prev i r acc rank score uid e absent =
      elim (Bool-cases (unchanged prev rank score uid)) [
        | inl c ↦ rw (e, c, diff_row) absent
        | inr c ↦ rw (e, c, diff_row) (HashMap.get-insert_self rank _ acc.1)
      ]

  OtherRank-Avoids :
      (r : PlayerRankingSchema Json) (rs : List (PlayerRankingSchema Json)) (k : ℤ)
      → r.rank ≡ some k
      → All (OtherRank r) rs
      → All (Avoids k) rs
  OtherRank-Avoids r [] k e h = tt
  OtherRank-Avoids r (q ∷ rs) k e h = (h.0 k e, OtherRank-Avoids r rs k e h.1)

  -- No row of the payload has an entry in the map yet.
  abbrev Fresh : HashMap ℤ RankState → PlayerRankingSchema Json → Type 0
  Fresh m r = (k : ℤ) → r.rank ≡ some k → HashMap.get k m ≡ none

  Fresh-diff_row :
      (prev : HashMap ℤ RankState) (i : ℕ) (r : PlayerRankingSchema Json)
      (rs : List (PlayerRankingSchema Json)) (acc : List ℕ × HashMap ℤ RankState)
      → All (OtherRank r) rs
      → All (Fresh acc.1) rs
      → All (Fresh (diff_row prev i r acc).1) rs
  Fresh-diff_row prev i r [] acc h f = tt
  Fresh-diff_row prev i r (q ∷ rs) acc h f = (
    λ k e. get-diff_row_other prev i r acc k (λ e'. h.0 k e' e) ∙ f.0 k e,
    Fresh-diff_row prev i r rs acc h.1 f.1,
  )

  diff_loop-IsRecorded :
      (i : ℕ) (rs : List (PlayerRankingSchema Json)) (prev : HashMap ℤ RankState)
      (acc : List ℕ × HashMap ℤ RankState)
      → Distinct acc.1
      → DistinctRanks rs
      → All InRange rs
      → All (Fresh acc.1) rs
      → All (IsRecorded (HashMap.extend prev (diff_loop i rs prev acc).1)) rs
  unfolding diff_loop
  diff_loop-IsRecorded i [] prev acc d u h f = tt
  diff_loop-IsRecorded i (r ∷ rs) prev acc d u h f =
      let next = diff_row prev i r acc in
      let d' = diff_row-Distinct prev i r acc d in
      (
        λ rank score uid e.
            let k = row_key-rank r rank score uid e in
            unchanged-committed prev (diff_loop (suc i) rs prev next).1 rank score uid
              (diff_loop-Distinct (suc i) rs prev next d') (h.0 uid k.1)
              (get-diff_loop_other (suc i) rs prev next rank (OtherRank-Avoids r rs rank k.0 u.0)
                ∙ get-diff_row_self prev i r acc rank score uid e (f.0 rank k.0)),
        diff_loop-IsRecorded (suc i) rs prev next d' u.1 h.1
            (Fresh-diff_row prev i r rs acc u.0 f.1),
      )

  Fresh-nil : (rs : List (PlayerRankingSchema Json)) → All (Fresh []) rs
  unfolding HashMap.get
  Fresh-nil [] = tt
  Fresh-nil (r ∷ rs) = (λ k e. refl, Fresh-nil rs)

  -- Whatever the rank map was, after a payload with distinct ranks is diffed and its changes are
  -- committed, the map holds the user and the score of every complete row at the row's rank.
  pub diff_rank_based_commits :
      (rankings : List (PlayerRankingSchema Json)) (prev : HashMap ℤ RankState)
      → DistinctRanks rankings
      → All InRange rankings
      → All (IsRecorded (HashMap.extend prev (diff_rank_based rankings prev).1)) rankings
  unfolding diff_rank_based
  diff_rank_based_commits rankings prev u h =
      diff_loop-IsRecorded 0 rankings prev ([], []) tt u h (Fresh-nil rankings)

  diff_row_recorded :
      (m : HashMap ℤ RankState) (i : ℕ) (r : PlayerRankingSchema Json)
      (acc : List ℕ × HashMap ℤ RankState)
      → IsRecorded m r
      → diff_row m i r acc ≡ acc
  unfolding diff_row
  diff_row_recorded m i r acc h = elim (Option-cases (row_key r)) [
    | inl e ↦ rw (e, diff_row)
    | inr ((rank, score, uid), e) ↦ rw (e, h rank score uid e, diff_row)
  ]

  diff_loop_recorded :
      (m : HashMap ℤ RankState) (i : ℕ) (rs : List (PlayerRankingSchema Json))
      (acc : List ℕ × HashMap ℤ RankState)
      → All (IsRecorded m) rs
      → diff_loop i rs m acc ≡ acc
  unfolding diff_loop
  diff_loop_recorded m i [] acc h = refl
  diff_loop_recorded m i (r ∷ rs) acc h =
      diff_loop_recorded m (suc i) rs (diff_row m i r acc) h.1 ∙ diff_row_recorded m i r acc h.0

  -- Diffing the same payload again after the commit finds no change.
  pub diff_rank_based_again :
      (rankings : List (PlayerRankingSchema Json)) (prev : HashMap ℤ RankState)
      → DistinctRanks rankings
      → All InRange rankings
      → diff_rank_based rankings (HashMap.extend prev (diff_rank_based rankings prev).1) ≡ ([], [])
  diff_rank_based_again rankings prev u h =
      unfold diff_rank_based in
      diff_loop_recorded _ 0 rankings ([], []) (diff_rank_based_commits rankings prev u h)
