-- ===== src/Tracker/Diff/Merge.antt =====
-- Merging the top-100 rows with the border rows.
use mathlib.Core.List.{append-nil}
use haruki_event_tracker.Prelude.{
  not, is_empty, ℤ, Bool, true, false, List, [], ◌∷◌, ◌++◌, none, some, ◌≡◌, refl, ap, ◌∙◌, arith,
  beq_ℤ, beq_ℤ_iff, filter, All, if◌then◌else◌, inl, inr, Bool-cases, Option-cases,
}
use haruki_event_tracker.Model.Sekai.{PlayerRankingSchema}
use haruki_event_tracker.Tracker.Diff.{has_rank, is_uncovered, merge_rankings}
use haruki_event_tracker.Tracker.Diff.Changes.{OtherRank, DistinctRanks}

module _ {Json : Type 0} where
  abbrev pub stands_at : ℤ → PlayerRankingSchema Json → Bool
  stands_at k r = elim r.rank [ none ↦ false | some rk ↦ beq_ℤ rk k ]

  -- The rows at a rank, in order.
  abbrev pub rows_at_rank : ℤ → List (PlayerRankingSchema Json) → List (PlayerRankingSchema Json)
  rows_at_rank k = filter (stands_at k)

  rows_at_rank-append :
      (k : ℤ) (xs ys : List (PlayerRankingSchema Json))
      → rows_at_rank k (xs ++ ys) ≡ rows_at_rank k xs ++ rows_at_rank k ys
  rows_at_rank-append k [] ys = refl
  rows_at_rank-append k (x ∷ xs) ys = ground (arith, rows_at_rank-append k xs ys)

  rows_at_rank-none :
      (k : ℤ) (xs : List (PlayerRankingSchema Json))
      → has_rank xs k ≡ false
      → rows_at_rank k xs ≡ []
  rows_at_rank-none k [] h = refl
  rows_at_rank-none k (x ∷ xs) h = elim (Option-cases x.rank) [
    | inl e ↦ ground (arith, rows_at_rank-none k xs)
    | inr (rk, e) ↦ elim (Bool-cases (beq_ℤ rk k)) [
      | inl same ↦ ground arith
      | inr other ↦ ground (arith, rows_at_rank-none k xs)
    ]
  ]

  -- The top 100 covers the ranks of its rows.
  has_rank-rows_at_rank :
      (k : ℤ) (xs : List (PlayerRankingSchema Json))
      → has_rank xs k ≡ not (is_empty (rows_at_rank k xs))
  has_rank-rows_at_rank k [] = refl
  has_rank-rows_at_rank k (x ∷ xs) = elim (Option-cases x.rank) [
    | inl e ↦ ground (arith, e, has_rank-rows_at_rank k xs)
    | inr (rk, e) ↦ elim (Bool-cases (beq_ℤ rk k)) [
      | inl same ↦ ground (arith, e, same)
      | inr other ↦ ground (arith, e, other, has_rank-rows_at_rank k xs)
    ]
  ]

  -- The border rows at a rank that the top 100 lacks are kept, and those at another are not.
  rows_at_rank-filter :
      (k : ℤ) (top border : List (PlayerRankingSchema Json))
      → rows_at_rank k (filter (is_uncovered top) border)
        ≡ (if has_rank top k then [] else rows_at_rank k border)
  rows_at_rank-filter k top [] = ground arith
  rows_at_rank-filter k top (b ∷ border) = elim (Option-cases b.rank) [
    | inl e ↦ rw e (rows_at_rank-filter k top border)
    | inr (rk, e) ↦ elim (Bool-cases (beq_ℤ rk k)) [
      | inl same ↦
          let at : has_rank top rk ≡ has_rank top k = ap (has_rank top) ((beq_ℤ_iff rk k).0 same) in
          elim (Bool-cases (has_rank top k)) [
            | inl c ↦ ground (arith, rows_at_rank-filter k top border)
            | inr u ↦ ground (arith, rows_at_rank-filter k top border)
          ]
      | inr other ↦ elim (Bool-cases (has_rank top rk)) [
        | inl c ↦ ground (arith, rows_at_rank-filter k top border)
        | inr u ↦ ground (arith, rows_at_rank-filter k top border)
      ]
    ]
  ]

  -- At every rank the merged list has the rows of the top 100, if there are any, and no border row
  -- beside them; otherwise it has all border rows at that rank.
  pub rows_at_rank-merge_rankings :
      (k : ℤ) (top100 border : List (PlayerRankingSchema Json))
      → rows_at_rank k (merge_rankings top100 border) ≡ (
          if is_empty (rows_at_rank k top100) then rows_at_rank k border else rows_at_rank k top100)
  unfolding merge_rankings
  rows_at_rank-merge_rankings k top100 border =
      rows_at_rank-append k top100 _
      ∙ ap (λ x. rows_at_rank k top100 ++ x) (rows_at_rank-filter k top100 border)
      ∙ elim (Bool-cases (has_rank top100 k)) [
        | inl c ↦
            let some_row : is_empty (rows_at_rank k top100) ≡ false =
              ground (arith, c, has_rank-rows_at_rank k top100) in
            rw (c, some_row) (append-nil (rows_at_rank k top100))
        | inr u ↦ rw (u, rows_at_rank-none k top100 u) refl
      ]

  OtherRank-append :
      (r : PlayerRankingSchema Json) (xs ys : List (PlayerRankingSchema Json))
      → All (OtherRank r) xs
      → All (OtherRank r) ys
      → All (OtherRank r) (xs ++ ys)
  OtherRank-append r [] ys h k = k
  OtherRank-append r (x ∷ xs) ys h k = (h.0, OtherRank-append r xs ys h.1 k)

  All-OtherRank-filter :
      (r : PlayerRankingSchema Json) (p : PlayerRankingSchema Json → Bool)
      (ys : List (PlayerRankingSchema Json))
      → All (OtherRank r) ys
      → All (OtherRank r) (filter p ys)
  All-OtherRank-filter r p [] h = tt
  All-OtherRank-filter r p (y ∷ ys) h = elim (Bool-cases (p y)) [
    | inl e ↦ rw e (h.0, All-OtherRank-filter r p ys h.1)
    | inr e ↦ rw e (All-OtherRank-filter r p ys h.1)
  ]

  filter-DistinctRanks :
      (p : PlayerRankingSchema Json → Bool) (ys : List (PlayerRankingSchema Json))
      → DistinctRanks ys
      → DistinctRanks (filter p ys)
  filter-DistinctRanks p [] h = tt
  filter-DistinctRanks p (y ∷ ys) h = elim (Bool-cases (p y)) [
    | inl e ↦ rw e (All-OtherRank-filter y p ys h.0, filter-DistinctRanks p ys h.1)
    | inr e ↦ rw e (filter-DistinctRanks p ys h.1)
  ]

  -- The top 100 has a row at the row's rank.
  abbrev CoveredBy : List (PlayerRankingSchema Json) → PlayerRankingSchema Json → Type 0
  CoveredBy top r = (k : ℤ) → r.rank ≡ some k → has_rank top k ≡ true

  CoveredBy-cons :
      (x : PlayerRankingSchema Json) (top rs : List (PlayerRankingSchema Json))
      → All (CoveredBy top) rs
      → All (CoveredBy (x ∷ top)) rs
  CoveredBy-cons x top [] h = tt
  CoveredBy-cons x top (r ∷ rs) h = (λ k e. ground (arith, h.0 k e), CoveredBy-cons x top rs h.1)

  CoveredBy-self : (top : List (PlayerRankingSchema Json)) → All (CoveredBy top) top
  CoveredBy-self [] = tt
  CoveredBy-self (x ∷ top) =
      (λ k e. ground (arith, beq_ℤ_iff k k), CoveredBy-cons x top top (CoveredBy-self top))

  uncovered-OtherRank :
      (top border : List (PlayerRankingSchema Json)) (r : PlayerRankingSchema Json)
      → CoveredBy top r
      → All (OtherRank r) (filter (is_uncovered top) border)
  uncovered-OtherRank top [] r h = tt
  uncovered-OtherRank top (b ∷ border) r h = elim (Bool-cases (is_uncovered top b)) [
    | inl e ↦ rw e (λ k at also. ground (arith, h k at), uncovered-OtherRank top border r h)
    | inr e ↦ rw e (uncovered-OtherRank top border r h)
  ]

  append-DistinctRanks :
      (top border xs : List (PlayerRankingSchema Json))
      → All (CoveredBy top) xs
      → DistinctRanks xs
      → DistinctRanks border
      → DistinctRanks (xs ++ filter (is_uncovered top) border)
  append-DistinctRanks top border [] c d h = filter-DistinctRanks (is_uncovered top) border h
  append-DistinctRanks top border (x ∷ xs) c d h = (
    OtherRank-append x xs _ d.0 (uncovered-OtherRank top border x c.0),
    append-DistinctRanks top border xs c.1 d.1 h,
  )

  -- If neither list has two rows at one rank, the merged list has not either.
  pub merge_rankings-DistinctRanks :
      (top100 border : List (PlayerRankingSchema Json))
      → DistinctRanks top100
      → DistinctRanks border
      → DistinctRanks (merge_rankings top100 border)
  unfolding merge_rankings
  merge_rankings-DistinctRanks top100 border d h =
      append-DistinctRanks top100 border top100 (CoveredBy-self top100) d h
