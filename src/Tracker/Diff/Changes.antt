-- ===== src/Tracker/Diff/Changes.antt =====
-- What `diff_rank_based` selects, and what committing its map to the rank state does.
use haruki_event_tracker.Prelude.{
  list_beq, list_beq_iff, nat_eq, subst, ℕ, suc, ℤ, IsI64, Bool, true, false, not, List, [], ◌∷◌,
  ◌++◌, Option, none, some, ◌≡◌, ◌≢◌, refl, ap, ◌∙◌, arith, beq_ℤ, beq_ℤ_iff, filter, All,
  get_elem?, if◌then◌else◌, int_eq, inl, inr, Bool-cases, Option-cases, length, length-append, sym,
}
use mathlib.Core.List.{append_assoc, append-nil}
use haruki_event_tracker.Prelude.HashMap
use haruki_event_tracker.Prelude.HashMap.{
  HashMap, Distinct, get-insert, insert-Distinct, get-extend,
}
use haruki_event_tracker.Prelude.Text.{to_string, parse_i64}
use haruki_event_tracker.Prelude.Text.Roundtrip.{parse_i64-to_string}
use haruki_event_tracker.Model.Sekai.{PlayerRankingSchema}
use haruki_event_tracker.Model.Tracker.{RankState}
use haruki_event_tracker.Tracker.Diff.{
  parses_to, unchanged, row_key, diff_row, diff_loop, diff_rank_based,
}

-- `idx.iter().map(|&i| &rankings[i])`, where an index out of bounds panics.
abbrev pub rows_at {ℓ} : {A : Type ℓ} → List A → List ℕ → Option (List A)
rows_at rows [] = some []
rows_at rows (i ∷ idx) = elim (get_elem? rows i) [
  | none ↦ none
  | some r ↦ elim (rows_at rows idx) [ none ↦ none | some rs ↦ some (r ∷ rs) ]
]

get_elem?-append {ℓ} :
    {A : Type ℓ} (pre : List A) (x : A) (xs : List A)
    → get_elem? (pre ++ x ∷ xs) (length pre) ≡ some x
get_elem?-append [] x xs = refl
get_elem?-append (p ∷ pre) x xs = get_elem?-append pre x xs

rows_at-cons {ℓ} :
    {A : Type ℓ} (rows : List A) (i : ℕ) (idx : List ℕ) (r : A) (rs : List A)
    → get_elem? rows i ≡ some r
    → rows_at rows idx ≡ some rs
    → rows_at rows (i ∷ idx) ≡ some (r ∷ rs)
rows_at-cons rows i idx r rs h k = ground arith

module _ {Json : Type 0} where
  -- The entry that a complete row stands for: its rank, and the state of that rank.
  abbrev pub entry_of : PlayerRankingSchema Json → Option (ℤ × RankState)
  entry_of r = elim (row_key r) [
    | none ↦ none
    | some (rank, score, uid) ↦ some (rank, record { user_id = to_string uid; score = score })
  ]

  -- The row is complete, and the stored state of its rank is not the row's.
  abbrev pub is_changed : HashMap ℤ RankState → PlayerRankingSchema Json → Bool
  is_changed prev r = elim (row_key r) [
    | none ↦ false
    | some (rank, score, uid) ↦ not (unchanged prev rank score uid)
  ]

  -- The numbers of the payload are `i64`s, as their parser makes them.
  abbrev pub InRange : PlayerRankingSchema Json → Type 0
  InRange r = (uid : ℤ) → r.user_id ≡ some uid → IsI64 uid

  -- Two rows do not have one rank.
  abbrev pub OtherRank : PlayerRankingSchema Json → PlayerRankingSchema Json → Type 0
  OtherRank r q = (k : ℤ) → r.rank ≡ some k → q.rank ≢ some k

  abbrev pub DistinctRanks : List (PlayerRankingSchema Json) → Type 0
  DistinctRanks [] = Unit
  DistinctRanks (r ∷ rs) = All (OtherRank r) rs × DistinctRanks rs

  -- The indices of the changed rows, counted from `i`.
  abbrev changed_from : ℕ → List (PlayerRankingSchema Json) → HashMap ℤ RankState → List ℕ
  changed_from i [] prev = []
  changed_from i (r ∷ rs) prev =
      if is_changed prev r then i ∷ changed_from (suc i) rs prev else changed_from (suc i) rs prev

  diff_row-fst :
      (prev : HashMap ℤ RankState) (i : ℕ) (r : PlayerRankingSchema Json)
      (acc : List ℕ × HashMap ℤ RankState)
      → (diff_row prev i r acc).0 ≡ (if is_changed prev r then acc.0 ++ i ∷ [] else acc.0)
  unfolding diff_row
  diff_row-fst prev i r acc = ground arith

  diff_loop-fst :
      (i : ℕ) (rs : List (PlayerRankingSchema Json)) (prev : HashMap ℤ RankState)
      (acc : List ℕ × HashMap ℤ RankState)
      → (diff_loop i rs prev acc).0 ≡ acc.0 ++ changed_from i rs prev
  unfolding diff_loop
  diff_loop-fst i [] prev acc = sym (append-nil acc.0)
  diff_loop-fst i (r ∷ rs) prev acc = elim (Bool-cases (is_changed prev r)) [
    | inl c ↦ rw c (
        ground (
          arith,
          diff_loop-fst (suc i) rs prev (diff_row prev i r acc),
          diff_row-fst prev i r acc,
          append_assoc acc.0 (i ∷ []) (changed_from (suc i) rs prev),
        ))
    | inr c ↦ rw c (
        ground
          (arith, diff_loop-fst (suc i) rs prev (diff_row prev i r acc), diff_row-fst prev i r acc))
  ]

  rows_at-changed_from :
      (pre rs : List (PlayerRankingSchema Json)) (prev : HashMap ℤ RankState)
      → rows_at (pre ++ rs) (changed_from (length pre) rs prev) ≡ some (filter (is_changed prev) rs)
  rows_at-changed_from pre [] prev = refl
  rows_at-changed_from pre (r ∷ rs) prev =
      let here = get_elem?-append pre r rs in
      let shift : length (pre ++ r ∷ []) ≡ suc (length pre) =
        omega (arith, length-append pre (r ∷ [])) in
      let next : rows_at (pre ++ r ∷ rs) (changed_from (suc (length pre)) rs prev)
          ≡ some (filter (is_changed prev) rs) =
        subst
          (λ n.
            rows_at (pre ++ r ∷ rs) (changed_from n rs prev) ≡ some (filter (is_changed prev) rs))
          shift
          (subst
            (λ l.
              rows_at l (changed_from (length (pre ++ r ∷ [])) rs prev)
              ≡ some (filter (is_changed prev) rs))
            (append_assoc pre (r ∷ []) rs) (rows_at-changed_from (pre ++ r ∷ []) rs prev)) in
      elim (Bool-cases (is_changed prev r)) [
        | inl c ↦ rw c (
            rows_at-cons (pre ++ r ∷ rs) (length pre) (changed_from (suc (length pre)) rs prev) r
              (filter (is_changed prev) rs) here next)
        | inr c ↦ rw c next
      ]

  rows_at-diff_rank_based :
      (rankings : List (PlayerRankingSchema Json)) (prev : HashMap ℤ RankState)
      → rows_at rankings (diff_rank_based rankings prev).0
        ≡ some (filter (is_changed prev) rankings)
  unfolding diff_rank_based
  rows_at-diff_rank_based rankings prev =
      ap (rows_at rankings) (diff_loop-fst 0 rankings prev ([], []))
      ∙ rows_at-changed_from [] rankings prev

-- Two states of a rank are the same.
abbrev pub state_beq : RankState → RankState → Bool
state_beq a b = if beq_ℤ a.score b.score then list_beq a.user_id b.user_id else false

-- Every stored user id is the decimal form of an `i64`, as this program and its predecessor
-- write it.
abbrev pub IsCanonical : HashMap ℤ RankState → Type 0
IsCanonical prev =
    (k : ℤ) (st : RankState)
    → HashMap.get k prev ≡ some st
    → (u : ℤ) × IsI64 u × (st.user_id ≡ to_string u)

to_string-injective : (u v : ℤ) → IsI64 u → IsI64 v → to_string u ≡ to_string v → u ≡ v
to_string-injective u v hu hv e =
    cc (parse_i64-to_string u hu, parse_i64-to_string v hv, ap parse_i64 e)

parses_to-to_string :
    (u v : ℤ)
    → IsI64 u
    → IsI64 v
    → parses_to (parse_i64 (to_string u)) v ≡ list_beq (to_string u) (to_string v)
parses_to-to_string u v hu hv = ground (
  arith,
  parse_i64-to_string u hu,
  beq_ℤ_iff u v,
  list_beq_iff ⦃e = nat_eq⦄ (to_string u) (to_string v),
  to_string-injective u v hu hv,
)

abbrev holds : HashMap ℤ RankState → ℤ → RankState → Bool
holds prev rank st = elim (HashMap.get rank prev) [ none ↦ false | some p ↦ state_beq p st ]

unchanged-holds :
    (prev : HashMap ℤ RankState) (rank score uid : ℤ)
    → IsCanonical prev
    → IsI64 uid
    → unchanged prev rank score uid
      ≡ holds prev rank (record { user_id = to_string uid; score = score })
unfolding unchanged
unchanged-holds prev rank score uid can h = elim (Option-cases (HashMap.get rank prev)) [
  | inl absent ↦ ground arith
  | inr (p, found) ↦
      let (u, hu, e) = can rank p found in ground (arith, parses_to-to_string u uid hu h)
]

module _ {Json : Type 0} where
  -- The rank map does not hold the row's entry.
  abbrev pub is_new : HashMap ℤ RankState → PlayerRankingSchema Json → Bool
  is_new prev r = elim (entry_of r) [
    | none ↦ false
    | some (rank, st) ↦ elim (HashMap.get rank prev) [ none ↦ true | some p ↦ not (state_beq p st) ]
  ]

  is_changed-is_new :
      (prev : HashMap ℤ RankState) (r : PlayerRankingSchema Json)
      → IsCanonical prev
      → InRange r
      → is_changed prev r ≡ is_new prev r
  is_changed-is_new prev r can range = elim (Option-cases r.user_id) [
    | inl absent ↦ ground arith
    | inr (uid, e) ↦ elim (Option-cases r.rank) [
      | inl absent ↦ ground arith
      | inr (rank, e') ↦ elim (Option-cases r.score) [
        | inl absent ↦ ground arith
        | inr (score, e'') ↦ ground (arith, unchanged-holds prev rank score uid can (range uid e))
      ]
    ]
  ]

  filter-is_changed :
      (prev : HashMap ℤ RankState) (rs : List (PlayerRankingSchema Json))
      → IsCanonical prev
      → All InRange rs
      → filter (is_changed prev) rs ≡ filter (is_new prev) rs
  filter-is_changed prev [] can h = refl
  filter-is_changed prev (r ∷ rs) can h =
      let e = filter-is_changed prev rs can h.1 in
      let d = is_changed-is_new prev r can h.0 in
      elim (Bool-cases (is_changed prev r)) [
        | inl c ↦ rw (c, sym d ∙ c) (ap (◌∷◌ r) e)
        | inr c ↦ rw (c, sym d ∙ c) e
      ]

  -- On a canonical rank map, reading the payload at the indices that `diff_rank_based` returns
  -- never goes out of bounds, and gives exactly the complete rows whose entry (rank, user, score)
  -- the map does not hold, in the order of the payload.
  pub diff_rank_based_selects :
      (rankings : List (PlayerRankingSchema Json)) (prev : HashMap ℤ RankState)
      → IsCanonical prev
      → All InRange rankings
      → rows_at rankings (diff_rank_based rankings prev).0 ≡ some (filter (is_new prev) rankings)
  diff_rank_based_selects rankings prev can h =
      rows_at-diff_rank_based rankings prev ∙ ap some (filter-is_changed prev rankings can h)
