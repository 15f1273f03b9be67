-- ===== src/Tracker/Records/Rows.antt =====
-- `build_world_bloom_rows` and its skip test.
use haruki_event_tracker.Prelude.{
  ℤ, Bool, true, false, not, List, [], ◌∷◌, none, some, ◌≡◌, refl, arith, All, filter, filter_map,
  filter-append, if◌then◌else◌, inl, inr, Option-cases,
}
use haruki_event_tracker.Prelude.HashMap.{HashMap}
use haruki_event_tracker.Prelude.Text.{parse_i64}
use haruki_event_tracker.Prelude.Text.Roundtrip.{parse_i64-to_string}
use haruki_event_tracker.Model.Sekai.{PlayerRankingSchema}
use haruki_event_tracker.Model.Tracker.{PlayerWorldBloomRankingRecordSchema}
use haruki_event_tracker.Tracker.Diff.{and_then}
use haruki_event_tracker.Tracker.Diff.Changes.{InRange}
use haruki_event_tracker.Tracker.Records.{bloom_row, build_world_bloom_rows}

module _ {Json : Type 0} where
  -- The skip test asked of a finished row, whose user is read back from its text.
  abbrev pub keeps : (ℤ → ℤ → ℤ → ℤ → Bool) → PlayerWorldBloomRankingRecordSchema Json → Bool
  keeps skip row = elim (parse_i64 row.base.user_id) [
    | none ↦ true
    | some uid ↦ not (skip row.character_id uid row.base.score row.base.rank)
  ]

  bloom_row-keeps :
      (t : ℤ) (skip : ℤ → ℤ → ℤ → ℤ → Bool) (c : ℤ) (r : PlayerRankingSchema Json)
      → InRange r
      → bloom_row t skip c r
        ≡ and_then
            (bloom_row t (λ _ _ _ _. false) c r)
            (λ row. if keeps skip row then some row else none)
  unfolding bloom_row
  bloom_row-keeps t skip c r h = elim (Option-cases r.user_id) [
    | inl e ↦ ground arith
    | inr (uid, e) ↦ ground (arith, parse_i64-to_string uid (h uid e))
  ]

  filter_map-keeps :
      (t : ℤ) (skip : ℤ → ℤ → ℤ → ℤ → Bool) (c : ℤ) (rs : List (PlayerRankingSchema Json))
      → All InRange rs
      → filter_map (bloom_row t skip c) rs
        ≡ filter (keeps skip) (filter_map (bloom_row t (λ _ _ _ _. false) c) rs)
  filter_map-keeps t skip c [] h = refl
  filter_map-keeps t skip c (r ∷ rs) h =
      ground (arith, bloom_row-keeps t skip c r h.0, filter_map-keeps t skip c rs h.1)

  -- Asking `skip_unchanged` before a row is built gives exactly the rows that are left when all
  -- are built and the skipped ones, recognised by character, user, score and rank, are dropped.
  pub build_world_bloom_rows_skip :
      (record_time : ℤ) (per_char : HashMap ℤ (List (PlayerRankingSchema Json)))
      (skip : ℤ → ℤ → ℤ → ℤ → Bool)
      → All (λ e. All InRange e.1) per_char
      → build_world_bloom_rows record_time per_char skip
        ≡ filter (keeps skip) (build_world_bloom_rows record_time per_char (λ _ _ _ _. false))
  unfolding build_world_bloom_rows
  build_world_bloom_rows_skip t [] skip h = refl
  build_world_bloom_rows_skip t ((c, rs) ∷ per_char) skip h = cc (
    filter_map-keeps t skip c rs h.0,
    build_world_bloom_rows_skip t per_char skip h.1,
    filter-append (keeps skip) (filter_map (bloom_row t (λ _ _ _ _. false) c) rs)
        (build_world_bloom_rows t per_char (λ _ _ _ _. false)),
  )
