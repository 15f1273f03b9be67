-- ===== src/Tracker/Records/Users.antt =====
-- The users of the records that `build_event_records` makes.
use haruki_event_tracker.Prelude.{
  ℤ, List, [], ◌∷◌, Option, none, some, ◌≡◌, refl, ◌∙◌, arith, All, if◌then◌else◌, list_eq, nat_eq,
  list_beq, list_beq_iff, inl, inr, Bool-cases, Option-cases,
}
use haruki_event_tracker.Prelude.HashMap
use haruki_event_tracker.Prelude.HashMap.{
  HashMap, Distinct, values, is_some, get-insert, insert-Distinct,
}
use haruki_event_tracker.Prelude.Text.{Text}
use haruki_event_tracker.Model.Sekai.{PlayerRankingSchema}
use haruki_event_tracker.Model.Tracker.{PlayerEventRankingRecordSchema}
use haruki_event_tracker.Tracker.Records.{record_of, or_insert, seen_after, build_event_records}

module _ {Json : Type 0} where
  -- The first record of a user in a list of records.
  unfoldable pub record_for :
      Text
      → List (PlayerEventRankingRecordSchema Json)
      → Option (PlayerEventRankingRecordSchema Json)
  record_for u [] = none
  record_for u (rec ∷ recs) = if list_beq rec.user_id u then some rec else record_for u recs

  -- The record of the user's first row that has all four of rank, score, user and name.
  unfoldable pub first_of :
      ℤ → Text → List (PlayerRankingSchema Json) → Option (PlayerEventRankingRecordSchema Json)
  first_of t u [] = none
  first_of t u (r ∷ rs) = elim (record_of t r) [
    | none ↦ first_of t u rs
    | some rec ↦ if list_beq rec.user_id u then some rec else first_of t u rs
  ]

  abbrev pub DistinctUsers : List (PlayerEventRankingRecordSchema Json) → Type 0
  DistinctUsers [] = Unit
  DistinctUsers (rec ∷ recs) = (record_for rec.user_id recs ≡ none) × DistinctUsers recs

  -- Each record stands under its own user.
  abbrev KeyedByUser : HashMap Text (PlayerEventRankingRecordSchema Json) → Type 0
  KeyedByUser m = All (λ e. e.0 ≡ e.1.user_id) m

  record_for-values :
      (u : Text) (m : HashMap Text (PlayerEventRankingRecordSchema Json))
      → KeyedByUser m
      → record_for u (values m) ≡ HashMap.get u m
  unfolding record_for HashMap.get
  record_for-values u [] h = refl
  record_for-values u ((k, rec) ∷ m) h = ground (arith, record_for-values u m h.1, h.0)

  values-DistinctUsers :
      (m : HashMap Text (PlayerEventRankingRecordSchema Json))
      → KeyedByUser m
      → Distinct m
      → DistinctUsers (values m)
  values-DistinctUsers [] h d = tt
  values-DistinctUsers ((k, rec) ∷ m) h d =
      (record_for-values rec.user_id m h.1 ∙ rw (← h.0) d.0, values-DistinctUsers m h.1 d.1)

  insert-KeyedByUser :
      (rec : PlayerEventRankingRecordSchema Json)
      (m : HashMap Text (PlayerEventRankingRecordSchema Json))
      → KeyedByUser m
      → KeyedByUser (HashMap.insert rec.user_id rec m)
  unfolding HashMap.insert
  insert-KeyedByUser rec [] h = (refl, tt)
  insert-KeyedByUser rec ((k, old) ∷ m) h = elim (Bool-cases (list_beq k rec.user_id)) [
    | inl e ↦ rw e ((list_beq_iff ⦃e = nat_eq⦄ k rec.user_id).0 e, h.1)
    | inr e ↦ rw e (h.0, insert-KeyedByUser rec m h.1)
  ]

  or_insert-KeyedByUser :
      (rec : PlayerEventRankingRecordSchema Json)
      (m : HashMap Text (PlayerEventRankingRecordSchema Json))
      → KeyedByUser m
      → KeyedByUser (or_insert rec m)
  or_insert-KeyedByUser rec m h = elim (Bool-cases (is_some (HashMap.get rec.user_id m))) [
    | inl e ↦ rw e h
    | inr e ↦ rw e (insert-KeyedByUser rec m h)
  ]

  or_insert-Distinct :
      (rec : PlayerEventRankingRecordSchema Json)
      (m : HashMap Text (PlayerEventRankingRecordSchema Json))
      → Distinct m
      → Distinct (or_insert rec m)
  or_insert-Distinct rec m d = elim (Bool-cases (is_some (HashMap.get rec.user_id m))) [
    | inl e ↦ rw e d
    | inr e ↦ rw e (insert-Distinct rec.user_id rec m d)
  ]

  abbrev pub or_first :
      Option (PlayerEventRankingRecordSchema Json)
      → Option (PlayerEventRankingRecordSchema Json)
      → Option (PlayerEventRankingRecordSchema Json)
  or_first none o = o
  or_first (some rec) o = some rec

  get-or_insert :
      (u : Text) (rec : PlayerEventRankingRecordSchema Json)
      (m : HashMap Text (PlayerEventRankingRecordSchema Json))
      → HashMap.get u (or_insert rec m)
        ≡ or_first (HashMap.get u m) (if list_beq rec.user_id u then some rec else none)
  get-or_insert u rec m =
      ground (arith, get-insert rec.user_id u rec m, list_beq_iff ⦃e = nat_eq⦄ rec.user_id u)

  get-seen_after :
      (t : ℤ) (u : Text) (rs : List (PlayerRankingSchema Json))
      (m : HashMap Text (PlayerEventRankingRecordSchema Json))
      → HashMap.get u (seen_after t rs m) ≡ or_first (HashMap.get u m) (first_of t u rs)
  unfolding seen_after first_of
  get-seen_after t u [] m = ground arith
  get-seen_after t u (r ∷ rs) m = elim (Option-cases (record_of t r)) [
    | inl e ↦ ground (arith, get-seen_after t u rs m)
    | inr (rec, e) ↦ ground (arith, get-seen_after t u rs (or_insert rec m), get-or_insert u rec m)
  ]

  seen_after-KeyedByUser :
      (t : ℤ) (rs : List (PlayerRankingSchema Json))
      (m : HashMap Text (PlayerEventRankingRecordSchema Json))
      → KeyedByUser m
      → Distinct m
      → KeyedByUser (seen_after t rs m) × Distinct (seen_after t rs m)
  unfolding seen_after
  seen_after-KeyedByUser t [] m h d = (h, d)
  seen_after-KeyedByUser t (r ∷ rs) m h d = elim (Option-cases (record_of t r)) [
    | inl e ↦ rw e (seen_after-KeyedByUser t rs m h d)
    | inr (rec, e) ↦ rw e (
        seen_after-KeyedByUser t rs (or_insert rec m) (or_insert-KeyedByUser rec m h)
          (or_insert-Distinct rec m d))
  ]

  -- No two records have one user, and the record of a user is that of the user's first row that
  -- has a rank, a score, a user and a name; a user with no such row has none.
  pub build_event_records_users :
      (record_time : ℤ) (diffed : List (PlayerRankingSchema Json)) (u : Text)
      → DistinctUsers (build_event_records record_time diffed)
        × (record_for u (build_event_records record_time diffed) ≡ first_of record_time u diffed)
  unfolding build_event_records
  build_event_records_users t diffed u =
      let (keyed, distinct) = seen_after-KeyedByUser t diffed [] tt tt in
      (
        values-DistinctUsers (seen_after t diffed []) keyed distinct,
        record_for-values u (seen_after t diffed []) keyed
            ∙ get-seen_after t u diffed []
            ∙ (unfold HashMap.get in refl),
      )
