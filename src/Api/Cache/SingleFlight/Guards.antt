-- ===== src/Api/Cache/SingleFlight/Guards.antt =====
-- The guards that are alive, with one of them taken out.
use haruki_event_tracker.Prelude.{
  ℕ, true, [], ◌∷◌, ◌++◌, none, some, ◌≡◌, refl, ap, sym, ◌∙◌, arith, if◌then◌else◌, list_eq,
  nat_eq, list_beq, list_beq_iff, Bool-cases, inl, inr,
}
use haruki_event_tracker.Prelude.HashMap
use haruki_event_tracker.Prelude.HashMap.{
  HashMap, Distinct, is_some, get-insert, get-remove, insert-Distinct, remove-Distinct,
}
use haruki_event_tracker.Prelude.Text.{Text}
use haruki_event_tracker.Api.Cache.Store.{}
use haruki_event_tracker.Api.Cache.SingleFlight.{}

pub get-middle :
    (before after : HashMap Text ℕ) (key : Text) (entry : ℕ)
    → is_some (HashMap.get key (before ++ ((key, entry) ∷ after))) ≡ true
unfolding HashMap.get
get-middle [] after key entry = ground (arith, list_beq_iff ⦃e = nat_eq⦄ key key)
get-middle ((k, v) ∷ before) after key entry = ground (arith, get-middle before after key entry)

-- The guards without one of them.
pub get-without :
    (before after : HashMap Text ℕ) (key : Text) (entry : ℕ) (j : Text)
    → Distinct (before ++ ((key, entry) ∷ after))
    → HashMap.get j (before ++ after) ≡ (
        if list_beq ⦃e = nat_eq⦄ key j
        then none
        else HashMap.get j (before ++ ((key, entry) ∷ after)))
unfolding HashMap.get
get-without [] after key entry j d = elim (Bool-cases (list_beq ⦃e = nat_eq⦄ key j)) [
  | inl same ↦
      rw same (ap (λ k. HashMap.get k after) (sym ((list_beq_iff ⦃e = nat_eq⦄ key j).0 same)) ∙ d.0)
  | inr other ↦ rw other refl
]
get-without ((k, v) ∷ before) after key entry j d = elim (Bool-cases (list_beq ⦃e = nat_eq⦄ k j)) [
  | inl first ↦ elim (Bool-cases (list_beq ⦃e = nat_eq⦄ key j)) [
    | inl same ↦ absurd (
        ground (
          arith,
          get-middle before after key entry,
          d.0,
          ap (λ x. HashMap.get x (before ++ ((key, entry) ∷ after)))
              ((list_beq_iff ⦃e = nat_eq⦄ k j).0 first
                ∙ sym ((list_beq_iff ⦃e = nat_eq⦄ key j).0 same)),
        ))
    | inr other ↦ ground arith
  ]
  | inr there ↦ ground (arith, get-without before after key entry j d.1)
]

pub get-middle_self :
    (before after : HashMap Text ℕ) (key : Text) (entry : ℕ)
    → Distinct (before ++ ((key, entry) ∷ after))
    → HashMap.get key (before ++ ((key, entry) ∷ after)) ≡ some entry
unfolding HashMap.get
get-middle_self [] after key entry d = ground (arith, list_beq_iff ⦃e = nat_eq⦄ key key)
get-middle_self ((k, v) ∷ before) after key entry d =
    elim (Bool-cases (list_beq ⦃e = nat_eq⦄ k key)) [
      | inl first ↦ absurd (
          ground (
            arith,
            get-middle before after key entry,
            d.0,
            ap (λ x. HashMap.get x (before ++ ((key, entry) ∷ after)))
                ((list_beq_iff ⦃e = nat_eq⦄ k key).0 first),
          ))
      | inr there ↦ ground (arith, get-middle_self before after key entry d.1)
    ]

pub without-Distinct :
    (before after : HashMap Text ℕ) (key : Text) (entry : ℕ)
    → Distinct (before ++ ((key, entry) ∷ after))
    → Distinct (before ++ after)
without-Distinct [] after key entry d = d.1
without-Distinct ((k, v) ∷ before) after key entry d = (
  ground (arith, get-without before after key entry k d.1, d.0),
  without-Distinct before after key entry d.1,
)
