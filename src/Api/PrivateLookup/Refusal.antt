-- ===== src/Api/PrivateLookup/Refusal.antt =====
-- src/api/private_lookup.rs: when the check of `verify_bound_user` asks for a login.
use haruki_event_tracker.Prelude.{
  ◌≡◌, ◌↔◌, ◌⊎◌, inl, inr, refl, true, Option, some, arith, is_empty, Bool-cases, Option-cases,
  subst, ap, ◌∙◌, sym, list_eq, nat_eq, nat_beq_iff,
}
use haruki_event_tracker.Prelude.Text.{Text}
use haruki_event_tracker.Prelude.Result.{Result-cases, err, ◌>>=◌}
use haruki_event_tracker.Model.Enums.{SekaiServerRegion}
use haruki_event_tracker.Api.PrivateLookup.{
  Toolbox, ToolboxUserSettings, Reply, unauthorized, verify_bound_user, verify_settings, is_other,
  fetch_settings, settings_of,
}
use haruki_event_tracker.Api.PrivateLookup.Access.{IsNoOther, is_other-false, false-is_other}

module _ {V : Type 0} (tb : Toolbox V) where
  -- The settings never ask for a login.
  verify_settings-refuses :
      (subject : Text) (server : SekaiServerRegion) (user_id : Text)
      (settings : ToolboxUserSettings V)
      → verify_settings tb subject server user_id settings ≡ err unauthorized
      → ⊥
  unfolding verify_settings
  verify_settings-refuses subject server user_id settings h = ground arith

  settings_of_iff :
      (reply : Reply) → (settings_of tb reply ≡ err unauthorized) ↔ (reply.status ≡ 401)
  unfolding settings_of
  settings_of_iff reply = ground (arith, nat_beq_iff reply.status 401)

  -- The service answers that there is no login.
  abbrev pub IsLoggedOut : Text → Type 0
  IsLoggedOut subject = (reply : Reply) × (tb.send subject ≡ some reply) × (reply.status ≡ 401)

  fetch_settings_iff :
      (subject : Text) → (fetch_settings tb subject ≡ err unauthorized) ↔ IsLoggedOut subject
  unfolding fetch_settings
  fetch_settings_iff subject = elim (Option-cases (tb.send subject)) [
    | inl n ↦ (λ h. absurd (ground (arith, n)), λ q. absurd (let p = q.1 in cc))
    | inr (reply, e) ↦ (
      λ h. (reply, e, (settings_of_iff reply).0 (ground (arith, e))),
      λ q.
          let p = q.1 in
          let same : q.0 ≡ reply = ground (arith, e, p) in
          let status : reply.status ≡ 401 = subst (λ r. r.status ≡ 401) same q.2 in
          let settled = (settings_of_iff reply).1 status in ground (arith, e, settled),
    )
  ]

  answer_iff :
      (subject : Text) (server : SekaiServerRegion) (user_id : Text)
      → (fetch_settings tb subject >>= verify_settings tb subject server user_id ≡ err unauthorized)
        ↔ IsLoggedOut subject
  answer_iff subject server user_id = elim (Result-cases (fetch_settings tb subject)) [
    | inl (settings, e) ↦ rw e (
      λ h. absurd (verify_settings-refuses subject server user_id settings h),
      λ out. absurd (let f = (fetch_settings_iff subject).1 out in cc),
    )
    | inr (failure, e) ↦ rw e (
      λ h.
          let same : failure ≡ unauthorized = ground (arith, h) in
          (fetch_settings_iff subject).0 (e ∙ ap err same),
      λ out.
          let f = sym e ∙ (fetch_settings_iff subject).1 out in
          let same : failure ≡ unauthorized = ground (arith, f) in ap err same,
    )
  ]

  -- The check asks for a login exactly when the subject is blank, or the owner is missing, blank or
  -- the subject and the service answers with the status 401; no other failure is reported so.
  pub verify_bound_user_unauthorized_iff :
      (subject : Text) (owner : Option Text) (server : SekaiServerRegion) (user_id : Text)
      → (verify_bound_user tb subject owner server user_id ≡ err unauthorized) ↔ (
          (is_empty (tb.trim subject) ≡ true)
          ⊎ (IsNoOther tb (tb.trim subject) owner × IsLoggedOut (tb.trim subject)))
  unfolding verify_bound_user
  verify_bound_user_unauthorized_iff subject owner server user_id =
      elim (Bool-cases (is_empty (tb.trim subject))) [
        | inl blank ↦ (λ h. inl blank, λ q. rw blank refl)
        | inr named ↦ elim (Bool-cases (is_other tb (tb.trim subject) owner)) [
          | inl other ↦
              rw (named, other)
                (
                  λ h. absurd (ground (arith, h)),
                  λ q. elim q [
                    | inl blank ↦ absurd (ground (arith, blank, named))
                    | inr (theirs, out) ↦ absurd (
                        let own = false-is_other tb (tb.trim subject) owner theirs in
                        ground (arith, own, other))
                  ],
                )
          | inr own ↦
              let answer = answer_iff (tb.trim subject) server user_id in
              rw (named, own)
                (
                  λ h. inr (is_other-false tb (tb.trim subject) owner own, answer.0 h),
                  λ q. elim q [
                    | inl blank ↦ absurd (ground (arith, blank, named))
                    | inr (theirs, out) ↦ answer.1 out
                  ],
                )
        ]
      ]
