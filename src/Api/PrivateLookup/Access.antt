-- ===== src/Api/PrivateLookup/Access.antt =====
-- src/api/private_lookup.rs: who passes the check of `verify_bound_user`.
use haruki_event_tracker.Prelude.{
  ℕ, zero, suc, ◌≡◌, refl, list_beq_iff, ◌↔◌, Bool, true, false, List, [], ◌∷◌, Option, none, some,
  any, is_empty, get_elem?, arith, sym, ap, ◌∙◌, inl, inr, Bool-cases, Option-cases, if◌then◌else◌,
  list_eq, nat_eq,
}
use haruki_event_tracker.Prelude.Text.{Text}
use haruki_event_tracker.Prelude.Result.{Result, ok, err, ◌>>=◌}
use haruki_event_tracker.Model.Enums.{SekaiServerRegion, as_str, to_ascii_lowercase}
use haruki_event_tracker.Api.PrivateLookup.{
  Toolbox, ToolboxUserSettings, ToolboxGameAccountBinding, PrivateLookupError, forbidden,
  unauthorized, verify_bound_user, verify_settings, is_other, is_binding_of, is_user_id,
  fetch_settings, normalize_toolbox_user_id,
}

any_to :
    {A : Type 0} (p : A → Bool) (xs : List A)
    → any p xs ≡ true
    → (i : ℕ) × (a : A) × (get_elem? xs i ≡ some a) × (p a ≡ true)
any_to p [] h = cc
any_to p (x ∷ xs) h = elim (Bool-cases (p x)) [
  | inl e ↦ (0, x, refl, e)
  | inr e ↦
      let r = any_to p xs (sym (ap (λ b. if b then true else any p xs) e) ∙ h) in
      (suc r.0, r.1, r.2, r.3)
]

any_of :
    {A : Type 0} (p : A → Bool) (xs : List A) (i : ℕ) (a : A)
    → get_elem? xs i ≡ some a
    → p a ≡ true
    → any p xs ≡ true
any_of p [] i a g h = cc
any_of p (x ∷ xs) zero a g h = ground arith
any_of p (x ∷ xs) (suc i) a g h = let rest = any_of p xs i a g h in ground (arith, rest)

-- A guard lets a result through when its test is false.
guard_iff :
    {E A : Type 0} (b : Bool) (e : E) (r : Result E A) (a : A)
    → ((if b then err e else r) ≡ ok a) ↔ ((b ≡ false) × (r ≡ ok a))
guard_iff b e r a = ground arith

grant_iff :
    {E A : Type 0} (b : Bool) (e : E) (a : A) → ((if b then ok a else err e) ≡ ok a) ↔ (b ≡ true)
grant_iff b e a = ground arith

bind_iff :
    {E A B : Type 0} (r : Result E A) (f : A → Result E B) (c : B)
    → (r >>= f ≡ ok c) ↔ ((a : A) × (r ≡ ok a) × (f a ≡ ok c))
bind_iff (ok a) f c = (λ h. (a, refl, h), λ q. let p = q.1 in let r = q.2 in cc)
bind_iff (err e) f c = (λ h. cc, λ q. let p = q.1 in cc)

module _ {V : Type 0} (tb : Toolbox V) where
  -- The value is missing, blank, or the subject.
  abbrev pub IsNoOther : Text → Option Text → Type 0
  IsNoOther subject value =
      (s : Text) → value ≡ some s → is_empty (tb.trim s) ≡ false → tb.trim s ≡ subject

  -- The binding names the server, whatever the case of its letters, and the user.
  abbrev pub IsBindingOf : SekaiServerRegion → Text → ToolboxGameAccountBinding V → Type 0
  IsBindingOf server requested b =
      (to_ascii_lowercase (tb.trim b.server) ≡ to_ascii_lowercase (as_str server))
      × (normalize_toolbox_user_id tb b.user_id ≡ some requested)

  -- The settings belong to no other identity, and bind the user.
  abbrev pub IsBound : Text → SekaiServerRegion → Text → ToolboxUserSettings V → Type 0
  IsBound subject server requested settings =
      IsNoOther subject settings.kratos_identity_id
      × ((i : ℕ) × (b : ToolboxGameAccountBinding V) × (get_elem? settings.game_account_bindings i
            ≡ some b)
          × IsBindingOf server requested b)

  pub is_other-false : (s : Text) (o : Option Text) → is_other tb s o ≡ false → IsNoOther s o
  unfolding is_other
  is_other-false s none h t e n = cc
  is_other-false s (some o) h t e n = ground (arith, list_beq_iff (tb.trim o) s)

  pub false-is_other : (s : Text) (o : Option Text) → IsNoOther s o → is_other tb s o ≡ false
  unfolding is_other
  false-is_other s none h = refl
  false-is_other s (some t) h = ground (arith, h t refl, list_beq_iff (tb.trim t) s)

  is_binding_of_iff :
      (server : SekaiServerRegion) (requested : Text) (b : ToolboxGameAccountBinding V)
      → (is_binding_of tb server requested b ≡ true) ↔ IsBindingOf server requested b
  unfolding is_binding_of is_user_id
  is_binding_of_iff server requested b =
      elim (Option-cases (normalize_toolbox_user_id tb b.user_id)) [
        | inl e ↦ ground (arith, e)
        | inr (u, e) ↦ ground (
          arith,
          e,
          list_beq_iff u requested,
          list_beq_iff (to_ascii_lowercase (tb.trim b.server)) (to_ascii_lowercase (as_str server)),
        )
      ]

  -- Some binding of the settings passes the test.
  binding_iff :
      (server : SekaiServerRegion) (requested : Text) (bs : List (ToolboxGameAccountBinding V))
      → (any (is_binding_of tb server requested) bs ≡ true) ↔ (
          (i : ℕ) × (b : ToolboxGameAccountBinding V) × (get_elem? bs i ≡ some b)
          × IsBindingOf server requested b)
  binding_iff server requested bs = (
    λ h.
        let r = any_to (is_binding_of tb server requested) bs h in
        (r.0, r.1, r.2, (is_binding_of_iff server requested r.1).0 r.3),
    λ r.
        any_of (is_binding_of tb server requested) bs r.0 r.1 r.2
          ((is_binding_of_iff server requested r.1).1 r.3),
  )

  verify_settings_iff :
      (subject : Text) (server : SekaiServerRegion) (user_id : Text)
      (settings : ToolboxUserSettings V)
      → (verify_settings tb subject server user_id settings ≡ ok tt)
        ↔ IsBound subject server (tb.trim user_id) settings
  unfolding verify_settings
  verify_settings_iff subject server user_id settings =
      let other = is_other tb subject settings.kratos_identity_id in
      let bound = any (is_binding_of tb server (tb.trim user_id)) settings.game_account_bindings in
      let granted = grant_iff {E = PrivateLookupError} bound forbidden tt in
      let guarded = guard_iff other forbidden (if bound then ok tt else err forbidden) tt in
      let some_binding = binding_iff server (tb.trim user_id) settings.game_account_bindings in
      (
        λ h.
            let g = guarded.0 h in
            (
              is_other-false subject settings.kratos_identity_id g.0,
              some_binding.0 (granted.0 g.1),
            ),
        λ h. guarded.1 (
          false-is_other subject settings.kratos_identity_id h.0,
          granted.1 (some_binding.1 h.1),
        ),
      )

  -- The caller names a subject, owns what is asked for, and the settings that the service gives for
  -- the subject bind the user.
  abbrev pub IsAllowed : Text → Option Text → SekaiServerRegion → Text → Type 0
  IsAllowed subject owner server user_id =
      (is_empty (tb.trim subject) ≡ false)
      × IsNoOther (tb.trim subject) owner
      × ((settings : ToolboxUserSettings V) × (fetch_settings tb (tb.trim subject) ≡ ok settings)
          × IsBound (tb.trim subject) server (tb.trim user_id) settings)

  -- The check passes exactly when the subject is not blank, the owner is missing, blank or the
  -- subject, and the service answers with settings that belong to no other identity and have a
  -- binding of the server and the user.
  pub verify_bound_user_iff :
      (subject : Text) (owner : Option Text) (server : SekaiServerRegion) (user_id : Text)
      → (verify_bound_user tb subject owner server user_id ≡ ok tt)
        ↔ IsAllowed subject owner server user_id
  unfolding verify_bound_user
  verify_bound_user_iff subject owner server user_id =
      let s = tb.trim subject in
      let answer = fetch_settings tb s >>= verify_settings tb s server user_id in
      let owned = guard_iff (is_other tb s owner) forbidden answer tt in
      let named =
        guard_iff (is_empty s) unauthorized (if is_other tb s owner then err forbidden else answer)
          tt in
      let fetched = bind_iff (fetch_settings tb s) (verify_settings tb s server user_id) tt in
      (
        λ h.
            let n = named.0 h in
            let o = owned.0 n.1 in
            let f = fetched.0 o.1 in
            (
              n.0,
              is_other-false s owner o.0,
              (f.0, f.1, (verify_settings_iff s server user_id f.0).0 f.2),
            ),
        λ h. named.1 (
          h.0,
          owned.1 (
            false-is_other s owner h.1,
            fetched.1 (h.2.0, h.2.1, (verify_settings_iff s server user_id h.2.0).1 h.2.2),
          ),
        ),
      )
