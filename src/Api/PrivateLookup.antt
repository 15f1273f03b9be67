-- ===== src/Api/PrivateLookup.antt =====
-- src/api/private_lookup.rs: the check that the caller has bound a game account. `Toolbox` is what
-- the check takes from outside: `str::trim`, the readers of a JSON value, the reader of a response
-- and the HTTP client. The verifier's secret and the building of its client are not modelled.
pub mod Access
pub mod Refusal
use haruki_event_tracker.Prelude.{
  ℕ, ℤ, pos, Bool, true, false, ◌&&◌, List, [], ◌∷◌, Option, none, some, any, is_empty, leb,
  nat_beq, not, if◌then◌else◌, ◌==◌, list_eq, nat_eq,
}
use haruki_event_tracker.Prelude.Text.{Text, to_string}
use haruki_event_tracker.Prelude.Result.{Result, ok, err, ◌>>=◌}
use haruki_event_tracker.Model.Enums.{SekaiServerRegion, as_str, to_ascii_lowercase}

pub data PrivateLookupError : Type 0 where
  not_configured unauthorized forbidden upstream : PrivateLookupError

pub record ToolboxGameAccountBinding (V : Type 0) : Type 0 where
  pub server : Text
  pub user_id : V

pub record ToolboxUserSettings (V : Type 0) : Type 0 where
  pub kratos_identity_id : Option Text
  pub game_account_bindings : List (ToolboxGameAccountBinding V)

pub record ToolboxResponse (V : Type 0) : Type 0 where
  pub updated_data : Option (ToolboxUserSettings V)

-- The bytes are missing when the body cannot be read to its end.
pub record Reply : Type 0 where
  pub status : ℕ
  pub bytes : Option Text

pub record Toolbox (V : Type 0) : Type 0 where
  pub trim : Text → Text
  pub value_as_str : V → Option Text
  pub value_as_i64 : V → Option ℤ
  pub value_as_u64 : V → Option ℕ
  pub from_slice : Text → Option (ToolboxResponse V)
  -- The reply to a request for the settings of an identity.
  pub send : Text → Option Reply

module _ {V : Type 0} (tb : Toolbox V) where
  unfoldable normalize_number : V → Option Text
  normalize_number v = elim (tb.value_as_i64 v) [
    | some n ↦ some (to_string n)
    | none ↦ elim (tb.value_as_u64 v) [ some n ↦ some (to_string (pos n)) | none ↦ none ]
  ]

  unfoldable pub normalize_toolbox_user_id : V → Option Text
  unfolding normalize_number
  normalize_toolbox_user_id v = elim (tb.value_as_str v) [
    | some s ↦ if is_empty (tb.trim s) then normalize_number v else some (tb.trim s)
    | none ↦ normalize_number v
  ]

  -- An owner or an identity that is not blank and is not the subject.
  unfoldable pub is_other : Text → Option Text → Bool
  is_other subject none = false
  is_other subject (some s) = not (is_empty (tb.trim s)) && not (tb.trim s == subject)

  unfoldable pub settings_of : Reply → Result PrivateLookupError (ToolboxUserSettings V)
  settings_of reply =
      if nat_beq reply.status 401
      then err unauthorized
      else if leb 200 reply.status && leb reply.status 299
      then elim reply.bytes [
        | none ↦ err upstream
        | some body ↦ elim (tb.from_slice body) [
          | none ↦ err upstream
          | some response ↦ elim response.updated_data [
            | none ↦ err upstream
            | some settings ↦ ok settings
          ]
        ]
      ]
      else err upstream

  unfoldable pub fetch_settings : Text → Result PrivateLookupError (ToolboxUserSettings V)
  unfolding settings_of
  fetch_settings subject = elim (tb.send subject) [
    | none ↦ err upstream
    | some reply ↦ settings_of reply
  ]

  unfoldable pub is_user_id : Text → Option Text → Bool
  is_user_id requested none = false
  is_user_id requested (some value) = value == requested

  unfoldable pub is_binding_of : SekaiServerRegion → Text → ToolboxGameAccountBinding V → Bool
  unfolding is_user_id normalize_toolbox_user_id as_str to_ascii_lowercase
  is_binding_of server requested b =
      (to_ascii_lowercase (tb.trim b.server) == to_ascii_lowercase (as_str server))
      && is_user_id requested (normalize_toolbox_user_id b.user_id)

  unfoldable pub verify_settings :
      Text → SekaiServerRegion → Text → ToolboxUserSettings V → Result PrivateLookupError (Unit {0})
  unfolding is_other is_binding_of
  verify_settings subject server user_id settings =
      if is_other subject settings.kratos_identity_id
      then err forbidden
      else if any (is_binding_of server (tb.trim user_id)) settings.game_account_bindings
      then ok tt
      else err forbidden

  unfoldable pub verify_bound_user :
      Text → Option Text → SekaiServerRegion → Text → Result PrivateLookupError (Unit {0})
  unfolding is_other fetch_settings verify_settings
  verify_bound_user subject owner server user_id =
      let s = tb.trim subject in
      if is_empty s
      then err unauthorized
      else if is_other s owner
      then err forbidden
      else fetch_settings s >>= verify_settings s server user_id
