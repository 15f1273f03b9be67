-- ===== src/Tests/Accounts.antt =====
-- Runs of the check of a bound account.
use haruki_event_tracker.Prelude.{
  true, is_empty, ◌⊎◌, ◌≡◌, ◌↔◌, refl, none, some, [], ◌∷◌, list_eq, nat_eq,
}
use haruki_event_tracker.Prelude.Text.{Text, codes}
use haruki_event_tracker.Prelude.Result.{ok, err}
use haruki_event_tracker.Model.Enums.{jp}
use haruki_event_tracker.Api.PrivateLookup.{
  unauthorized, Toolbox, ToolboxUserSettings, verify_bound_user,
}
use haruki_event_tracker.Api.PrivateLookup.Refusal.{IsLoggedOut, verify_bound_user_unauthorized_iff}
use haruki_event_tracker.Api.PrivateLookup.Access.{IsNoOther, IsAllowed, verify_bound_user_iff}

abbrev settings : ToolboxUserSettings Text
settings = record {
  kratos_identity_id = some (codes "id");
  game_account_bindings = record { server = codes "JP"; user_id = codes "7" } ∷ [];
}

abbrev toolbox : Toolbox Text
toolbox = record {
  trim = λ s. s;
  value_as_str = λ s. some s;
  value_as_i64 = λ s. none;
  value_as_u64 = λ s. none;
  from_slice = λ s. some (record { updated_data = some settings });
  send = λ s. some (record { status = 200; bytes = some [] });
}

is_bound : verify_bound_user toolbox (codes "id") (some (codes "id")) jp (codes "7") ≡ ok tt
unfolding verify_bound_user
is_bound = refl

verify_bound_user_iff_example :
    (verify_bound_user toolbox (codes "id") (some (codes "id")) jp (codes "7") ≡ ok tt)
    ↔ IsAllowed toolbox (codes "id") (some (codes "id")) jp (codes "7")
verify_bound_user_iff_example =
    verify_bound_user_iff toolbox (codes "id") (some (codes "id")) jp (codes "7")

-- The service knows no login.
abbrev logged_out : Toolbox Text
logged_out = record toolbox { send = λ s. some (record { status = 401; bytes = none }) }

verify_bound_user_unauthorized_iff_example :
    (verify_bound_user logged_out (codes "id") none jp (codes "7") ≡ err unauthorized) ↔ (
      (is_empty (codes "id") ≡ true)
      ⊎ (IsNoOther logged_out (codes "id") none × IsLoggedOut logged_out (codes "id")))
verify_bound_user_unauthorized_iff_example =
    verify_bound_user_unauthorized_iff logged_out (codes "id") none jp (codes "7")
