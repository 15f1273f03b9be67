-- ===== src/Api/Error.antt =====
-- src/api/error.rs: the errors of the API. The text of a database error stands for it.
use haruki_event_tracker.Prelude.{Bool, true, false}
use haruki_event_tracker.Prelude.Result.{Result, err}
use haruki_event_tracker.Prelude.Text.{Text}

pub data ApiError : Type 0 where
  invalid_server : Text → ApiError
  not_found : ApiError
  bad_request : Text → ApiError
  unauthorized : ApiError
  forbidden : ApiError
  service_unavailable : Text → ApiError
  db : Text → ApiError

-- `matches!(result, Err(ApiError::NotFound))`
abbrev pub is_not_found {ℓ} : {A : Type ℓ} → Result ApiError A → Bool
is_not_found (err ApiError.not_found) = true
is_not_found _ = false
