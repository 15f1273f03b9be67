-- ===== src/Tracker/World.antt =====
-- What a tick asks of the code outside it (upstream API, Redis, database), as a log of calls with
-- their outcomes. An environment fixes the outcome of each call by its number, so theorems hold
-- for every pattern of failures.
pub mod Hoare
use haruki_event_tracker.Prelude.{
  ℕ, suc, ℤ, Bool, true, false, List, [], ◌∷◌, Option, none, some, if◌then◌else◌, ◌≡◌, refl,
}
use haruki_event_tracker.Prelude.HashMap.{HashMap}
use haruki_event_tracker.Prelude.Result.{Result, ok, err}
use haruki_event_tracker.Prelude.Text.{Text}
use haruki_event_tracker.Model.Sekai.{Top100RankingResponse, BorderRankingResponse}
use haruki_event_tracker.Model.Tracker.{RankState}

-- `TrackerError`, without the texts of the errors.
pub data TrackerError : Type 0 where
  redis db api : TrackerError

pub data Effect : Type 0 where
  fetch_rankings : Effect
  check_border check_ended load_ranks : Effect
  create_tables extend_tables : Effect
  begin_update finish_update abort_update : Effect
  upsert_users : Effect
  insert_rankings insert_bloom : Effect
  heartbeat : ℤ → ℕ → Effect
  store_border : Text → List ℕ → Effect
  save_ranks : HashMap ℤ RankState → Effect
  set_ended_flag : Effect
  notify_update : ℤ → Effect

pub record World : Type 0 where
  pub calls : ℕ
  -- Newest first; the Boolean is whether the call succeeded.
  pub log : List (Effect × Bool)

pub record Env (Json : Type 0) : Type 0 where
  -- Whether the tracker has a connection to the API cache.
  pub api_cache : Bool
  pub succeeds : ℕ → Bool
  pub clock : ℕ → ℤ
  pub payload : ℕ → Top100RankingResponse Json × (List ℕ × BorderRankingResponse Json)
  -- The border hash that is stored.
  pub border_hash : ℕ → Option (List ℕ)
  pub user_keys : ℕ → HashMap Text ℤ
  pub ended_flag : ℕ → Bool
  pub stored_ranks : ℕ → HashMap ℤ RankState

-- An action on a state `S` beside the world; what was done before an error stays done.
abbrev pub Exec : Type 0 → Type 0 → Type 0
Exec S A = S × World → Result TrackerError A × (S × World)

module _ {S A B : Type 0} where
  abbrev pub continue : Result TrackerError A → (A → Exec S B) → Exec S B
  continue (ok a) f s = f a s
  continue (err e) f s = (err e, s)

  infixl 5 ◌>>=◌ ◌>>◌
  abbrev pub ◌>>=◌ : Exec S A → (A → Exec S B) → Exec S B
  ◌>>=◌ m f s = let (r, s') = m s in continue r f s'

  abbrev pub ◌>>◌ : Exec S A → Exec S B → Exec S B
  m >> n = m >>= λ _. n

module _ {S : Type 0} where
  abbrev pub pure : {A : Type 0} → A → Exec S A
  pure a s = (ok a, s)

  abbrev pub raise : {A : Type 0} → TrackerError → Exec S A
  raise e s = (err e, s)

  abbrev pub gets : {A : Type 0} → (S → A) → Exec S A
  gets f s = (ok (f s.0), s)

  abbrev pub modify : (S → S) → Exec S (Unit {0})
  modify f s = (ok tt, (f s.0, s.1))

  -- `r?` of a call that may fail with this error.
  abbrev pub guard : TrackerError → Bool → Exec S (Unit {0})
  guard e true = pure tt
  guard e false = raise e

  -- The action, if the test holds.
  abbrev pub when : Bool → Exec S (Unit {0}) → Exec S (Unit {0})
  when true m = m
  when false m = pure tt

  -- What an error handler does with an outcome.
  abbrev pub handle :
      {A : Type 0}
      → Result TrackerError A × (S × World)
      → Exec S (Unit {0})
      → Result TrackerError A × (S × World)
  handle (ok a, s) cleanup = (ok a, s)
  handle (err e, s) cleanup = (err e, (cleanup s).1)

  -- A handler of an error does not change it, and runs on the state that it leaves.
  abbrev pub on_error : {A : Type 0} → Exec S A → Exec S (Unit {0}) → Exec S A
  on_error m cleanup s = handle (m s) cleanup

module _ {S A : Type 0} where
  abbrev pub recover_from :
      Result TrackerError A × (S × World)
      → (TrackerError → Exec S A)
      → Result TrackerError A × (S × World)
  recover_from (ok a, s) f = (ok a, s)
  recover_from (err e, s) f = f e s

  -- Goes on with another action after an error.
  abbrev pub recover : Exec S A → (TrackerError → Exec S A) → Exec S A
  recover m f s = recover_from (m s) f

module _ {Json S : Type 0} (env : Env Json) where
  -- Makes a call, and says whether it succeeded.
  abbrev pub call : Effect → Exec S Bool
  call e (s, w) = (
    ok (env.succeeds w.calls),
    (s, record { calls = suc w.calls; log = (e, env.succeeds w.calls) ∷ w.log }),
  )

  -- A call whose failure is only logged.
  abbrev pub call_logged : Effect → Exec S (Unit {0})
  call_logged e (s, w) =
      (ok tt, (s, record { calls = suc w.calls; log = (e, env.succeeds w.calls) ∷ w.log }))

  -- What the environment answers at this moment.
  abbrev pub observe : {A : Type 0} → (ℕ → A) → Exec S A
  observe f (s, w) = (ok (f w.calls), (s, record w { calls = suc w.calls }))

  -- A call of the API cache, if there is a connection.
  abbrev pub cache_call : Effect → Exec S (Unit {0})
  cache_call e = when env.api_cache (call_logged e)
