-- ===== src/Api/Cache/Coherence.antt =====
-- What the stored responses of an event have to do with its database.
use haruki_event_tracker.Prelude.{
  ℕ, ◌^◌, ◌≤◌, ◌<◌, ℤ, pos, beq_ℤ, IsI64, Bool, true, false, List, [], ◌∷◌, ◌++◌, Option, none,
  some, ◌≡◌, ◌⊎◌, ap, sym, ◌∙◌, subst, arith, All, All-take_out, list_eq, nat_eq, inl, inr,
  Bool-cases,
}
use haruki_event_tracker.Prelude.HashMap
use haruki_event_tracker.Prelude.HashMap.{HashMap, Distinct, insert-Distinct, remove-Distinct}
use haruki_event_tracker.Prelude.Text.{Text}
use haruki_event_tracker.Api.Cache.Keys.{lower_server}
use haruki_event_tracker.Api.Cache.Keys.Injective.{IsPlain}
use haruki_event_tracker.Api.Cache.Redis.{Redis, current_epoch, write_l2_if_clean}
use haruki_event_tracker.Api.Cache.System.{
  Fetched, System, response_key, response_bytes, write_fetched, start,
}
use haruki_event_tracker.Api.Cache.Entries.{AreSeparate, Holds, with_strings, Holds-insert}

module _ {D : Type 0} (respond : D → Text → Option Text) (Served : Text → Type 0) where
  -- A response under an epoch: the epoch has been reached, and if it is the current one and nothing
  -- was written since it was raised, the response is the database's.
  abbrev pub IsGood : ℕ → Bool → D → ℕ → Text → Option Text → Type 0
  IsGood current wrote db e s o = (e ≤ current) × (wrote ≡ false → e ≡ current → respond db s ≡ o)

  abbrev pub IsSound : ℕ → Bool → D → Fetched → Type 0
  IsSound current wrote db f = Served f.suffix × IsGood current wrote db f.epoch f.suffix f.response

  module _ (server : Text) (event_id : ℤ) where
    abbrev pub AllGood : Redis → ℕ → Bool → D → Type 0
    AllGood r current wrote db =
        (e : ℕ) (s : Text) (o : Option Text)
        → e < 2 ^ 63
        → Served s
        → Holds server event_id r e s o
        → IsGood current wrote db e s o

    pub record Inv (t : System D) : Type 0 where
      pub covered : t.wrote ≡ true → t.exposed ≡ false → t.redis.dirty ≡ true
      pub small : current_epoch t.redis < 2 ^ 63
      pub seen : All (λ e. e ≤ current_epoch t.redis) t.seen
      pub pending : All (IsSound (current_epoch t.redis) t.wrote t.db) t.pending
      pub distinct : Distinct t.redis.strings
      pub stored : AllGood t.redis (current_epoch t.redis) t.wrote t.db

    module _ (plain : IsPlain (lower_server server)) (he : IsI64 event_id)
        (sep : AreSeparate Served) where
      Holds-empty :
          (e : ℕ) (s : Text) (o : Option Text)
          → Holds server event_id (record { epoch = none; dirty = false; strings = [] }) e s o
          → ⊥
      unfolding HashMap.get
      Holds-empty e s none h = absurd (ground (arith, h))
      Holds-empty e s (some v) h = absurd (ground (arith, h))

      pub start-Inv : (db : D) → Inv (start server event_id respond Served db)
      unfolding HashMap.get
      start-Inv db = record {
        covered = λ h. cc;
        small = ground arith;
        seen = tt;
        pending = tt;
        distinct = tt;
        stored = λ e s o b hs h. absurd (Holds-empty e s o h);
      }

      -- A write is refused, or it stores the response under the current epoch.
      write_cases :
          (f : Fetched) (r : Redis)
          → (write_fetched server event_id f r ≡ r)
            ⊎ ((f.epoch ≡ current_epoch r)
                × (write_fetched server event_id f r
                    ≡ with_strings r (
                        HashMap.insert
                          (response_key server event_id f.epoch f.suffix f.response)
                          (response_bytes server event_id f.response)
                          r.strings)))
      unfolding write_fetched write_l2_if_clean
      write_cases f r = elim (Bool-cases (beq_ℤ (pos (current_epoch r)) (pos f.epoch))) [
        | inl same ↦ elim (Bool-cases r.dirty) [
          | inl d ↦ inl (ground arith)
          | inr d ↦ inr (ground arith, ground arith)
        ]
        | inr other ↦ inl (ground arith)
      ]

      taken_out :
          (t : System D) (before after : List Fetched) (f : Fetched)
          → t.pending ≡ before ++ (f ∷ after)
          → Inv t
          → IsSound (current_epoch t.redis) t.wrote t.db f
            × All (IsSound (current_epoch t.redis) t.wrote t.db) (before ++ after)
      taken_out t before after f h i =
          All-take_out _ before f after
            (subst (All (IsSound (current_epoch t.redis) t.wrote t.db)) h i.pending)

      pub reached :
          (t : System D) (before after : List ℕ) (e : ℕ)
          → t.seen ≡ before ++ (e ∷ after)
          → Inv t
          → e ≤ current_epoch t.redis
      reached t before after e h i =
          (All-take_out _ before e after (subst (All (λ x. x ≤ current_epoch t.redis)) h i.seen)).0

      pub drop-Inv :
          (t : System D) (f : Fetched) (before after : List Fetched)
          → t.pending ≡ before ++ (f ∷ after)
          → Inv t
          → Inv (record t { pending = before ++ after })
      drop-Inv t f before after h i = record {
        covered = i.covered;
        small = i.small;
        seen = i.seen;
        pending = (taken_out t before after f h i).1;
        distinct = i.distinct;
        stored = i.stored;
      }

      -- A response that is sound may be stored under the current epoch.
      store-Inv :
          (t : System D) (f : Fetched)
          → f.epoch ≡ current_epoch t.redis
          → IsSound (current_epoch t.redis) t.wrote t.db f
          → Inv t
          → Inv (record t {
            redis = with_strings t.redis (
                HashMap.insert
                  (response_key server event_id f.epoch f.suffix f.response)
                  (response_bytes server event_id f.response)
                  t.redis.strings);
          })
      store-Inv t f q sound i = record {
        covered = i.covered;
        small = i.small;
        seen = i.seen;
        pending = i.pending;
        distinct = insert-Distinct _ _ t.redis.strings i.distinct;
        stored = λ e s o b hs k.
            elim (Holds-insert server event_id plain he Served t.redis f e s o sep sound.0 hs
              (omega (arith, q, i.small)) b k) [
                | inl (p, u, v) ↦ (
                  omega (arith, p, sound.1.0),
                  λ w c. sym (ap (respond t.db) u) ∙ sound.1.1 w (p ∙ c) ∙ v,
                )
                | inr old ↦ i.stored e s o b hs old
              ];
      }

      pub write-Inv :
          (t : System D) (f : Fetched) (before after : List Fetched)
          → t.pending ≡ before ++ (f ∷ after)
          → Inv t
          → Inv (record t {
            redis = write_fetched server event_id f t.redis;
            pending = before ++ after;
          })
      write-Inv t f before after e i = elim (write_cases f t.redis) [
        | inl same ↦
            subst (λ r. Inv (record t { redis = r; pending = before ++ after })) (sym same)
              (drop-Inv t f before after e i)
        | inr (q, stored) ↦
            subst (λ r. Inv (record t { redis = r; pending = before ++ after })) (sym stored)
              (store-Inv (record t { pending = before ++ after }) f q
                (taken_out t before after f e i).0 (drop-Inv t f before after e i))
      ]
