-- ===== src/Api/Cache/Entries.antt =====
-- The stored responses of an event: which entries its Redis holds, and what a write changes.
use mathlib.Core.List.{append_assoc, append_cancel_right}
use haruki_event_tracker.Prelude.{
  ℕ, ◌^◌, ◌<◌, ℤ, pos, IsI64, true, false, ◌++◌, Option, none, some, ◌≡◌, ◌≢◌, ◌⊎◌, refl, ap, sym,
  ◌∙◌, arith, list_eq, nat_eq, list_beq, list_beq_iff, inl, inr, Bool-cases,
}
use haruki_event_tracker.Prelude.HashMap
use haruki_event_tracker.Prelude.HashMap.{
  HashMap, Distinct, is_some, get-insert, insert-Distinct, get-remove, remove-Distinct,
}
use haruki_event_tracker.Prelude.Text.{Text, codes}
use haruki_event_tracker.Api.Cache.Keys.{lower_server, value_key, negative_key}
use haruki_event_tracker.Api.Cache.Keys.Injective.{IsPlain, value_key-injective}
use haruki_event_tracker.Api.Cache.Redis.{Redis}
use haruki_event_tracker.Api.Cache.System.{Fetched, response_key, response_bytes}

-- No served suffix is another one followed by the tag of a negative entry.
abbrev pub AreSeparate : (Text → Type 0) → Type 0
AreSeparate Served = (s s' : Text) → Served s → Served s' → s ++ codes ":not_found" ≢ s'

negative_key-value_key :
    (server : Text) (event_id epoch : ℤ) (s : Text)
    → negative_key server event_id epoch s
      ≡ value_key server event_id epoch (s ++ codes ":not_found")
unfolding negative_key value_key
negative_key-value_key server event_id epoch s = simp (append_assoc) (refl)

abbrev pub with_strings : Redis → HashMap Text Text → Redis
with_strings r m = record r { strings = m }

module _ (server : Text) (event_id : ℤ) where
  -- Redis holds this response for a suffix under an epoch.
  abbrev pub Holds : Redis → ℕ → Text → Option Text → Type 0
  Holds r e s none = HashMap.contains_key (negative_key server event_id (pos e) s) r.strings ≡ true
  Holds r e s (some v) = HashMap.get (value_key server event_id (pos e) s) r.strings ≡ some v

module _ (server : Text) (event_id : ℤ) (plain : IsPlain (lower_server server))
    (he : IsI64 event_id) where
  same_key :
      (e e' : ℕ) (s s' : Text)
      → e < 2 ^ 63
      → e' < 2 ^ 63
      → value_key server event_id (pos e) s ≡ value_key server event_id (pos e') s'
      → (e ≡ e') × (s ≡ s')
  same_key e e' s s' h h' k =
      let (p, q, r, t) =
        value_key-injective server server event_id event_id (pos e) (pos e') s s' plain plain he he
          (ground arith) (ground arith) k in
      (ground arith, t)

  -- The key of a response determines its epoch, its suffix and whether it is negative.
  pub response_key-injective :
      (Served : Text → Type 0) (e e' : ℕ) (s s' : Text) (o o' : Option Text)
      → AreSeparate Served
      → Served s
      → Served s'
      → e < 2 ^ 63
      → e' < 2 ^ 63
      → response_key server event_id e s o ≡ response_key server event_id e' s' o'
      → (e ≡ e') × (s ≡ s') × (is_some o ≡ is_some o')
  response_key-injective Served e e' s s' none none sep hs hs' h h' k =
      let (p, q) = same_key e e' (s ++ codes ":not_found") (s' ++ codes ":not_found") h h' (
        sym (negative_key-value_key server event_id (pos e) s)
        ∙ k
        ∙ negative_key-value_key server event_id (pos e') s') in
      (p, append_cancel_right s s' (codes ":not_found") q, refl)
  response_key-injective Served e e' s s' (some v) (some v') sep hs hs' h h' k =
      let (p, q) = same_key e e' s s' h h' k in (p, q, refl)
  response_key-injective Served e e' s s' none (some v) sep hs hs' h h' k =
      let (p, q) =
        same_key e e' (s ++ codes ":not_found") s' h h'
          (sym (negative_key-value_key server event_id (pos e) s) ∙ k) in
      absurd (sep s s' hs hs' q)
  response_key-injective Served e e' s s' (some v) none sep hs hs' h h' k =
      let (p, q) =
        same_key e e' s (s' ++ codes ":not_found") h h'
          (k ∙ negative_key-value_key server event_id (pos e') s') in
      absurd (sep s' s hs' hs (sym q))

  pub Holds-remove :
      (r : Redis) (k : Text) (e : ℕ) (s : Text) (o : Option Text)
      → Distinct r.strings
      → Holds server event_id (with_strings r (HashMap.remove k r.strings)) e s o
      → Holds server event_id r e s o
  Holds-remove r k e s none d h =
      ground (arith, get-remove k (negative_key server event_id (pos e) s) r.strings d)
  Holds-remove r k e s (some v) d h =
      ground (arith, get-remove k (value_key server event_id (pos e) s) r.strings d)

  -- At another key an insert changes nothing.
  Holds-other :
      (r : Redis) (k w : Text) (e : ℕ) (s : Text) (o : Option Text)
      → list_beq ⦃e = nat_eq⦄ k (response_key server event_id e s o) ≡ false
      → Holds server event_id (with_strings r (HashMap.insert k w r.strings)) e s o
      → Holds server event_id r e s o
  Holds-other r k w e s none n h =
      ground (arith, get-insert k (negative_key server event_id (pos e) s) w r.strings)
  Holds-other r k w e s (some v) n h =
      ground (arith, get-insert k (value_key server event_id (pos e) s) w r.strings)

  -- At the key of a response that is a value, the insert is what is held.
  Holds-same :
      (r : Redis) (k w : Text) (e : ℕ) (s v : Text)
      → list_beq ⦃e = nat_eq⦄ k (value_key server event_id (pos e) s) ≡ true
      → Holds server event_id (with_strings r (HashMap.insert k w r.strings)) e s (some v)
      → w ≡ v
  Holds-same r k w e s v n h =
      ground (arith, get-insert k (value_key server event_id (pos e) s) w r.strings)

  same_response :
      (r : Redis) (e e' : ℕ) (s s' : Text) (o o' : Option Text)
      → list_beq ⦃e = nat_eq⦄
          (response_key server event_id e s o)
          (response_key server event_id e' s' o')
        ≡ true
      → is_some o ≡ is_some o'
      → Holds server event_id
          (with_strings r (
            HashMap.insert
              (response_key server event_id e s o)
              (response_bytes server event_id o)
              r.strings))
          e'
          s'
          o'
      → o ≡ o'
  same_response r e e' s s' none none b i h = refl
  same_response r e e' s s' (some w) (some v) b i h =
      ap some (Holds-same r (value_key server event_id (pos e) s) w e' s' v b h)
  same_response r e e' s s' none (some v) b i h = absurd (ground arith)
  same_response r e e' s s' (some w) none b i h = absurd (ground arith)

  -- What is held after a response is inserted was held before, or is that response.
  pub Holds-insert :
      (Served : Text → Type 0) (r : Redis) (f : Fetched) (e : ℕ) (s : Text) (o : Option Text)
      → AreSeparate Served
      → Served f.suffix
      → Served s
      → f.epoch < 2 ^ 63
      → e < 2 ^ 63
      → Holds server event_id
          (with_strings r (
            HashMap.insert
              (response_key server event_id f.epoch f.suffix f.response)
              (response_bytes server event_id f.response)
              r.strings))
          e
          s
          o
      → ((f.epoch ≡ e) × (f.suffix ≡ s) × (f.response ≡ o)) ⊎ Holds server event_id r e s o
  Holds-insert Served r f e s o sep hf hs b b' h =
      elim (Bool-cases (
        list_beq ⦃e = nat_eq⦄ (response_key server event_id f.epoch f.suffix f.response)
          (response_key server event_id e s o))) [
            | inl same ↦
                let (p, q, i) =
                  response_key-injective Served f.epoch e f.suffix s f.response o sep hf hs b b'
                    ((list_beq_iff ⦃e = nat_eq⦄ _ _).0 same) in
                inl (p, q, same_response r f.epoch e f.suffix s f.response o same i h)
            | inr other ↦ inr (Holds-other r _ _ e s o other h)
          ]
