-- ===== src/Tracker/Parser/Cached.antt =====
-- `load_json_cached` of src/tracker/parser.rs: a parsed document is served while the fingerprint of
-- its file is unchanged. The storage's `fingerprint` and `load_json` results are arguments.
use haruki_event_tracker.Prelude.{
  ℕ, ℤ, Bool, true, false, List, [], ◌∷◌, map, Option, none, some, ◌≡◌, ◌↔◌, refl, ◌∙◌, ap, sym,
  arith, if◌then◌else◌, All, beq_ℤ, beq_ℤ_iff, nat_beq, list_beq, list_beq_iff, nat_eq, inl, inr,
  Bool-cases, Option-cases,
}
use haruki_event_tracker.Prelude.Result.{Result, ok, err}
use haruki_event_tracker.Prelude.Text.{Text}

-- Last-modified, size, entity tag.
pub record Fingerprint : Type 0 where
  pub last_modified : Option ℤ
  pub size : ℕ
  pub etag : Option Text

abbrev opt_int_beq : Option ℤ → Option ℤ → Bool
opt_int_beq none none = true
opt_int_beq (some a) (some b) = beq_ℤ a b
opt_int_beq _ _ = false

abbrev opt_text_beq : Option Text → Option Text → Bool
opt_text_beq none none = true
opt_text_beq (some a) (some b) = list_beq a b
opt_text_beq _ _ = false

opt_int_beq_iff : (a b : Option ℤ) → (opt_int_beq a b ≡ true) ↔ (a ≡ b)
opt_int_beq_iff none none = ground arith
opt_int_beq_iff (some a) (some b) = ground (arith, beq_ℤ_iff a b)
opt_int_beq_iff none (some b) = ground arith
opt_int_beq_iff (some a) none = ground arith

opt_text_beq_iff : (a b : Option Text) → (opt_text_beq a b ≡ true) ↔ (a ≡ b)
opt_text_beq_iff none none = ground arith
opt_text_beq_iff (some a) (some b) = ground (arith, list_beq_iff ⦃e = nat_eq⦄ a b)
opt_text_beq_iff none (some b) = ground arith
opt_text_beq_iff (some a) none = ground arith

abbrev pub fingerprint_beq : Fingerprint → Fingerprint → Bool
fingerprint_beq a b =
    if opt_int_beq a.last_modified b.last_modified
    then (if nat_beq a.size b.size then opt_text_beq a.etag b.etag else false)
    else false

fingerprint_beq-eq : (a b : Fingerprint) → fingerprint_beq a b ≡ true → a ≡ b
fingerprint_beq-eq a b h =
    ground (arith, opt_int_beq_iff a.last_modified b.last_modified, opt_text_beq_iff a.etag b.etag)

pub record CachedDoc (T : Type 0) : Type 0 where
  pub fingerprint : Fingerprint
  pub value : T

-- A fingerprint with neither last-modified nor entity tag says nothing.
abbrev pub usable : Fingerprint → Option Fingerprint
usable fp = elim fp.last_modified [
  | some _ ↦ some fp
  | none ↦ elim fp.etag [ some _ ↦ some fp | none ↦ none ]
]

-- `stat` is the storage's answer, `none` if it failed.
abbrev pub fingerprint_of : Option Fingerprint → Option Fingerprint
fingerprint_of none = none
fingerprint_of (some fp) = usable fp

-- The cached document, if it has this fingerprint.
abbrev pub cached_value : {T : Type 0} → Option Fingerprint → Option (CachedDoc T) → Option T
cached_value none cache = none
cached_value (some fp) none = none
cached_value (some fp) (some doc) =
    if fingerprint_beq doc.fingerprint fp then some doc.value else none

module _ {E T : Type 0} where
  -- Reading the document, and remembering it if its fingerprint is known.
  pub load_and_store :
      Option Fingerprint → Result E T → Option (CachedDoc T) → Option (CachedDoc T) × Result E T
  load_and_store fingerprint (err e) cache = (cache, err e)
  load_and_store none (ok value) cache = (cache, ok value)
  load_and_store (some fp) (ok value) cache =
      (some (record { fingerprint = fp; value = value }), ok value)

  -- The rest of `load_json_cached`, once the fingerprint is known or found useless.
  pub load_with :
      Option Fingerprint → Result E T → Option (CachedDoc T) → Option (CachedDoc T) × Result E T
  unfolding load_and_store
  load_with fingerprint load_json cache = elim (cached_value fingerprint cache) [
    | some value ↦ (cache, ok value)
    | none ↦ load_and_store fingerprint load_json cache
  ]

  unfoldable pub load_json_cached :
      Option Fingerprint → Result E T → Option (CachedDoc T) → Option (CachedDoc T) × Result E T
  unfolding load_with
  load_json_cached stat load_json cache = load_with (fingerprint_of stat) load_json cache

  -- The results of a series of calls. At each, the storage has a `stat` answer, and reading the
  -- file has a result.
  pub load_series :
      Option (CachedDoc T) → List (Option Fingerprint × Result E T) → List (Result E T)
  load_series cache [] = []
  load_series cache ((stat, load_json) ∷ calls) =
      let (cache', result) = load_json_cached stat load_json cache in
      result ∷ load_series cache' calls

module _ {T : Type 0} (doc : Fingerprint → T) where
  -- The cached document is the one of its fingerprint.
  abbrev IsFaithful : Option (CachedDoc T) → Type 0
  IsFaithful cache = (d : CachedDoc T) → cache ≡ some d → d.value ≡ doc d.fingerprint

  cached_value-doc :
      (fp : Fingerprint) (cache : Option (CachedDoc T)) (value : T)
      → IsFaithful cache
      → cached_value (some fp) cache ≡ some value
      → value ≡ doc fp
  cached_value-doc fp none value h e = absurd (ground arith)
  cached_value-doc fp (some d) value h e = elim (Bool-cases (fingerprint_beq d.fingerprint fp)) [
    | inl same ↦
        let v : d.value ≡ value = ground arith in
        sym v ∙ h d refl ∙ ap doc (fingerprint_beq-eq d.fingerprint fp same)
    | inr other ↦ absurd (ground arith)
  ]

module _ {E T : Type 0} (doc : Fingerprint → T) where
  -- A file whose fingerprint is known reads as the document of that fingerprint.
  abbrev pub IsDetermined : Option Fingerprint × Result E T → Type 0
  IsDetermined (stat, load_json) =
      (fp : Fingerprint) → fingerprint_of stat ≡ some fp → load_json ≡ ok (doc fp)

  load_and_store_unknown :
      (r : Result E T) (cache : Option (CachedDoc T)) → load_and_store none r cache ≡ (cache, r)
  unfolding load_and_store
  load_and_store_unknown (ok v) cache = refl
  load_and_store_unknown (err e) cache = refl

  load_with-step :
      (fingerprint : Option Fingerprint) (load_json : Result E T) (cache : Option (CachedDoc T))
      → ((fp : Fingerprint) → fingerprint ≡ some fp → load_json ≡ ok (doc fp))
      → IsFaithful doc cache
      → ((load_with fingerprint load_json cache).1 ≡ load_json)
        × IsFaithful doc (load_with fingerprint load_json cache).0
  unfolding load_with
  load_with-step none load_json cache d h = rw load_and_store_unknown (refl, h)
  load_with-step (some fp) load_json cache d h =
      elim (Option-cases (cached_value (some fp) cache)) [
        | inl miss ↦ rw (load_with, miss, d fp refl) (refl, λ doc' e. ground arith)
        | inr (value, hit) ↦
            rw (load_with, hit, d fp refl) (ap ok (cached_value-doc doc fp cache value h hit), h)
      ]

  load_json_cached-step :
      (stat : Option Fingerprint) (load_json : Result E T) (cache : Option (CachedDoc T))
      → IsDetermined (stat, load_json)
      → IsFaithful doc cache
      → ((load_json_cached stat load_json cache).1 ≡ load_json)
        × IsFaithful doc (load_json_cached stat load_json cache).0
  unfolding load_json_cached
  load_json_cached-step stat load_json cache d h =
      load_with-step (fingerprint_of stat) load_json cache d h

  load_series-faithful :
      (cache : Option (CachedDoc T)) (calls : List (Option Fingerprint × Result E T))
      → IsFaithful doc cache
      → All IsDetermined calls
      → load_series cache calls ≡ map (λ c. c.1) calls
  unfolding load_series
  load_series-faithful cache [] h d = refl
  load_series-faithful cache ((stat, load_json) ∷ calls) h d =
      let step = load_json_cached-step stat load_json cache d.0 h in
      cc (step.0, load_series-faithful (load_json_cached stat load_json cache).0 calls step.1 d.1)

  -- If the fingerprint of a file determines its document, every call of a series returns what
  -- reading the file at that moment would, cached or not, errors without a fingerprint included.
  pub load_json_cached_series :
      (calls : List (Option Fingerprint × Result E T))
      → All IsDetermined calls
      → load_series none calls ≡ map (λ c. c.1) calls
  load_json_cached_series calls d =
      load_series-faithful none calls (λ doc' e. absurd (ground arith)) d
