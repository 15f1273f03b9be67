-- ===== src/Api/Cache/Keys/Injective.antt =====
-- Which parts a key determines.
use haruki_event_tracker.Prelude.{
  ℕ, zero, suc, ◌/◌, ltb, nat_beq, ℤ, pos, negsuc, IsI64, false, [], ◌∷◌, ◌++◌, ◌≡◌, refl, ap, sym,
  ◌∙◌, arith, All, Bool-cases, inl, inr,
}
use mathlib.Core.List.{append_assoc, append_cancel_left}
use haruki_event_tracker.Prelude.Text.{Text, codes, digits_onto, decimal, to_string, parse_i64}
use haruki_event_tracker.Prelude.Text.Roundtrip.{parse_i64-to_string}
use haruki_event_tracker.Api.Cache.Keys.{lower_server, base_key, epoch_tagged, value_key}

-- No colon.
abbrev pub IsPlain : Text → Type 0
IsPlain = All (λ c. nat_beq c b':' ≡ false)

digits_onto-IsPlain : (f n : ℕ) (acc : Text) → IsPlain acc → IsPlain (digits_onto f n acc)
unfolding digits_onto
digits_onto-IsPlain zero n acc h = h
digits_onto-IsPlain (suc f) n acc h = elim (Bool-cases (ltb n 10)) [
  | inl small ↦ rw small (ground arith, h)
  | inr large ↦ rw large (digits_onto-IsPlain f (n / 10) _ (ground arith, h))
]

pub to_string-IsPlain : (z : ℤ) → IsPlain (to_string z)
unfolding to_string decimal
to_string-IsPlain (pos n) = digits_onto-IsPlain 20 n [] tt
to_string-IsPlain (negsuc n) = (refl, digits_onto-IsPlain 20 (suc n) [] tt)

-- Two texts that agree, cut at their first colon.
pub split_colon :
    (xs ys s t : Text)
    → IsPlain xs
    → IsPlain ys
    → xs ++ b':' ∷ s ≡ ys ++ b':' ∷ t
    → (xs ≡ ys) × (s ≡ t)
split_colon [] [] s t hx hy e = ground arith
split_colon [] (y ∷ ys) s t hx hy e = absurd (ground arith)
split_colon (x ∷ xs) [] s t hx hy e = absurd (ground arith)
split_colon (x ∷ xs) (y ∷ ys) s t hx hy e =
    let rest : xs ++ b':' ∷ s ≡ ys ++ b':' ∷ t = ground arith in
    let (p, q) = split_colon xs ys s t hx.1 hy.1 rest in (ground arith, q)

pub to_string-injective : (a b : ℤ) → IsI64 a → IsI64 b → to_string a ≡ to_string b → a ≡ b
to_string-injective a b ha hb e =
    cc (parse_i64-to_string a ha, parse_i64-to_string b hb, ap parse_i64 e)

base_key-append :
    (server : Text) (event_id : ℤ) (rest : Text)
    → base_key server event_id ++ rest
      ≡ codes "haruki:tracker:"
        ++ (lower_server server
            ++ (b':' ∷ (to_string event_id ++ (b':' ∷ (codes "api_cache" ++ rest)))))
unfolding base_key
base_key-append server event_id rest = simp (append_assoc) (refl)

pub epoch_tagged-append :
    (tag : Text) (epoch : ℤ) (suffix : Text)
    → epoch_tagged tag epoch suffix ≡ tag ++ (to_string epoch ++ (b':' ∷ suffix))
epoch_tagged-append tag epoch suffix = simp (append_assoc) (refl)

-- A key of one server and event ends in what follows their part of it.
pub base_key-split :
    (server server' : Text) (event_id event_id' : ℤ) (rest rest' : Text)
    → IsPlain (lower_server server)
    → IsPlain (lower_server server')
    → IsI64 event_id
    → IsI64 event_id'
    → base_key server event_id ++ rest ≡ base_key server' event_id' ++ rest'
    → (lower_server server ≡ lower_server server') × (event_id ≡ event_id') × (rest ≡ rest')
base_key-split server server' event_id event_id' rest rest' hs hs' he he' e =
    let whole =
      sym (base_key-append server event_id rest) ∙ e ∙ base_key-append server' event_id' rest' in
    let (s, after) =
      split_colon (lower_server server) (lower_server server') _ _ hs hs'
        (append_cancel_left (codes "haruki:tracker:") _ _ whole) in
    let (ev, tail) =
      split_colon (to_string event_id) (to_string event_id') _ _ (to_string-IsPlain event_id)
        (to_string-IsPlain event_id') after in
    (
      s,
      to_string-injective event_id event_id' he he' ev,
      append_cancel_left (codes "api_cache") _ _ tail,
    )

-- The key of a value determines the server, the event, the epoch and the suffix, when the server's
-- name has no colon and the numbers are `i64`s: whatever the suffix, two requests that differ in
-- one of these never share a value.
pub value_key-injective :
    (server server' : Text) (event_id event_id' epoch epoch' : ℤ) (suffix suffix' : Text)
    → IsPlain (lower_server server)
    → IsPlain (lower_server server')
    → IsI64 event_id
    → IsI64 event_id'
    → IsI64 epoch
    → IsI64 epoch'
    → value_key server event_id epoch suffix ≡ value_key server' event_id' epoch' suffix'
    → (lower_server server ≡ lower_server server')
      × (event_id ≡ event_id')
      × (epoch ≡ epoch')
      × (suffix ≡ suffix')
unfolding value_key
value_key-injective server server' event_id event_id' epoch epoch' suffix suffix' hs hs' he he' hp
      hp' e =
    let (s, ev, rest) = base_key-split server server' event_id event_id' _ _ hs hs' he he' e in
    let tagged =
      sym (epoch_tagged-append (codes ":v") epoch suffix)
      ∙ rest
      ∙ epoch_tagged-append (codes ":v") epoch' suffix' in
    let (p, x) =
      split_colon (to_string epoch) (to_string epoch') _ _ (to_string-IsPlain epoch)
        (to_string-IsPlain epoch') (append_cancel_left (codes ":v") _ _ tagged) in
    (s, ev, to_string-injective epoch epoch' hp hp' p, x)
