-- ===== src/Api/Cache/Keys/Gzip.antt =====
-- The compressed response stands under a key of its own.
use haruki_event_tracker.Prelude.{
  ℤ, ◌++◌, length, length-append, ◌≡◌, ◌≢◌, refl, ap, sym, ◌∙◌, arith,
}
use mathlib.Core.List.{append_assoc, append_cancel_left}
use haruki_event_tracker.Prelude.Text.{Text, codes, to_string}
use haruki_event_tracker.Api.Cache.Keys.{base_key, value_key, gzip_key}
use haruki_event_tracker.Api.Cache.Keys.Injective.{
  split_colon, to_string-IsPlain, epoch_tagged-append,
}

gzip_key-value_key :
    (server : Text) (event_id epoch : ℤ) (suffix : Text)
    → gzip_key (value_key server event_id epoch suffix)
      ≡ value_key server event_id epoch (suffix ++ codes ":gz")
unfolding gzip_key value_key
gzip_key-value_key server event_id epoch suffix = simp (append_assoc) (refl)

-- For one suffix, no epoch's key is the compressed key of another epoch.
pub value_key-gzip_key :
    (server : Text) (event_id epoch other : ℤ) (suffix : Text)
    → value_key server event_id epoch suffix ≢ gzip_key (value_key server event_id other suffix)
unfolding value_key
value_key-gzip_key server event_id epoch other suffix e =
    let tagged =
      append_cancel_left (base_key server event_id) _ _
        (e ∙ gzip_key-value_key server event_id other suffix) in
    let aligned =
      sym (epoch_tagged-append (codes ":v") epoch suffix)
      ∙ tagged
      ∙ epoch_tagged-append (codes ":v") other (suffix ++ codes ":gz") in
    let (p, q) =
      split_colon (to_string epoch) (to_string other) _ _ (to_string-IsPlain epoch)
        (to_string-IsPlain other) (append_cancel_left (codes ":v") _ _ aligned) in
    absurd (omega (arith, ap length q, length-append suffix (codes ":gz")))
