-- ===== src/Model/Enums/Spelling.antt =====
-- Region names, as they are spelled and parsed.
use haruki_event_tracker.Prelude.{
  ◌≡◌, refl, ◌↔◌, ap, ◌∙◌, some, arith, list_eq, nat_eq, list_beq_iff,
}
use haruki_event_tracker.Prelude.Text.{Text, codes}
use haruki_event_tracker.Model.Enums.{
  SekaiServerRegion, jp, en, tw, kr, cn, as_str, to_ascii_lowercase, parse_lower, parse,
}

parse_lower-as_str : (r : SekaiServerRegion) → parse_lower (as_str r) ≡ some r
unfolding parse_lower as_str
parse_lower-as_str jp = refl
parse_lower-as_str en = refl
parse_lower-as_str tw = refl
parse_lower-as_str kr = refl
parse_lower-as_str cn = refl

as_str-parse_lower : (s : Text) (r : SekaiServerRegion) → parse_lower s ≡ some r → s ≡ as_str r
unfolding parse_lower as_str
as_str-parse_lower s r h = ground (
  arith,
  list_beq_iff ⦃e = nat_eq⦄ s (codes "jp"),
  list_beq_iff ⦃e = nat_eq⦄ s (codes "en"),
  list_beq_iff ⦃e = nat_eq⦄ s (codes "tw"),
  list_beq_iff ⦃e = nat_eq⦄ s (codes "kr"),
  list_beq_iff ⦃e = nat_eq⦄ s (codes "cn"),
)

-- A text parses to a region exactly when its lower-case form is the region's name.
pub parse_iff :
    (s : Text) (r : SekaiServerRegion) → (parse s ≡ some r) ↔ (to_ascii_lowercase s ≡ as_str r)
unfolding parse
parse_iff s r = (
  λ h. as_str-parse_lower (to_ascii_lowercase s) r h,
  λ h. ap parse_lower h ∙ parse_lower-as_str r,
)
