-- ===== src/Model/Enums.antt =====
-- src/model/enums.rs: regions, event kinds and phases, with their comparisons and spellings.
pub mod Spelling
pub mod Lines
use haruki_event_tracker.Prelude.{
  ℕ, ◌+◌, ◌≡◌, refl, ◌↔◌, Bool, true, false, ◌&&◌, List, [], ◌∷◌, map, Option, none, some, arith,
  leb, nat_beq, if◌then◌else◌, Eq, ◌==◌, list_eq, nat_eq,
}
use haruki_event_tracker.Prelude.Text.{Text, codes}

pub data SekaiServerRegion : Type 0 where
  jp en tw kr cn : SekaiServerRegion

pub data SekaiEventType : Type 0 where
  marathon cheerful_carnival world_bloom : SekaiEventType

pub data SekaiWorldBloomType : Type 0 where
  game_character finale : SekaiWorldBloomType

pub data SekaiEventStatus : Type 0 where
  not_started ongoing aggregating ended : SekaiEventStatus

abbrev region_tag : SekaiServerRegion → ℕ
region_tag jp = 0
region_tag en = 1
region_tag tw = 2
region_tag kr = 3
region_tag cn = 4

abbrev status_tag : SekaiEventStatus → ℕ
status_tag not_started = 0
status_tag ongoing = 1
status_tag aggregating = 2
status_tag ended = 3

abbrev event_type_tag : SekaiEventType → ℕ
event_type_tag marathon = 0
event_type_tag cheerful_carnival = 1
event_type_tag world_bloom = 2

abbrev bloom_type_tag : SekaiWorldBloomType → ℕ
bloom_type_tag game_character = 0
bloom_type_tag finale = 1

abbrev pub region_beq : SekaiServerRegion → SekaiServerRegion → Bool
region_beq a b = nat_beq (region_tag a) (region_tag b)

abbrev pub status_beq : SekaiEventStatus → SekaiEventStatus → Bool
status_beq a b = nat_beq (status_tag a) (status_tag b)

abbrev pub event_type_beq : SekaiEventType → SekaiEventType → Bool
event_type_beq a b = nat_beq (event_type_tag a) (event_type_tag b)

abbrev pub bloom_type_beq : SekaiWorldBloomType → SekaiWorldBloomType → Bool
bloom_type_beq a b = nat_beq (bloom_type_tag a) (bloom_type_tag b)

pub region_beq_iff : (a b : SekaiServerRegion) → (region_beq a b ≡ true) ↔ (a ≡ b)
region_beq_iff a b = ground arith

pub status_beq_iff : (a b : SekaiEventStatus) → (status_beq a b ≡ true) ↔ (a ≡ b)
status_beq_iff a b = ground arith

pub event_type_beq_iff : (a b : SekaiEventType) → (event_type_beq a b ≡ true) ↔ (a ≡ b)
event_type_beq_iff a b = ground arith

instance abbrev pub region_eq : Eq SekaiServerRegion
region_eq = record { beq = region_beq; beq_iff = region_beq_iff }

unfoldable pub as_str : SekaiServerRegion → Text
as_str jp = codes "jp"
as_str en = codes "en"
as_str tw = codes "tw"
as_str kr = codes "kr"
as_str cn = codes "cn"

unfoldable pub to_ascii_lowercase : Text → Text
to_ascii_lowercase = map (λ c. if leb b'A' c && leb c b'Z' then c + 32 else c)

parse_lower : Text → Option SekaiServerRegion
parse_lower s =
    if s == codes "jp"
    then some jp
    else if s == codes "en"
    then some en
    else if s == codes "tw"
    then some tw
    else if s == codes "kr"
    then some kr
    else if s == codes "cn"
    then some cn
    else none

unfoldable pub parse : Text → Option SekaiServerRegion
unfolding to_ascii_lowercase parse_lower
parse s = parse_lower (to_ascii_lowercase s)
