-- ===== src/Api/Cache/Keys.antt =====
-- src/api/cache.rs: the texts of the keys. Texts are code points here and bytes there; the keys
-- that the code builds from its own parts are ASCII.
pub mod Injective
pub mod Gzip
use haruki_event_tracker.Prelude.{
  ℕ, ℤ, leb, Bool, true, false, ◌&&◌, List, [], ◌∷◌, ◌++◌, map, any, if◌then◌else◌,
}
use haruki_event_tracker.Prelude.Text.{Text, codes, to_string}
use haruki_event_tracker.Model.Enums.{to_ascii_lowercase}

abbrev is_ascii_uppercase : ℕ → Bool
is_ascii_uppercase c = leb b'A' c && leb c b'Z'

unfoldable pub lower_server : Text → Text
unfolding to_ascii_lowercase
lower_server server = if any is_ascii_uppercase server then to_ascii_lowercase server else server

unfoldable pub base_key : Text → ℤ → Text
unfolding lower_server
base_key server event_id =
    codes "haruki:tracker:"
    ++ lower_server server
    ++ codes ":"
    ++ to_string event_id
    ++ codes ":api_cache"

-- `format!("{base}{tag}{epoch}:{suffix}")`
abbrev pub epoch_tagged : Text → ℤ → Text → Text
epoch_tagged tag epoch suffix = tag ++ to_string epoch ++ codes ":" ++ suffix

unfoldable pub value_key : Text → ℤ → ℤ → Text → Text
unfolding base_key
value_key server event_id epoch suffix =
    base_key server event_id ++ epoch_tagged (codes ":v") epoch suffix

unfoldable pub static_value_key : Text → ℤ → Text → Text
unfolding base_key
static_value_key server event_id suffix = base_key server event_id ++ codes ":static:" ++ suffix

unfoldable pub negative_key : Text → ℤ → ℤ → Text → Text
unfolding value_key
negative_key server event_id epoch suffix =
    value_key server event_id epoch suffix ++ codes ":not_found"

unfoldable pub gzip_key : Text → Text
gzip_key value_key = value_key ++ codes ":gz"

unfoldable pub dirty_flight_key : Text → ℤ → ℤ → Text → Text
unfolding base_key
dirty_flight_key server event_id epoch suffix =
    base_key server event_id ++ epoch_tagged (codes ":dirty:v") epoch suffix

unfoldable pub lookup_flight_key : Text → ℤ → ℤ → Text → Text
unfolding base_key
lookup_flight_key server event_id epoch suffix =
    base_key server event_id ++ epoch_tagged (codes ":lookup:v") epoch suffix

unfoldable pub static_lookup_flight_key : Text → ℤ → Text → Text
unfolding base_key
static_lookup_flight_key server event_id suffix =
    base_key server event_id ++ codes ":static_lookup:" ++ suffix

unfoldable pub gzip_flight_key : Text → ℤ → ℤ → Text → Text
unfolding base_key
gzip_flight_key server event_id epoch suffix =
    base_key server event_id ++ epoch_tagged (codes ":gzip:v") epoch suffix

unfoldable pub gzip_lookup_flight_key : Text → ℤ → ℤ → Text → Text
unfolding base_key
gzip_lookup_flight_key server event_id epoch suffix =
    base_key server event_id ++ epoch_tagged (codes ":gzip_lookup:v") epoch suffix

unfoldable pub control_cache_key : Text → ℤ → Text
unfolding base_key
control_cache_key server event_id = base_key server event_id ++ codes ":control"

unfoldable pub epoch_key : Text → ℤ → Text
unfolding base_key
epoch_key server event_id = base_key server event_id ++ codes ":epoch"

unfoldable pub dirty_key : Text → ℤ → Text
unfolding base_key
dirty_key server event_id = base_key server event_id ++ codes ":dirty"

unfoldable pub rank_suffix : Text → ℤ → Text
rank_suffix kind rank = kind ++ codes ":rank:" ++ to_string rank

unfoldable pub user_suffix : Text → Text → Text
user_suffix kind user_id = kind ++ codes ":user:" ++ user_id

unfoldable pub wb_rank_suffix : Text → ℤ → ℤ → Text
wb_rank_suffix kind character_id rank =
    codes "wb:" ++ to_string character_id ++ codes ":" ++ kind ++ codes ":rank:" ++ to_string rank

-- `.join(",")`
unfoldable pub join_commas : List Text → Text
join_commas [] = []
join_commas (t ∷ []) = t
join_commas (t ∷ u ∷ ts) = t ++ codes "," ++ join_commas (u ∷ ts)

unfoldable pub batch_rank_suffix : Text → List ℤ → Text
unfolding join_commas
batch_rank_suffix kind ranks = kind ++ codes ":ranks:" ++ join_commas (map to_string ranks)

unfoldable pub wb_batch_rank_suffix : Text → ℤ → List ℤ → Text
unfolding join_commas
wb_batch_rank_suffix kind character_id ranks =
    codes "wb:"
    ++ to_string character_id
    ++ codes ":"
    ++ kind
    ++ codes ":ranks:"
    ++ join_commas (map to_string ranks)
