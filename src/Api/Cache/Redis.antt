-- ===== src/Api/Cache/Redis.antt =====
-- src/api/cache.rs: the Redis side of the cache of one event. The texts of the epoch and of the
-- dirty mark are fields of their own; every other key is in `strings`. Lua's `..` writes a number
-- below 10 ^ 14 in decimal; the epoch counts updates, and is taken to stay below it.
use haruki_event_tracker.Prelude.{
  ℕ, ◌+◌, nat_beq, ℤ, pos, beq_ℤ, Bool, true, false, not, ◌++◌, Option, none, some, if◌then◌else◌,
  list_eq, nat_eq,
}
use haruki_event_tracker.Prelude.HashMap
use haruki_event_tracker.Prelude.HashMap.{HashMap, is_some}
use haruki_event_tracker.Prelude.Text.{Text, codes, to_string}
use haruki_event_tracker.Api.Cache.Keys.{base_key, value_key}

pub record Redis : Type 0 where
  pub epoch : Option ℕ
  pub dirty : Bool
  pub strings : HashMap Text Text

pub data L2CombinedRead : Type 0 where
  dirty : ℤ → L2CombinedRead
  hit : ℤ → Text → Text → L2CombinedRead
  not_found : ℤ → L2CombinedRead
  miss : ℤ → Text → L2CombinedRead

pub data L2ValueRead : Type 0 where
  hit : Text → L2ValueRead
  not_found : L2ValueRead
  miss : L2ValueRead

pub record Reply : Type 0 where
  pub epoch : ℕ
  pub dirty : ℕ
  pub value : Text
  pub negative : ℕ
  pub has_value : ℕ

-- A missing epoch is 0.
abbrev pub current_epoch : Redis → ℕ
current_epoch r = elim r.epoch [ none ↦ 0 | some e ↦ e ]

abbrev pub flag : Bool → ℕ
flag b = if b then 1 else 0

-- The end of `READ_SCRIPT`, once the value is looked up.
abbrev pub reply_with : ℕ → Option Text → Bool → Reply
reply_with epoch (some value) negative = record {
  epoch = epoch;
  dirty = 0;
  value = value;
  negative = 0;
  has_value = 1;
}
reply_with epoch none negative = record {
  epoch = epoch;
  dirty = 0;
  value = codes "";
  negative = flag negative;
  has_value = 0;
}

-- `base .. ':v' .. epoch .. ':' .. suffix`
abbrev pub script_key : Text → ℕ → Text → Text
script_key base epoch suffix = base ++ (codes ":v" ++ to_string (pos epoch) ++ codes ":" ++ suffix)

unfoldable pub read_script : Redis → Text → Text → Reply
unfolding HashMap.get
read_script r base suffix =
    let epoch = current_epoch r in
    if r.dirty
    then record { epoch = epoch; dirty = 1; value = codes ""; negative = 0; has_value = 0 }
    else reply_with epoch (HashMap.get (script_key base epoch suffix) r.strings)
        (HashMap.contains_key (script_key base epoch suffix ++ codes ":not_found") r.strings)

-- `read_l2_combined`, from the script's reply.
abbrev pub read_of : Text → ℤ → Text → Reply → L2CombinedRead
read_of server event_id suffix reply =
    if not (nat_beq reply.dirty 0)
    then L2CombinedRead.dirty (pos reply.epoch)
    else if not (nat_beq reply.has_value 0)
    then L2CombinedRead.hit (pos reply.epoch) (value_key server event_id (pos reply.epoch) suffix)
        reply.value
    else if not (nat_beq reply.negative 0)
    then L2CombinedRead.not_found (pos reply.epoch)
    else L2CombinedRead.miss (pos reply.epoch) (value_key server event_id (pos reply.epoch) suffix)

unfoldable pub read_l2_combined : Text → ℤ → Redis → Text → L2CombinedRead
unfolding read_script
read_l2_combined server event_id r suffix =
    read_of server event_id suffix (read_script r (base_key server event_id) suffix)

unfoldable pub read_l2_value : Redis → Text → L2ValueRead
read_l2_value r key = elim (HashMap.get key r.strings) [
  | some bytes ↦ L2ValueRead.hit bytes
  | none ↦
      if HashMap.contains_key (key ++ codes ":not_found") r.strings
      then L2ValueRead.not_found
      else L2ValueRead.miss
]

-- `WRITE_SCRIPT`: nothing is written for another epoch or beside a dirty mark.
unfoldable pub write_l2_if_clean : ℤ → Text → Text → Redis → Bool × Redis
unfolding HashMap.insert
write_l2_if_clean epoch key value r =
    if not (beq_ℤ (pos (current_epoch r)) epoch)
    then (false, r)
    else if r.dirty
    then (false, r)
    else (true, record r { strings = HashMap.insert key value r.strings })

unfoldable pub begin_event_update : Redis → Redis
begin_event_update r = record r { dirty = true }

-- The two commands of the pipe of `finish_event_update`, which Redis runs one after the other and
-- not as one: `INCR` of the epoch, and `DEL` of the mark.
unfoldable pub incr_epoch : Redis → Redis
incr_epoch r = record r { epoch = some (current_epoch r + 1) }

unfoldable pub del_dirty : Redis → Redis
del_dirty r = record r { dirty = false }
