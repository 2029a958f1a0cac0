-- ===== src/Tests/ConfigRuns.antt =====
-- Runs and instances for the configuration manager.
use mykafka.Prelude.{◌≡◌, refl, true, false, none, some, [], ◌∷◌, arith}
use mykafka.Prelude.Int.{pos, negsuc}
use mykafka.Error.{ok}
use mykafka.Env.{calm}
use mykafka.Names
use mykafka.Names.{Text, same_text}
use mykafka.Config.Keys.{
  Key, same_key, key_name, print_int32, digits, split_at_dash, parse_key, read_key, entry_stem,
  last_part, has_slash, up_to_nul, strip_cfg,
}
use mykafka.Config.State.{RawInfo, ConfigManager, find_file, find_config}
use mykafka.Config.Open.{create, open_key, new_info}
use mykafka.Config.Table.{get, update, update_commit_offset}
use mykafka.Index.{valid}
use mykafka.Config.Others.{update-Holds_other}
use mykafka.Config.Holds.{Holds, file_of, create-Holds}
use mykafka.Config.Parsing.{IsFileName, read_key-key_name}
use mykafka.Config.Sessions.{restarted, commit-restarted}

-- The topic "t-x", partition 12.
abbrev pub key : Key
key = record { topic = b't' ∷ b'-' ∷ b'x' ∷ []; partition = pos 12 }

abbrev empty : ConfigManager
empty = record { configs = []; dir = [] }

names : Unit {0}
unfolding key_name print_int32 digits split_at_dash parse_key read_key entry_stem last_part
    has_slash up_to_nul strip_cfg same_text Names.strtoll Names.only_zeros Names.read_digits
    find_file find_config
names = tt

run_name : key_name key ≡ b't' ∷ b'-' ∷ b'x' ∷ b'-' ∷ b'1' ∷ b'2' ∷ []
unfolding names
run_name = refl

-- A negative partition comes back as another topic.
run_negative :
    parse_key (key_name (record { topic = b't' ∷ []; partition = negsuc 0 }))
    ≡ some (record { topic = b't' ∷ b'-' ∷ []; partition = pos 1 })
unfolding names
run_negative = refl

no_file : find_file (key_name key) [] ≡ none
unfolding names
no_file = refl

absent : find_config key [] ≡ none
unfolding names
absent = refl

pub created :
    (m : ConfigManager) × (create calm key (pos 4096) (pos 0) (pos 0) empty ≡ (ok tt, m))
    × Holds key (new_info (pos 4096) (pos 0) (pos 0)) m
created = create-Holds key (pos 4096) (pos 0) (pos 0) empty no_file absent

commit-restarted_example :
    (m1 m2 m3 : ConfigManager) × (create calm key (pos 4096) (pos 0) (pos 0) empty ≡ (ok tt, m1))
    × (update_commit_offset key (pos 5) m1 ≡ (ok tt, m2))
    × (open_key calm key (restarted m2) ≡ (ok tt, m3))
    × (get key m3
        ≡ (ok (record (new_info (pos 4096) (pos 0) (pos 0)) { commit_offset = pos 5 }), m3))
commit-restarted_example =
    commit-restarted key (pos 4096) (pos 0) (pos 0) (pos 5) empty no_file absent (omega arith)
      (omega arith) (omega arith) (omega arith)

key-IsFileName : IsFileName key.topic
key-IsFileName = (
  λ e. omega arith,
  λ e. omega arith,
  (λ e. omega arith, λ e. omega arith, (λ e. omega arith, λ e. omega arith, tt)),
)

-- A topic with a slash comes back as another one: the entry is the last part of the path.
run_slash :
    read_key (key_name (record { topic = b'.' ∷ b'/' ∷ b'a' ∷ []; partition = pos 0 }))
    ≡ some (record { topic = b'a' ∷ []; partition = pos 0 })
unfolding names
run_slash = refl

read_key-key_name_example : read_key (key_name key) ≡ some key
read_key-key_name_example = read_key-key_name key.topic 12 key-IsFileName (omega arith)

abbrev other : Key
other = record { topic = b't' ∷ []; partition = pos 3 }

-- A manager with two configurations, given as it is in memory and on disk.
abbrev info : RawInfo
info = new_info (pos 4096) (pos 0) (pos 0)

abbrev pair : ConfigManager
pair = record {
  configs =
      (key, record { fd = valid; mapped = true; info = info })
      ∷ ((other, record { fd = valid; mapped = true; info = info }) ∷ []);
  dir = file_of key info ∷ (file_of other info ∷ []);
}

lookups : Unit {0}
unfolding names same_key same_text
lookups = tt

pair-Holds : Holds key info pair
unfolding lookups
pair-Holds = record { listed = refl; stored = refl }

pair-Holds_other : Holds other info pair
unfolding lookups
pair-Holds_other = record { listed = refl; stored = refl }

keys_differ : same_key key other ≡ false
unfolding lookups
keys_differ = refl

update-Holds_other_example :
    (c' : ConfigManager) × (update key (new_info (pos 1) (pos 2) (pos 3)) pair ≡ (ok tt, c'))
    × Holds key (new_info (pos 1) (pos 2) (pos 3)) c'
    × Holds other info c'
update-Holds_other_example =
    update-Holds_other key.topic other.topic 12 3 (omega arith) (omega arith) keys_differ info info
      (new_info (pos 1) (pos 2) (pos 3)) pair pair-Holds pair-Holds_other
