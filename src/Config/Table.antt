-- ===== src/Config/Table.antt =====
-- ConfigManager::get, update, updateCommitOffset and size.
use mykafka.Prelude.{ℕ, Bool, false, not, ◌&&◌, Option, none, some, List, if◌then◌else◌, length}
use mykafka.Prelude.Int.{ℤ, pos, to_int32}
use mykafka.Prelude.Bytes.{int64_bytes}
use mykafka.Error.{not_found, ok, err, fault, Exec}
use mykafka.Segment.State.{is_empty}
use mykafka.Config.Keys.{Key, key_name}
use mykafka.Config.State.{
  RawInfo, CfgInfo, ConfigFile, ConfigManager, raw_bytes, store_bytes, find_file, change_file,
  find_config, set_config,
}

unfoldable pub get : Key → Exec ConfigManager RawInfo
get key m = elim (find_config key m.configs) [ none ↦ (err not_found, m) | some c ↦ (ok c.info, m) ]

-- Is there memory to store to, at the address of an entry?
unfoldable pub is_backed : CfgInfo → Option ConfigFile → Bool
is_backed c none = false
is_backed c (some f) = c.mapped && not (is_empty f.content)

-- A store through the address of an entry, and the entry with the information that was stored.
unfoldable pub store : Key → ℕ → List ℕ → RawInfo → CfgInfo → Exec ConfigManager Unit
unfolding is_backed
store key q bytes info c m =
    if is_backed c (find_file (key_name key) m.dir)
    then (
      ok tt,
      record {
        configs = set_config key (record c { info = info }) m.configs;
        dir = change_file (key_name key) (store_bytes q bytes) m.dir;
      },
    )
    else (fault, m)

unfoldable pub update : Key → RawInfo → Exec ConfigManager Unit
unfolding store
update key info m = elim (find_config key m.configs) [
  | none ↦ (err not_found, m)
  | some c ↦ store key 0 (raw_bytes info) info c m
]

unfoldable pub update_commit_offset : Key → ℤ → Exec ConfigManager Unit
unfolding store
update_commit_offset key commit_offset m = elim (find_config key m.configs) [
  | none ↦ (err not_found, m)
  | some c ↦
      store key 24 (int64_bytes commit_offset) (record c.info { commit_offset = commit_offset }) c m
]

unfoldable pub size : ConfigManager → ℤ
size m = to_int32 (pos (length m.configs))
