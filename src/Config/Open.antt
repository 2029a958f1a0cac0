-- ===== src/Config/Open.antt =====
-- ConfigManager::create and ConfigManager::open.
use mykafka.Prelude.{
  ℕ, Bool, true, false, not, Option, none, some, List, [], ◌∷◌, replicate, if◌then◌else◌,
}
use mykafka.Prelude.Int.{ℤ, negsuc}
use mykafka.Error.{
  file_error, file_not_found, Outcome, ok, fault, Exec, lift, gets, guard, modify, ◌>>=◌, ◌>>◌,
}
use mykafka.Env.{Env, sys}
use mykafka.Index.{valid}
use mykafka.Segment.State.{is_empty}
use mykafka.Config.Keys.{Key, key_name}
use mykafka.Config.State.{
  RawInfo, ConfigFile, ConfigManager, raw_size, raw_bytes, raw_of, mapped_bytes, store_bytes,
  find_file, change_file, insert_config,
}

-- fs::exists and fs::is_regular of a name in the directory
abbrev pub exists : Option ConfigFile → Bool
exists none = false
exists (some _) = true

abbrev pub is_regular : Option ConfigFile → Bool
is_regular none = false
is_regular (some f) = f.regular

-- A call that changes the bytes of the file of a key.
unfoldable pub on_file : Key → (List ℕ → List ℕ) → Exec ConfigManager Unit
on_file key change = modify (λ m. record m { dir = change_file (key_name key) change m.dir })

-- A new entry of the table.
unfoldable pub insert : Key → RawInfo → Exec ConfigManager Unit
insert key info = modify (λ m. record m {
  configs = insert_config key (record { fd = valid; mapped = true; info = info }) m.configs;
})

-- {seg_size, part_size, ttl, -1}
unfoldable pub new_info : ℤ → ℤ → ℤ → RawInfo
new_info seg_size part_size ttl = record {
  max_segment_size = seg_size;
  max_partition_size = part_size;
  segment_ttl = ttl;
  commit_offset = negsuc 0;
}

-- An error behind the creation of the file leaves the file: each exit has the code FILE_ERROR,
-- whether its ::close fails or not.
unfoldable pub create : Env → Key → ℤ → ℤ → ℤ → Exec ConfigManager Unit
unfolding on_file insert
create env key seg_size part_size ttl = do
  found ← gets (λ m. find_file (key_name key) m.dir)
  guard (not (exists found)) file_error
  sys env 1 file_error
  modify
      (λ m. record m { dir = record { stem = key_name key; regular = true; content = [] } ∷ m.dir })
  sys env 2 file_error
  sys env 3 file_error
  on_file key (λ _. replicate raw_size 0)
  sys env 4 file_error
  sys env 5 file_error
  sys env 6 file_error
  on_file key (store_bytes 0 (raw_bytes (new_info seg_size part_size ttl)))
  insert key (new_info seg_size part_size ttl)

-- What the mapped memory of a file holds; an empty file has no page.
unfoldable pub load_info : Option ConfigFile → Outcome RawInfo
load_info none = fault
load_info (some f) = if is_empty f.content then fault else ok (raw_of (mapped_bytes f.content))

unfoldable pub open_key : Env → Key → Exec ConfigManager Unit
unfolding load_info insert
open_key env key = do
  found ← gets (λ m. find_file (key_name key) m.dir)
  guard (is_regular found) file_not_found
  sys env 1 file_error
  sys env 2 file_error
  info ← lift (load_info found)
  insert key info
