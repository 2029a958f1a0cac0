-- ===== src/Config/State.antt =====
-- utils/ConfigManager.hh: the state of a configuration manager, which owns the directory.
use mykafka.Prelude.{
  ℕ, ◌+◌, Bool, Option, none, some, List, [], ◌∷◌, ◌++◌, if◌then◌else◌, length, take, drop,
  replicate,
}
use mykafka.Prelude.Int.{ℤ}
use mykafka.Prelude.Bytes.{int64_bytes, int64_of}
use mykafka.Names.{Text, same_text}
use mykafka.Index.{Fd}
use mykafka.Config.Keys.{Key, same_key}

-- struct RawInfo
pub record RawInfo : Type 0 where
  pub max_segment_size : ℤ
  pub max_partition_size : ℤ
  pub segment_ttl : ℤ
  pub commit_offset : ℤ

-- struct CfgInfo. `mapped` says that `addr_` is mapped: the memory there is the file of the key.
pub record CfgInfo : Type 0 where
  pub fd : Fd
  pub mapped : Bool
  pub info : RawInfo

-- A file of the directory that has the extension ".cfg"; `stem` is the
-- name that it was opened with, without it.
pub record ConfigFile : Type 0 where
  pub stem : Text
  pub regular : Bool
  pub content : List ℕ

-- class ConfigManager: `configs_`, in the order in which it is walked, and the directory
pub record ConfigManager : Type 0 where
  pub configs : List (Key × CfgInfo)
  pub dir : List ConfigFile

abbrev pub raw_size : ℕ
raw_size = 32

-- The bytes of the packed struct.
unfoldable pub raw_bytes : RawInfo → List ℕ
raw_bytes info =
    int64_bytes info.max_segment_size
    ++ (int64_bytes info.max_partition_size
        ++ (int64_bytes info.segment_ttl ++ int64_bytes info.commit_offset))

unfoldable pub raw_of : List ℕ → RawInfo
raw_of bytes = record {
  max_segment_size = int64_of (take 8 bytes);
  max_partition_size = int64_of (take 8 (drop 8 bytes));
  segment_ttl = int64_of (take 8 (drop 16 bytes));
  commit_offset = int64_of (take 8 (drop 24 bytes));
}

-- Loads and stores through the mapping of a file: memory behind the end of the file is zero, and
-- what is stored there is lost.
abbrev pub mapped_bytes : List ℕ → List ℕ
mapped_bytes content = take raw_size (content ++ replicate raw_size 0)

abbrev pub store_bytes : ℕ → List ℕ → List ℕ → List ℕ
store_bytes q bytes content =
    take (length content) (take q content ++ (bytes ++ drop (q + length bytes) content))

unfoldable pub find_file : Text → List ConfigFile → Option ConfigFile
find_file name [] = none
find_file name (f ∷ dir) =
    let rest = find_file name dir in if same_text f.stem name then some f else rest

unfoldable pub change_file : Text → (List ℕ → List ℕ) → List ConfigFile → List ConfigFile
change_file name change [] = []
change_file name change (f ∷ dir) =
    let rest = change_file name change dir in
    if same_text f.stem name then record f { content = change f.content } ∷ dir else f ∷ rest

unfoldable pub remove_file : Text → List ConfigFile → List ConfigFile
remove_file name [] = []
remove_file name (f ∷ dir) =
    let rest = remove_file name dir in if same_text f.stem name then dir else f ∷ rest

-- configs_.find
unfoldable pub find_config : Key → List (Key × CfgInfo) → Option CfgInfo
find_config key [] = none
find_config key ((k, c) ∷ configs) =
    let rest = find_config key configs in if same_key k key then some c else rest

-- found->second = c
unfoldable pub set_config : Key → CfgInfo → List (Key × CfgInfo) → List (Key × CfgInfo)
set_config key c [] = []
set_config key c ((k, d) ∷ configs) =
    let rest = set_config key c configs in
    if same_key k key then (k, c) ∷ configs else (k, d) ∷ rest

-- configs_.insert: an entry that is there stays
unfoldable pub insert_config : Key → CfgInfo → List (Key × CfgInfo) → List (Key × CfgInfo)
unfolding find_config
insert_config key c configs = elim (find_config key configs) [
  | none ↦ (key, c) ∷ configs
  | some _ ↦ configs
]

-- configs_.erase
unfoldable pub erase_config : Key → List (Key × CfgInfo) → List (Key × CfgInfo)
erase_config key [] = []
erase_config key ((k, c) ∷ configs) =
    let rest = erase_config key configs in if same_key k key then configs else (k, c) ∷ rest
