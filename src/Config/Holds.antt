-- ===== src/Config/Holds.antt =====
-- A configuration that is open, in the table and on disk, and the operations on it.
use mykafka.Prelude.{
  ℕ, ◌≡◌, refl, ap, ap₂, ◌∙◌, true, false, not, length, replicate, none, some, List, [], ◌∷◌, arith,
  Bool-cases, inl, inr,
}
use mykafka.Prelude.Int.{ℤ, eqb_ℤ_refl, eqb_ℤ→eq}
use mykafka.Prelude.Bytes.{int64_bytes}
use mykafka.Error.{ok}
use mykafka.Env.{calm}
use mykafka.Names.{Text, same_text, same_text_refl, same_text→eq}
use mykafka.Index.{valid}
use mykafka.Segment.State.{is_empty}
use mykafka.Config.Keys.{Key, same_key, key_name}
use mykafka.Config.State.{
  RawInfo, CfgInfo, ConfigFile, ConfigManager, raw_bytes, store_bytes, find_file, change_file,
  raw_size, find_config, set_config, insert_config,
}
use mykafka.Config.Open.{create, open_key, new_info, load_info, on_file, insert}
use mykafka.Config.Table.{get, update, update_commit_offset, store, is_backed}
use mykafka.Config.Bytes.{
  InRange, length-raw_bytes, raw_of-raw_bytes, store_bytes-whole, store_bytes-commit_offset,
}

abbrev pub file_of : Key → RawInfo → ConfigFile
file_of key info = record { stem = key_name key; regular = true; content = raw_bytes info }

-- The file of a key holds a configuration.
abbrev pub Stores : Key → RawInfo → ConfigManager → Type 0
Stores key info m = find_file (key_name key) m.dir ≡ some (file_of key info)

-- The table has it too, mapped.
pub record Holds (key : Key) (info : RawInfo) (m : ConfigManager) : Type 0 where
  pub listed : find_config key m.configs ≡ some (record { fd = valid; mapped = true; info = info })
  pub stored : Stores key info m

abbrev key_of : Text → ℤ → Key
key_of t n = record { topic = t; partition = n }

pub same_key_refl : (key : Key) → same_key key key ≡ true
unfolding same_key
same_key_refl key = ground (arith, same_text_refl key.topic, eqb_ℤ_refl key.partition)

pub same_key→eq : (k l : Key) → same_key k l ≡ true → k ≡ l
unfolding same_key
same_key→eq k l h =
    ap₂ (λ t n. key_of t n) {x = k.topic} {y = l.topic} {u = k.partition} {v = l.partition}
      (same_text→eq k.topic l.topic (ground (arith, h)))
      (eqb_ℤ→eq k.partition l.partition (ground (arith, h)))

-- Finding what was set, and the rest as before.
find_config-set_config :
    (key : Key) (c d : CfgInfo) (configs : List (Key × CfgInfo))
    → find_config key configs ≡ some d
    → find_config key (set_config key c configs) ≡ some c
unfolding find_config set_config
find_config-set_config key c d [] h = absurd (ground arith)
find_config-set_config key c d ((k, e) ∷ configs) h = elim (Bool-cases (same_key k key)) [
  | inl same ↦ ground (arith, same)
  | inr other ↦ ground (arith, other, find_config-set_config key c d configs)
]

find_config-insert_config :
    (key : Key) (c : CfgInfo) (configs : List (Key × CfgInfo))
    → find_config key configs ≡ none
    → find_config key (insert_config key c configs) ≡ some c
unfolding find_config insert_config
find_config-insert_config key c configs h = ground (arith, h, same_key_refl key)

find_file-change_file :
    (name : Text) (change : List ℕ → List ℕ) (dir : List ConfigFile) (f : ConfigFile)
    → find_file name dir ≡ some f
    → find_file name (change_file name change dir) ≡ some (record f { content = change f.content })
unfolding find_file change_file
find_file-change_file name change [] f h = absurd (ground arith)
find_file-change_file name change (g ∷ dir) f h = elim (Bool-cases (same_text g.stem name)) [
  | inl same ↦ ground (arith, same)
  | inr other ↦ ground (arith, other, find_file-change_file name change dir f)
]

abbrev pub with_info : Key → RawInfo → (List ℕ → List ℕ) → ConfigManager → ConfigManager
with_info key info change m = record {
  configs = set_config key (record { fd = valid; mapped = true; info = info }) m.configs;
  dir = change_file (key_name key) change m.dir;
}

is_empty-length : (l : List ℕ) → length l ≡ 32 → is_empty l ≡ false
is_empty-length [] h = absurd (omega arith)
is_empty-length (b ∷ l) h = refl

backed :
    (key : Key) (info : RawInfo) (m : ConfigManager)
    → Stores key info m
    → is_backed (record { fd = valid; mapped = true; info = info }) (find_file (key_name key) m.dir)
      ≡ true
unfolding is_backed
backed key info m stored =
    ap (is_backed (record { fd = valid; mapped = true; info = info })) stored
    ∙ ap not (is_empty-length (raw_bytes info) (length-raw_bytes info))

-- A store that makes the bytes of `new` of those of `old`.
store-Holds :
    (key : Key) (q : ℕ) (bytes : List ℕ) (old new : RawInfo) (m : ConfigManager)
    → Holds key old m
    → store_bytes q bytes (raw_bytes old) ≡ raw_bytes new
    → (store key q bytes new (record { fd = valid; mapped = true; info = old }) m
        ≡ (ok tt, with_info key new (store_bytes q bytes) m))
      × Holds key new (with_info key new (store_bytes q bytes) m)
unfolding store
store-Holds key q bytes old new m h e = (
  rw (backed key old m h.stored) refl,
  record {
    listed = find_config-set_config key _ _ m.configs h.listed;
    stored =
        find_file-change_file (key_name key) (store_bytes q bytes) m.dir (file_of key old) h.stored
        ∙ ap (λ b. some (record (file_of key old) { content = b })) e;
  },
)

module _ (key : Key) (info : RawInfo) (m : ConfigManager) (h : Holds key info m) where
  -- get hands over what the table holds.
  pub get-Holds : get key m ≡ (ok info, m)
  unfolding get
  get-Holds = rw (h.listed, get) refl

  pub update-with_info :
      (new : RawInfo)
      → (update key new m ≡ (ok tt, with_info key new (store_bytes 0 (raw_bytes new)) m))
        × Holds key new (with_info key new (store_bytes 0 (raw_bytes new)) m)
  unfolding update
  update-with_info new =
      let (e, h') =
        store-Holds key 0 (raw_bytes new) info new m h
          (store_bytes-whole new (raw_bytes info) (length-raw_bytes info)) in
      (rw (h.listed, update) e, h')

  -- Updating an open configuration succeeds, and the table and the file then both hold the new
  -- one.
  pub update-Holds :
      (new : RawInfo) → (m' : ConfigManager) × (update key new m ≡ (ok tt, m')) × Holds key new m'
  update-Holds new =
      let (e, h') = update-with_info new in
      (with_info key new (store_bytes 0 (raw_bytes new)) m, e, h')

  -- updateCommitOffset replaces the commit offset alone.
  pub update_commit_offset-Holds :
      (o : ℤ)
      → (m' : ConfigManager) × (update_commit_offset key o m ≡ (ok tt, m'))
        × Holds key (record info { commit_offset = o }) m'
  unfolding update_commit_offset
  update_commit_offset-Holds o =
      let (e, h') =
        store-Holds key 24 (int64_bytes o) info (record info { commit_offset = o }) m h
          (store_bytes-commit_offset info o) in
      (
        with_info key (record info { commit_offset = o }) (store_bytes 24 (int64_bytes o)) m,
        rw (h.listed, update_commit_offset) e,
        h',
      )

found_first : (f : ConfigFile) (dir : List ConfigFile) → find_file f.stem (f ∷ dir) ≡ some f
unfolding find_file
found_first f dir = rw (same_text_refl f.stem) refl

loaded : (key : Key) (info : RawInfo) → InRange info → load_info (some (file_of key info)) ≡ ok info
unfolding load_info
loaded key info range =
    rw (is_empty-length (raw_bytes info) (length-raw_bytes info))
      (ap ok (raw_of-raw_bytes info range))

-- The table behind `open`.
abbrev pub with_key : Key → RawInfo → ConfigManager → ConfigManager
with_key key info m = record m {
  configs = insert_config key (record { fd = valid; mapped = true; info = info }) m.configs;
}

pub open_key-with_key :
    (key : Key) (info : RawInfo) (m : ConfigManager)
    → Stores key info m
    → InRange info
    → open_key calm key m ≡ (ok tt, with_key key info m)
unfolding open_key insert
open_key-with_key key info m stored range = ground (arith, stored, loaded key info range)

-- When no call fails, opening the file of a key that the table lacks brings back what is stored.
pub open_key-Holds :
    (key : Key) (info : RawInfo) (m : ConfigManager)
    → Stores key info m
    → InRange info
    → find_config key m.configs ≡ none
    → (m' : ConfigManager) × (open_key calm key m ≡ (ok tt, m')) × Holds key info m'
open_key-Holds key info m stored range absent = (
  with_key key info m,
  open_key-with_key key info m stored range,
  record { listed = find_config-insert_config key _ m.configs absent; stored = stored },
)

-- When no call fails, creating a configuration that neither the directory nor the table has
-- succeeds, and the table and the file then hold the given numbers and the commit offset -1.
pub create-Holds :
    (key : Key) (seg_size part_size ttl : ℤ) (m : ConfigManager)
    → find_file (key_name key) m.dir ≡ none
    → find_config key m.configs ≡ none
    → (m' : ConfigManager) × (create calm key seg_size part_size ttl m ≡ (ok tt, m'))
      × Holds key (new_info seg_size part_size ttl) m'
unfolding create on_file insert
create-Holds key seg_size part_size ttl m no_file absent =
    let name = key_name key in
    let info = new_info seg_size part_size ttl in
    let empty : ConfigFile = record { stem = name; regular = true; content = [] } in
    let zeros = replicate raw_size 0 in
    let dir = change_file name (λ _. zeros) (empty ∷ m.dir) in
    (
      record {
        configs = insert_config key (record { fd = valid; mapped = true; info = info }) m.configs;
        dir = change_file name (store_bytes 0 (raw_bytes info)) dir;
      },
      rw no_file refl,
      record {
        listed = find_config-insert_config key _ m.configs absent;
        stored =
            find_file-change_file name (store_bytes 0 (raw_bytes info)) dir _ (
              find_file-change_file name (λ _. zeros) (empty ∷ m.dir) empty
                (found_first empty m.dir))
            ∙ ap (λ b. some (record empty { content = b })) (store_bytes-whole info zeros refl);
      },
    )
