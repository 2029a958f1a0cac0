-- ===== src/Config/Others.antt =====
-- What an update of one key leaves of the others.
use mykafka.Prelude.{
  ℕ, ◌^◌, ◌<◌, ◌≡◌, refl, sym, ap, ◌∙◌, true, false, Bool-cases, inl, inr, some, List, [], ◌∷◌,
  arith, subst,
}
use mykafka.Prelude.Int.{pos}
use mykafka.Error.{ok}
use mykafka.Names.{Text, same_text, same_text→eq}
use mykafka.Config.Keys.{Key, same_key, key_name, parse_key}
use mykafka.Config.State.{
  RawInfo, CfgInfo, ConfigFile, ConfigManager, raw_bytes, store_bytes, find_file, change_file,
  find_config, set_config,
}
use mykafka.Config.Table.{update}
use mykafka.Config.Holds.{Holds, same_key_refl, same_key→eq, with_info, update-with_info}
use mykafka.Config.Parsing.{parse_key-key_name}

-- A key as the name of a file tells it: its partition is an int32_t that is not negative.
abbrev pub numbered : Text → ℕ → Key
numbered topic n = record { topic = topic; partition = pos n }

-- Two such keys with the same name are the same.
key_name-numbered :
    (s t : Text) (m n : ℕ)
    → m < 2 ^ 31
    → n < 2 ^ 31
    → key_name (numbered s m) ≡ key_name (numbered t n)
    → numbered s m ≡ numbered t n
key_name-numbered s t m n lm ln e =
    let same : some (numbered s m) ≡ some (numbered t n) =
      sym (parse_key-key_name s m lm) ∙ ap parse_key e ∙ parse_key-key_name t n ln in
    ground (arith, same)

names_differ :
    (s t : Text) (m n : ℕ)
    → m < 2 ^ 31
    → n < 2 ^ 31
    → same_key (numbered s m) (numbered t n) ≡ false
    → same_text (key_name (numbered s m)) (key_name (numbered t n)) ≡ false
names_differ s t m n lm ln other =
    elim (Bool-cases (same_text (key_name (numbered s m)) (key_name (numbered t n)))) [
      | inr differ ↦ differ
      | inl same ↦
          let e =
            key_name-numbered s t m n lm ln
              (same_text→eq (key_name (numbered s m)) (key_name (numbered t n)) same) in
          let r : same_key (numbered s m) (numbered t n) ≡ true =
            subst (λ k. same_key (numbered s m) k ≡ true) e (same_key_refl (numbered s m)) in
          absurd (ground (arith, r, other))
    ]

find_config-other :
    (key other : Key) (c : CfgInfo) (configs : List (Key × CfgInfo))
    → same_key key other ≡ false
    → find_config other (set_config key c configs) ≡ find_config other configs
unfolding find_config set_config
find_config-other key other c [] h = refl
find_config-other key other c ((k, d) ∷ configs) h = elim (Bool-cases (same_key k key)) [
  | inl same ↦
      let e = same_key→eq k key same in
      let skip : same_key k other ≡ false = subst (λ x. same_key x other ≡ false) (sym e) h in
      ground (arith, same, skip)
  | inr differ ↦ ground (arith, differ, find_config-other key other c configs h)
]

find_file-other :
    (name other : Text) (change : List ℕ → List ℕ) (dir : List ConfigFile)
    → same_text name other ≡ false
    → find_file other (change_file name change dir) ≡ find_file other dir
unfolding find_file change_file
find_file-other name other change [] h = refl
find_file-other name other change (f ∷ dir) h = elim (Bool-cases (same_text f.stem name)) [
  | inl same ↦
      let e = same_text→eq f.stem name same in
      let skip : same_text f.stem other ≡ false =
        subst (λ x. same_text x other ≡ false) (sym e) h in
      ground (arith, same, skip)
  | inr differ ↦ ground (arith, differ, find_file-other name other change dir h)
]

-- An update of an open configuration leaves every other one as it was.
module _ (s t : Text) (m n : ℕ) (lm : m < 2 ^ 31) (ln : n < 2 ^ 31)
    (differ : same_key (numbered s m) (numbered t n) ≡ false) where
  with_info-Holds :
      (i new : RawInfo) (change : List ℕ → List ℕ) (c : ConfigManager)
      → Holds (numbered t n) i c
      → Holds (numbered t n) i (with_info (numbered s m) new change c)
  with_info-Holds i new change c h = record {
    listed = find_config-other (numbered s m) (numbered t n) _ c.configs differ ∙ h.listed;
    stored =
        find_file-other (key_name (numbered s m)) (key_name (numbered t n)) change c.dir
          (names_differ s t m n lm ln differ)
        ∙ h.stored;
  }

  -- Updating an open configuration succeeds, and the table and the file then both hold the new
  -- one, while an open configuration of another key still is what it was, in the table and in its
  -- file, if both partitions are numbers from 0 to 2^31 - 1.
  pub update-Holds_other :
      (old i new : RawInfo) (c : ConfigManager)
      → Holds (numbered s m) old c
      → Holds (numbered t n) i c
      → (c' : ConfigManager) × (update (numbered s m) new c ≡ (ok tt, c'))
        × Holds (numbered s m) new c'
        × Holds (numbered t n) i c'
  update-Holds_other old i new c h k =
      let (e, h') = update-with_info (numbered s m) old c h new in
      (
        with_info (numbered s m) new (store_bytes 0 (raw_bytes new)) c,
        e,
        h',
        with_info-Holds i new (store_bytes 0 (raw_bytes new)) c k,
      )
