-- ===== src/Config/Keys.antt =====
-- TopicPartition of utils/ConfigManager.hh, and how ConfigManager::load reads a key from the name of
-- a file.
use mykafka.Prelude.{
  ℕ, zero, suc, ◌+◌, ◌/◌, ◌%◌, Bool, false, not, ◌&&◌, ◌||◌, Option, none, some, [], ◌∷◌, ◌++◌,
  ◌==◌, if◌then◌else◌,
}
use mykafka.Prelude.Int.{ℤ, pos, negsuc, eqb_ℤ, to_int32}
use mykafka.Names.{Text, strtoll, only_zeros, same_text}

-- struct TopicPartition; `partition` is an int32_t
pub record Key : Type 0 where
  pub topic : Text
  pub partition : ℤ

-- operator==
unfoldable pub same_key : Key → Key → Bool
same_key a b = same_text a.topic b.topic && eqb_ℤ a.partition b.partition

-- The decimal digits of a number that has at most `k`.
unfoldable pub digits : ℕ → ℕ → Text
digits zero n = []
digits (suc k) n =
    let front = digits k (n / 10) in (if n / 10 == 0 then [] else front) ++ (48 + n % 10) ∷ []

-- std::to_string of an int32_t, which has at most 10 digits
unfoldable pub print_int32 : ℤ → Text
unfolding digits
print_int32 (pos n) = digits 10 n
print_int32 (negsuc n) = b'-' ∷ digits 10 (suc n)

-- toString
unfoldable pub key_name : Key → Text
unfolding print_int32
key_name key = key.topic ++ b'-' ∷ print_int32 key.partition

-- The texts in front of and behind `find_last_of('-')`.
unfoldable pub split_at_dash : Text → Option (Text × Text)
split_at_dash [] = none
split_at_dash (c ∷ s) = elim (split_at_dash s) [
  | some (front, back) ↦ some (c ∷ front, back)
  | none ↦ if c == b'-' then some ([], s) else none
]

-- The file that a name of one, ".cfg" at its end, leads to: a C string ends at its first NUL, and the
-- last part of the path is the file of the directory.
unfoldable pub up_to_nul : Text → Text
up_to_nul [] = []
up_to_nul (c ∷ s) = let rest = up_to_nul s in if c == 0 then [] else c ∷ rest

unfoldable pub has_slash : Text → Bool
has_slash [] = false
has_slash (c ∷ s) = c == b'/' || has_slash s

unfoldable pub last_part : Text → Text
unfolding has_slash
last_part [] = []
last_part (c ∷ s) = let rest = last_part s in if has_slash (c ∷ s) then rest else c ∷ s

-- The stem of a file with the extension ".cfg".
unfoldable pub strip_cfg : Text → Option Text
strip_cfg [] = none
strip_cfg (c ∷ s) = elim (strip_cfg s) [
  | some t ↦ some (c ∷ t)
  | none ↦ if same_text (c ∷ s) (b'.' ∷ b'c' ∷ b'f' ∷ b'g' ∷ []) then some [] else none
]

-- The stem that `load` finds for a file that was opened under a name.
unfoldable pub entry_stem : Text → Option Text
unfolding up_to_nul last_part strip_cfg
entry_stem name = strip_cfg (last_part (up_to_nul (name ++ b'.' ∷ b'c' ∷ b'f' ∷ b'g' ∷ [])))

-- The key that `load` reads from the stem of a file name, if the file is not skipped.
unfoldable pub parse_key : Text → Option Key
unfolding split_at_dash
parse_key stem = elim (split_at_dash stem) [
  | none ↦ none
  | some (topic, raw_partition) ↦
      let partition = to_int32 (strtoll raw_partition) in
      if eqb_ℤ partition (pos 0) && not (only_zeros raw_partition)
      then none
      else some (record { topic = topic; partition = partition })
]

-- The key that `load` reads from a file that was opened under a name, if it is not skipped.
unfoldable pub read_key : Text → Option Key
unfolding entry_stem parse_key
read_key name = elim (entry_stem name) [ none ↦ none | some stem ↦ parse_key stem ]
