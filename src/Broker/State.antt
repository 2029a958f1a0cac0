-- ===== src/Broker/State.antt =====
-- broker/Broker.hh: the state of a broker, and its table.
use mykafka.Prelude.{
  ℕ, suc, Bool, true, false, Option, none, some, List, [], ◌∷◌, if◌then◌else◌, length,
}
use mykafka.Prelude.Int.{ℤ, pos, to_int32}
use mykafka.Env.{Env}
use mykafka.Names.{Text, same_text}
use mykafka.Segment.State.{Segment}
use mykafka.Partition.State.{Partition, Stored, put_back}
use mykafka.Partition.Close
use mykafka.Config.Keys.{Key, same_key}
use mykafka.Config.State.{ConfigManager}

-- A directory under the base path that no partition of the table has, by its name.
pub record Directory : Type 0 where
  pub name : Text
  pub files : List Stored

-- class Broker: `topics_`, in the order in which it is walked, the configurations, and the disk.
-- The members of PartitionInfo other than the partition are not used.
pub record Broker : Type 0 where
  pub base_path : Text
  pub topics : List (Key × Partition)
  pub config : ConfigManager
  pub disk : List Directory

-- topics_.find
unfoldable pub find_topic : Key → List (Key × Partition) → Option Partition
find_topic key [] = none
find_topic key ((k, p) ∷ topics) =
    let rest = find_topic key topics in if same_key k key then some p else rest

-- The partition of a key that is there has changed.
unfoldable pub set_topic : Key → Partition → List (Key × Partition) → List (Key × Partition)
set_topic key p [] = []
set_topic key p ((k, q) ∷ topics) =
    let rest = set_topic key p topics in if same_key k key then (k, p) ∷ topics else (k, q) ∷ rest

-- topics_.erase
unfoldable pub erase_topic : Key → List (Key × Partition) → List (Key × Partition)
erase_topic key [] = []
erase_topic key ((k, p) ∷ topics) =
    let rest = erase_topic key topics in if same_key k key then topics else (k, p) ∷ rest

unfoldable pub files_under : Text → List Directory → List Stored
files_under name [] = []
files_under name (d ∷ disk) =
    let rest = files_under name disk in if same_text d.name name then d.files else rest

unfoldable pub without : Text → List Directory → List Directory
without name [] = []
without name (d ∷ disk) =
    let rest = without name disk in if same_text d.name name then disk else d ∷ rest

-- What the directory of a partition has when its object is gone: the destructor closes it, and drops
-- the error.
unfoldable pub put_back_all : List Segment → List Stored → List Stored
put_back_all [] dir = dir
put_back_all (s ∷ segments) dir = put_back_all segments (put_back s dir)

unfoldable pub left_behind : Env → Partition → List Stored
unfolding put_back_all
left_behind env p = let p' = (Close.close env p).1 in put_back_all p'.segments p'.dir

-- nbPartitions and nbTopics
unfoldable pub nb_partitions : Broker → ℤ
nb_partitions b = to_int32 (pos (length b.topics))

unfoldable pub has_topic : Text → List (Key × Partition) → Bool
has_topic topic [] = false
has_topic topic ((k, p) ∷ topics) =
    let rest = has_topic topic topics in if same_text k.topic topic then true else rest

unfoldable pub count_topics : List (Key × Partition) → ℕ
unfolding has_topic
count_topics [] = 0
count_topics ((k, p) ∷ topics) =
    let rest = count_topics topics in if has_topic k.topic topics then rest else suc rest

unfoldable pub nb_topics : Broker → ℤ
unfolding count_topics
nb_topics b = to_int32 (pos (count_topics b.topics))
