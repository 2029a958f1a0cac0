-- ===== src/Broker/Delete.antt =====
-- Broker::deletePartition, deleteTopic and close.
use mykafka.Prelude.{none, some, List, [], ◌∷◌, if◌then◌else◌}
use mykafka.Error.{topic_error, Outcome, ok, err, Exec}
use mykafka.Env.{Env, sub}
use mykafka.Names.{Text, same_text}
use mykafka.Partition.State.{Partition}
use mykafka.Partition.Close
use mykafka.Config.Keys.{Key}
use mykafka.Config.State.{ConfigManager}
use mykafka.Config.Close as ConfigClose
use mykafka.Broker.State.{Broker, find_topic, set_topic, erase_topic}

-- What `deletePartition` does behind that of the partition.
unfoldable pub deleted : Env → Key → Outcome (Unit {0}) × Partition → Exec Broker Unit
deleted env key (ok _, p) b =
    let (r, config) = ConfigClose.remove env key b.config in
    (r, record b { topics = erase_topic key b.topics; config = config })
deleted env key (r, p) b = (r, record b { topics = set_topic key p b.topics })

unfoldable pub delete_partition : Env → Key → Exec Broker Unit
unfolding deleted
delete_partition env key b = elim (find_topic key b.topics) [
  | none ↦ (err topic_error, b)
  | some p ↦ deleted (sub env 2) key (Close.delete_partition (sub env 1) p) b
]

-- The state of the loop of `deleteTopic`: how it goes on, the entries, and the configurations.
abbrev pub Passed : Type 0
Passed = Outcome (Unit {0}) × List (Key × Partition) × ConfigManager

-- The rest of the loop behind an entry that was deleted; at an error the rest is left.
unfoldable pub pass_on :
    (ConfigManager → Passed)
    → Outcome (Unit {0})
    → Key
    → Partition
    → List (Key × Partition)
    → ConfigManager
    → Passed
pass_on next (ok _) key p topics config =
    let (r, rest, config') = next config in (r, (key, p) ∷ rest, config')
pass_on next r key p topics config = (r, (key, p) ∷ topics, config)

-- The configuration is removed if the partition was deleted.
unfoldable pub remove_after : Env → Key → Outcome (Unit {0}) → Exec ConfigManager Unit
remove_after env key (ok _) config = ConfigClose.remove env key config
remove_after env key r config = (r, config)

unfoldable pub delete_loop : Env → Text → List (Key × Partition) → ConfigManager → Passed
unfolding pass_on remove_after
delete_loop env topic [] config = (ok tt, [], config)
delete_loop env topic ((key, p) ∷ topics) config =
    let next = delete_loop (sub env 3) topic topics in
    let (r, p') = Close.delete_partition (sub env 1) p in
    let (r', config') = remove_after (sub env 2) key r config in
    if same_text key.topic topic
    then pass_on next r' key p' topics config'
    else pass_on next (ok tt) key p topics config

-- The entries of `delete_list`, all those of the topic, are erased at the end.
unfoldable pub erase_all : Text → List (Key × Partition) → List (Key × Partition)
erase_all topic [] = []
erase_all topic ((key, p) ∷ topics) =
    let rest = erase_all topic topics in if same_text key.topic topic then rest else (key, p) ∷ rest

unfoldable pub erased : Text → Passed → Exec Broker Unit
unfolding erase_all
erased topic (ok _, topics, config) b =
    (ok tt, record b { topics = erase_all topic topics; config = config })
erased topic (r, topics, config) b = (r, record b { topics = topics; config = config })

unfoldable pub delete_topic : Env → Text → Exec Broker Unit
unfolding delete_loop erased
delete_topic env topic b = erased topic (delete_loop env topic b.topics b.config) b

unfoldable pub close_loop :
    Env → List (Key × Partition) → Outcome (Unit {0}) × List (Key × Partition)
close_loop env [] = (ok tt, [])
close_loop env ((key, p) ∷ topics) =
    let (r, p') = Close.close (sub env 1) p in
    let (r', rest) = close_loop (sub env 2) topics in
    elim r [ ok _ ↦ (r', (key, p') ∷ rest) | bad ↦ (bad, (key, p') ∷ topics) ]

-- `close` closes the configurations behind all partitions.
unfoldable pub closed : Env → Outcome (Unit {0}) × List (Key × Partition) → Exec Broker Unit
closed env (ok _, topics) b =
    let (r, config) = ConfigClose.close env b.config in
    (r, record b { topics = topics; config = config })
closed env (r, topics) b = (r, record b { topics = topics })

unfoldable pub close : Env → Exec Broker Unit
unfolding close_loop closed
close env b = closed (sub env 2) (close_loop (sub env 1) b.topics) b
