-- ===== src/Broker/Deletion.antt =====
-- Broker::deletePartition.
use mykafka.Prelude.{
  ◌≡◌, refl, sym, ap, ◌∙◌, Bool, true, false, Bool-cases, inl, inr, none, List, [], ◌∷◌, arith,
}
use mykafka.Prelude.Int.{ℤ}
use mykafka.Error.{not_found, ok}
use mykafka.Env.{calm}
use mykafka.Segment.State.{Segment}
use mykafka.Segment.Closing.{close-stores}
use mykafka.Partition.State.{Partition, Stored, put_back}
use mykafka.Partition.Close as PartitionClose
use mykafka.Partition.Chunks.{Chunk, AllHold}
use mykafka.Partition.Fresh.{first_chunk}
use mykafka.Partition.Reopening.{emptied, cancelled, close_loop-step, close_whole}
use mykafka.Config.Keys.{Key, key_name, same_key}
use mykafka.Config.State.{
  RawInfo, CfgInfo, ConfigManager, find_file, remove_file, find_config, erase_config,
}
use mykafka.Config.Close as ConfigClose
use mykafka.Config.Open.{new_info}
use mykafka.Config.Table.{get}
use mykafka.Config.Holds
use mykafka.Config.Holds.{same_key→eq, same_key_refl}
use mykafka.Broker.State.{Broker, find_topic, erase_topic, files_under}
use mykafka.Broker.Create.{create_partition}
use mykafka.Broker.Creation.{create_partition-Serves}
use mykafka.Broker.Delete.{delete_partition, deleted}
use mykafka.Broker.Messages.{get_message, message_up_to}
use mykafka.Broker.Delivery.{Serves}

close_loop-emptied :
    (cs : List Chunk) (segments : List Segment) (freed : Bool) (p : Partition)
    → AllHold cs segments
    → (dir : List Stored) × (PartitionClose.close_loop calm segments freed p
        ≡ (ok tt, emptied p dir))
unfolding PartitionClose.close_loop
close_loop-emptied [] [] freed p all = (p.dir, refl)
close_loop-emptied [] (s ∷ rest) freed p all = absurd all
close_loop-emptied (c ∷ cs) [] freed p all = absurd all
close_loop-emptied (c ∷ cs) (s ∷ rest) freed p (h, all) =
    let (s', e, _, _, _, _, gone) = close-stores h.holds in
    let (dir, run) = close_loop-emptied cs rest true (record p { dir = put_back s' p.dir }) all in
    (dir, close_loop-step s s' rest freed p e gone ∙ run)

-- The partition behind its deletion.
abbrev bare : Partition → Partition
bare p = emptied (cancelled p) []

delete-bare :
    (cs : List Chunk) (p : Partition)
    → AllHold cs p.segments
    → p.freed ≡ false
    → PartitionClose.delete_partition calm p ≡ (ok tt, bare p)
unfolding PartitionClose.delete_partition PartitionClose.remove_all
delete-bare cs p all whole =
    let (dir, run) = close_loop-emptied cs p.segments false (cancelled p) all in
    ground (arith, close_whole p whole, run)

abbrev removed : Key → ConfigManager → ConfigManager
removed key m = record {
  configs = erase_config key m.configs;
  dir = remove_file (key_name key) m.dir;
}

remove-removed :
    (key : Key) (info : RawInfo) (m : ConfigManager)
    → Holds.Holds key info m
    → ConfigClose.remove calm key m ≡ (ok tt, removed key m)
unfolding ConfigClose.remove ConfigClose.close_key ConfigClose.close_info ConfigClose.closed
    ConfigClose.remove_cfg
remove-removed key info m h = ground (arith, h.listed)

-- The other keys stay.
find_topic-erase_topic :
    (key other : Key) (topics : List (Key × Partition))
    → same_key key other ≡ false
    → find_topic other (erase_topic key topics) ≡ find_topic other topics
unfolding find_topic erase_topic
find_topic-erase_topic key other [] apart = refl
find_topic-erase_topic key other ((k, p) ∷ topics) apart = elim (Bool-cases (same_key k key)) [
  | inl same ↦ rw same (sym (rw (ap (λ x. same_key x other) (same_key→eq k key same) ∙ apart) refl))
  | inr differ ↦ ground (arith, differ, find_topic-erase_topic key other topics apart)
]

find_config-erase_config :
    (key other : Key) (configs : List (Key × CfgInfo))
    → same_key key other ≡ false
    → find_config other (erase_config key configs) ≡ find_config other configs
unfolding find_config erase_config
find_config-erase_config key other [] apart = refl
find_config-erase_config key other ((k, p) ∷ configs) apart = elim (Bool-cases (same_key k key)) [
  | inl same ↦ rw same (sym (rw (ap (λ x. same_key x other) (same_key→eq k key same) ∙ apart) refl))
  | inr differ ↦ ground (arith, differ, find_config-erase_config key other configs apart)
]

-- The key is in the tables once, and no other directory and file has its name.
pub record Once (key : Key) (b : Broker) : Type 0 where
  pub topic : find_topic key (erase_topic key b.topics) ≡ none
  pub config : find_config key (erase_config key b.config.configs) ≡ none
  pub file : find_file (key_name key) (remove_file (key_name key) b.config.dir) ≡ none
  pub directory : files_under (key_name key) b.disk ≡ []

abbrev without_key : Key → Broker → Broker
without_key key b = record b { topics = erase_topic key b.topics; config = removed key b.config }

delete_partition-without_key :
    (key : Key) (cs : List Chunk) (p : Partition) (info : RawInfo) (b : Broker)
    → Serves key cs p info b
    → p.freed ≡ false
    → delete_partition calm key b ≡ (ok tt, without_key key b)
unfolding delete_partition deleted
delete_partition-without_key key cs p info b h whole = ground (
  arith,
  h.found,
  delete-bare cs p h.holds.all whole,
  remove-removed key info b.config h.configured,
)

get_message-same :
    (key : Key) (target : ℤ) (b b' : Broker)
    → find_config key b'.config.configs ≡ find_config key b.config.configs
    → find_topic key b'.topics ≡ find_topic key b.topics
    → get_message calm key target b' ≡ get_message calm key target b
unfolding get_message message_up_to get
get_message-same key target b b' c t = ground (arith, c, t)

get_message-none :
    (key : Key) (target : ℤ) (b : Broker)
    → find_config key b.config.configs ≡ none
    → get_message calm key target b ≡ ok (record { code = not_found; payload = [] })
unfolding get_message get
get_message-none key target b c = ground (arith, c)

-- When no call fails, deletePartition of a key that the broker serves from chunks of messages,
-- which it has once in its tables, with no other directory or configuration file of its name, and
-- whose partition no close that failed has left with deleted segments, succeeds: a fetch from it
-- then answers NOT_FOUND, a fetch from each other key answers what it did before, and
-- createPartition of the key, with any limits, succeeds again and serves it with one chunk from
-- offset 0 without messages.
pub delete_partition-Serves :
    (key : Key) (cs : List Chunk) (p : Partition) (info : RawInfo) (b : Broker)
    → Serves key cs p info b
    → p.freed ≡ false
    → Once key b
    → (b' : Broker) × (delete_partition calm key b ≡ (ok tt, b'))
      × ((target : ℤ)
          → get_message calm key target b' ≡ ok (record { code = not_found; payload = [] }))
      × ((other : Key) (target : ℤ)
          → same_key key other ≡ false
          → get_message calm other target b' ≡ get_message calm other target b)
      × ((now segment_size partition_size ttl : ℤ)
          → (q : Partition) × (b'' : Broker) × (create_partition calm now
                (record {
                  key = key;
                  max_segment_size = segment_size;
                  max_partition_size = partition_size;
                  segment_ttl = ttl;
                })
                b'
              ≡ (ok tt, b''))
            × Serves key (first_chunk ∷ []) q (new_info segment_size partition_size ttl) b'')
delete_partition-Serves key cs p info b h whole once = (
  without_key key b,
  delete_partition-without_key key cs p info b h whole,
  λ target. get_message-none key target (without_key key b) once.config,
  λ other target apart.
      get_message-same other target b (without_key key b)
        (find_config-erase_config key other b.config.configs apart)
        (find_topic-erase_topic key other b.topics apart),
  λ now segment_size partition_size ttl.
      create_partition-Serves now
        (record {
          key = key;
          max_segment_size = segment_size;
          max_partition_size = partition_size;
          segment_ttl = ttl;
        })
        (without_key key b) once.topic once.directory once.file once.config,
)
