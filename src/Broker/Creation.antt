-- ===== src/Broker/Creation.antt =====
-- What createPartition makes of a broker.
use mykafka.Prelude.{◌≡◌, refl, inl, inr, none, some, List, [], ◌∷◌, arith}
use mykafka.Prelude.Int.{ℤ}
use mykafka.Error.{file_error, topic_error, ok, err}
use mykafka.Env.{calm}
use mykafka.Partition.State
use mykafka.Partition.State.{Partition, fill_files_list, listed, sort, stored_log, stored_index}
use mykafka.Partition.Sizes.{Keeps}
use mykafka.Partition.Reads.{HoldsAll}
use mykafka.Partition.Opens.{StoresChunk}
use mykafka.Partition.Fresh.{first_chunk, open_partition-fresh}
use mykafka.Config.Keys.{Key, key_name}
use mykafka.Config.State.{ConfigFile, find_file, find_config}
use mykafka.Config.Open.{create, new_info}
use mykafka.Config.Holds.{create-Holds, same_key_refl}
use mykafka.Broker.State.{Broker, find_topic, files_under, without}
use mykafka.Broker.Create.{
  TopicRequest, partition_path, added, create_and_add_new_partition, create_new, create_partition,
  on_config,
}
use mykafka.Broker.Delivery.{Serves}

no_listing : fill_files_list [] ≡ []
unfolding fill_files_list listed sort
no_listing = refl

stores_nothing : StoresChunk [] first_chunk
unfolding stored_log stored_index
stores_nothing = record { logged = inr (refl, refl); sane = inl refl; fits = omega arith }

find_topic-head :
    (key : Key) (p : Partition) (topics : List (Key × Partition))
    → find_topic key ((key, p) ∷ topics) ≡ some p
unfolding find_topic
find_topic-head key p topics = rw (same_key_refl key) refl

-- The object of the partition before it opens, when no file has its name.
unfoldable pub new_partition : TopicRequest → Broker → Partition
unfolding State.new
new_partition request b =
    State.new (partition_path b request.key) request.max_segment_size request.max_partition_size
      request.segment_ttl []

module _ (now : ℤ) (request : TopicRequest) (b : Broker)
    (unknown : find_topic request.key b.topics ≡ none)
    (no_files : files_under (key_name request.key) b.disk ≡ []) where
  -- The table behind the creation of the partition.
  abbrev pub with_topic : Partition → Broker
  with_topic p = record b {
    topics = (request.key, p) ∷ b.topics;
    disk = without (key_name request.key) b.disk;
  }

  opens :
      (p : Partition) × (create_and_add_new_partition calm now request b ≡ (ok tt, with_topic p))
      × HoldsAll (first_chunk ∷ []) p
      × Keeps (new_partition request b) p
  unfolding create_and_add_new_partition added new_partition
  opens =
      let (p, e, h, keeps) =
        open_partition-fresh now (new_partition request b) no_listing refl refl stores_nothing in
      (p, rw (no_files, e) refl, h, keeps)

  module _ (no_file : find_file (key_name request.key) b.config.dir ≡ none)
      (absent : find_config request.key b.config.configs ≡ none) where
    pub create_partition-new :
        (p : Partition) × (b' : Broker) × (create_partition calm now request b ≡ (ok tt, b'))
        × Serves request.key
            (first_chunk ∷ [])
            p
            (new_info request.max_segment_size request.max_partition_size request.segment_ttl)
            b'
        × Keeps (new_partition request b) p
    unfolding create_partition create_new on_config
    create_partition-new =
        let (p, e, h, keeps) = opens in
        let (config, created, held) =
          create-Holds request.key request.max_segment_size request.max_partition_size
            request.segment_ttl b.config no_file absent in
        (
          p,
          record (with_topic p) { config = config },
          ground (arith, unknown, e, created),
          record { found = find_topic-head request.key p b.topics; holds = h; configured = held },
          keeps,
        )

    -- When no call fails, creating a partition whose topic and number are in no table and have no
    -- files succeeds, and the broker then serves it, with one chunk from offset 0 without
    -- messages and a configuration of the given numbers and the commit offset -1.
    pub create_partition-Serves :
        (p : Partition) × (b' : Broker) × (create_partition calm now request b ≡ (ok tt, b'))
        × Serves request.key
            (first_chunk ∷ [])
            p
            (new_info request.max_segment_size request.max_partition_size request.segment_ttl)
            b'
    create_partition-Serves = let (p, b', e, serves, _) = create_partition-new in (p, b', e, serves)

  -- A file that is left fails the request, and the partition stays.
  create-exists :
      (f : ConfigFile)
      → find_file (key_name request.key) b.config.dir ≡ some f
      → create calm request.key request.max_segment_size request.max_partition_size
          request.segment_ttl b.config
        ≡ (err file_error, b.config)
  unfolding create
  create-exists f there = rw there refl

  -- If a configuration file of that name is left while the table has no such partition and the
  -- disk no files of it, creating the partition fails with FILE_ERROR although no call fails, yet
  -- the table has the partition then, and creating it again fails with TOPIC_ERROR.
  pub create_partition-stays :
      (f : ConfigFile)
      → find_file (key_name request.key) b.config.dir ≡ some f
      → (p : Partition) × (b' : Broker) × (create_partition calm now request b
          ≡ (err file_error, b'))
        × (find_topic request.key b'.topics ≡ some p)
        × (create_partition calm now request b' ≡ (err topic_error, b'))
  unfolding create_partition create_new on_config
  create_partition-stays f there =
      let (p, e, h, _) = opens in
      (
        p,
        with_topic p,
        ground (arith, unknown, e, create-exists f there),
        find_topic-head request.key p b.topics,
        rw (find_topic-head request.key p b.topics, create_partition) refl,
      )
