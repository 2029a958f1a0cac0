-- ===== src/Tests/BrokerRuns.antt =====
-- Instances for the broker.
use mykafka.Prelude.{◌≡◌, refl, inl, none, true, false, List, [], ◌∷◌, arith, some}
use mykafka.Prelude.Int.{ℤ, pos}
use mykafka.Error.{success, not_found, file_error, topic_error, ok, err}
use mykafka.Env.{calm}
use mykafka.Partition.State.{Partition}
use mykafka.Partition.Read
use mykafka.Partition.Chunks.{Chunk}
use mykafka.Partition.Reads.{HoldsAll}
use mykafka.Config.State.{RawInfo, ConfigFile, find_file, find_config, erase_config, remove_file}
use mykafka.Config.Keys.{Key, key_name, same_key}
use mykafka.Config.Open.{new_info}
use mykafka.Config.Holds.{same_key_refl}
use mykafka.Broker.State.{Broker, find_topic, erase_topic, files_under}
use mykafka.Broker.Messages.{send_message, get_message, get_offsets}
use mykafka.Broker.Offsets.{get_offsets-Serves}
use mykafka.Broker.Delivery.{Serves, delivery, send_message-delivery}
use mykafka.Broker.Create.{TopicRequest, create_partition, load}
use mykafka.Broker.Delete.{close, delete_partition}
use mykafka.Broker.Deletion.{Once, delete_partition-Serves}
use mykafka.Broker.Restart.{one_key, one_info, with_one, with_one-Serves, restarted, close-load}
use mykafka.Config.Bytes.{InRange}
use mykafka.Broker.Creation.{create_partition-Serves, create_partition-stays}
use mykafka.Partition.Fresh.{first_chunk}
use mykafka.Names.{Text, same_text_refl}
use mykafka.Tests.PartitionRuns.{partition, partition-HoldsAll, room, chunk, test}
use mykafka.Tests.ConfigRuns.{key, created}

abbrev config : RawInfo
config = new_info (pos 4096) (pos 0) (pos 0)

abbrev broker : Broker
broker = record {
  base_path = b'd' ∷ [];
  topics = (key, partition (pos 4096)) ∷ [];
  config = created.0;
  disk = [];
}

found_there : find_topic key broker.topics ≡ some (partition (pos 4096))
unfolding find_topic
found_there = rw (same_key_refl key) refl

broker-Serves : Serves key (chunk ∷ []) (partition (pos 4096)) config broker
broker-Serves = record {
  found = found_there;
  holds = partition-HoldsAll (pos 4096);
  configured = created.2;
}

send_message-delivery_example :
    (p' : Partition) × (ds : List Chunk) × (b' : Broker) × (send_message calm
        (pos 3)
        key
        test
        broker
      ≡ (ok (record { code = success; offset = pos 9 }), b'))
    × Serves key ds p' (record config { commit_offset = pos 9 }) b'
    × ((target : ℤ)
        → get_message calm key target b'
          ≡ delivery 9 test target (Read.read_at calm (partition (pos 4096)) [] target))
send_message-delivery_example =
    send_message-delivery key [] chunk (partition (pos 4096)) config broker (pos 3) test
      broker-Serves (inl (room, omega arith))

-- A broker without topics, and one with a configuration file that was left.
abbrev pub empty : Broker
empty = record {
  base_path = b'd' ∷ [];
  topics = [];
  config = record { configs = []; dir = [] };
  disk = [];
}

abbrev left_file : ConfigFile
left_file = record { stem = key_name key; regular = true; content = [] }

abbrev with_file : Broker
with_file = record empty { config = record { configs = []; dir = left_file ∷ [] } }

abbrev pub request : TopicRequest
request = record {
  key = key;
  max_segment_size = pos 4096;
  max_partition_size = pos 0;
  segment_ttl = pos 0;
}

tables : Unit {0}
unfolding find_topic files_under find_file find_config
tables = tt

pub no_topic : find_topic key [] ≡ none
unfolding tables
no_topic = refl

pub no_directory : files_under (key_name key) [] ≡ []
unfolding tables
no_directory = refl

pub no_file : find_file (key_name key) [] ≡ none
unfolding tables
no_file = refl

pub no_config : find_config key [] ≡ none
unfolding tables
no_config = refl

file_there : find_file (key_name key) (left_file ∷ []) ≡ some left_file
unfolding tables
file_there = rw (same_text_refl (key_name key)) refl

create_partition-Serves_example :
    (p : Partition) × (b' : Broker) × (create_partition calm (pos 3) request empty ≡ (ok tt, b'))
    × Serves key (first_chunk ∷ []) p config b'
create_partition-Serves_example =
    create_partition-Serves (pos 3) request empty no_topic no_directory no_file no_config

create_partition-stays_example :
    (p : Partition) × (b' : Broker) × (create_partition calm (pos 3) request with_file
      ≡ (err file_error, b'))
    × (find_topic key b'.topics ≡ some p)
    × (create_partition calm (pos 3) request b' ≡ (err topic_error, b'))
create_partition-stays_example =
    create_partition-stays (pos 3) request with_file no_topic no_directory left_file file_there

get_offsets-Serves_example :
    get_offsets key broker
    ≡ ok (record {
      code = success;
      first_offset = pos 7;
      commit_offset = config.commit_offset;
      last_offset = pos 8;
    })
get_offsets-Serves_example =
    get_offsets-Serves key [] chunk (partition (pos 4096)) config broker broker-Serves

abbrev topic : Text
topic = b't' ∷ []

-- A broker that has one partition and its configuration, in directory d.
abbrev single : Broker
single = with_one (b'd' ∷ []) topic 3 (pos 4096) (pos 8) (partition (pos 4096))

in_range : InRange (one_info (b'd' ∷ []) topic 3 (pos 4096) (pos 8))
in_range = record {
  max_segment_size = omega arith;
  max_partition_size = omega arith;
  segment_ttl = omega arith;
  commit_offset = omega arith;
}

close-load_example :
    (b : Broker) × (q : Partition) × (close calm single ≡ (ok tt, b))
    × (load calm (pos 5) (restarted b) ≡ (ok tt, with_one (b'd' ∷ []) topic 3 (pos 4096) (pos 8) q))
    × HoldsAll (chunk ∷ []) q
    × (q.dir ≡ [])
    × (q.freed ≡ false)
    × Serves
        (one_key (b'd' ∷ []) topic 3 (pos 4096) (pos 8))
        (chunk ∷ [])
        q
        (one_info (b'd' ∷ []) topic 3 (pos 4096) (pos 8))
        (with_one (b'd' ∷ []) topic 3 (pos 4096) (pos 8) q)
    × ((target : ℤ)
        → get_message calm
            (one_key (b'd' ∷ []) topic 3 (pos 4096) (pos 8))
            target
            (with_one (b'd' ∷ []) topic 3 (pos 4096) (pos 8) q)
          ≡ get_message calm (one_key (b'd' ∷ []) topic 3 (pos 4096) (pos 8)) target single)
close-load_example =
    close-load (b'd' ∷ []) topic 3 (pos 4096) (pos 8) (λ e. omega arith, λ e. omega arith, tt)
      (omega arith) in_range chunk [] (partition (pos 4096)) (pos 5) (partition-HoldsAll (pos 4096))
      refl refl

-- In that broker the key is there once.
abbrev single_key : Key
single_key = one_key (b'd' ∷ []) topic 3 (pos 4096) (pos 8)

once : Once single_key single
unfolding find_topic erase_topic find_config erase_config find_file remove_file files_under
once = record {
  topic = rw (same_key_refl single_key) refl;
  config = rw (same_key_refl single_key) refl;
  file = rw (same_text_refl (key_name single_key)) refl;
  directory = refl;
}

single-Serves :
    Serves single_key
      (chunk ∷ [])
      (partition (pos 4096))
      (one_info (b'd' ∷ []) topic 3 (pos 4096) (pos 8))
      single
single-Serves =
    with_one-Serves (b'd' ∷ []) topic 3 (pos 4096) (pos 8) (λ e. omega arith, λ e. omega arith, tt)
      (omega arith) in_range (chunk ∷ []) (partition (pos 4096)) (partition-HoldsAll (pos 4096))

delete_partition-Serves_example :
    (b' : Broker) × (delete_partition calm single_key single ≡ (ok tt, b'))
    × ((target : ℤ)
        → get_message calm single_key target b' ≡ ok (record { code = not_found; payload = [] }))
    × ((other : Key) (target : ℤ)
        → same_key single_key other ≡ false
        → get_message calm other target b' ≡ get_message calm other target single)
    × ((now segment_size partition_size ttl : ℤ)
        → (q : Partition) × (b'' : Broker) × (create_partition calm now
              (record {
                key = single_key;
                max_segment_size = segment_size;
                max_partition_size = partition_size;
                segment_ttl = ttl;
              })
              b'
            ≡ (ok tt, b''))
          × Serves single_key (first_chunk ∷ []) q (new_info segment_size partition_size ttl) b'')
delete_partition-Serves_example =
    delete_partition-Serves single_key (chunk ∷ []) (partition (pos 4096))
      (one_info (b'd' ∷ []) topic 3 (pos 4096) (pos 8)) single single-Serves refl once
