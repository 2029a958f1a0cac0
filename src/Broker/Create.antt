-- ===== src/Broker/Create.antt =====
-- Broker::createAndAddNewPartition, createPartition and load.
use mykafka.Prelude.{none, some, List, [], ◌∷◌, ◌++◌}
use mykafka.Prelude.Int.{ℤ}
use mykafka.Error.{topic_error, Outcome, ok, err, Exec, pure, gets, ◌>>=◌, ◌>>◌}
use mykafka.Env.{Env, sub}
use mykafka.Names.{Text}
use mykafka.Partition.State
use mykafka.Partition.State.{Partition}
use mykafka.Partition.Open.{open_partition}
use mykafka.Config.Keys.{Key, key_name}
use mykafka.Config.State.{CfgInfo, ConfigManager}
use mykafka.Config.Open.{create}
use mykafka.Config.Load
use mykafka.Broker.State.{Broker, find_topic, files_under, without, left_behind}

-- TopicPartitionRequest
pub record TopicRequest : Type 0 where
  pub key : Key
  pub max_segment_size : ℤ
  pub max_partition_size : ℤ
  pub segment_ttl : ℤ

-- base_path_ + "/" + topic + "-" + partition
unfoldable pub partition_path : Broker → Key → Text
partition_path b key = b.base_path ++ b'/' ∷ key_name key

-- A partition that opened joins the table; the object of another is gone.
unfoldable pub added : Env → Key → Outcome (Unit {0}) × Partition → Exec Broker Unit
added env key (ok _, p) b =
    (ok tt, record b { topics = (key, p) ∷ b.topics; disk = without (key_name key) b.disk })
added env key (r, p) b = (
  r,
  record b {
    disk =
        record { name = key_name key; files = left_behind env p } ∷ without (key_name key) b.disk;
  },
)

-- `key` is not in the table: `createPartition` tests it, and `load` is called on an empty table.
unfoldable pub create_and_add_new_partition : Env → ℤ → TopicRequest → Exec Broker Unit
unfolding added partition_path
create_and_add_new_partition env now request b =
    added (sub env 2) request.key
      (open_partition (sub env 1) now (
        State.new (partition_path b request.key) request.max_segment_size request.max_partition_size
          request.segment_ttl (files_under (key_name request.key) b.disk)))
      b

-- A call of a method of `config_manager_`.
unfoldable pub on_config : {A : Type 0} → Exec ConfigManager A → Exec Broker A
on_config m b = let (r, config) = m b.config in (r, record b { config = config })

unfoldable pub create_new : Env → ℤ → TopicRequest → Exec Broker Unit
unfolding create_and_add_new_partition on_config
create_new env now request = do
  create_and_add_new_partition (sub env 1) now request
  on_config (
      create (sub env 2) request.key request.max_segment_size request.max_partition_size
        request.segment_ttl)

unfoldable pub create_partition : Env → ℤ → TopicRequest → Exec Broker Unit
unfolding create_new
create_partition env now request b = elim (find_topic request.key b.topics) [
  | some _ ↦ (err topic_error, b)
  | none ↦ create_new env now request b
]

unfoldable pub load_configs : Env → ℤ → List (Key × CfgInfo) → Exec Broker Unit
load_configs env now [] = pure tt
load_configs env now ((key, c) ∷ configs) = do
  create_and_add_new_partition (sub env 1) now (record {
    key = key;
    max_segment_size = c.info.max_segment_size;
    max_partition_size = c.info.max_partition_size;
    segment_ttl = c.info.segment_ttl;
  })
  load_configs (sub env 2) now configs

unfoldable pub load : Env → ℤ → Exec Broker Unit
unfolding load_configs
load env now = do
  on_config (Load.load (sub env 1))
  configs ← gets (λ b. b.config.configs)
  load_configs (sub env 2) now configs
