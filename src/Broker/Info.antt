-- ===== src/Broker/Info.antt =====
-- Broker::getTopicInfo and dump, and ConfigManager::dump: the values that are printed, in their order.
use mykafka.Prelude.{List, [], ◌∷◌}
use mykafka.Prelude.Int.{ℤ}
use mykafka.Error.{ErrCode, success, Outcome, ok, err, fault, out_of_fuel}
use mykafka.Partition.State.{Partition}
use mykafka.Partition.Read.{newest_offset, oldest_offset, physical_size}
use mykafka.Config.Keys.{Key}
use mykafka.Config.State.{RawInfo, CfgInfo}
use mykafka.Broker.State.{Broker}

-- A line on a partition; the members of PartitionInfo that are not used are left out.
pub record TopicLine : Type 0 where
  pub key : Key
  pub newest : ℤ
  pub oldest : ℤ
  pub size : ℤ

-- A line on a configuration; the number of the descriptor is left out.
pub record ConfigLine : Type 0 where
  pub key : Key
  pub info : RawInfo

-- BrokerInfoResponse
pub record InfoResponse : Type 0 where
  pub code : ErrCode
  pub topics : List TopicLine
  pub configs : List ConfigLine

abbrev >>= : {A B : Type 0} → Outcome A → (A → Outcome B) → Outcome B
>>= (ok a) f = f a
>>= (err c) f = err c
>>= fault f = fault
>>= out_of_fuel f = out_of_fuel

unfoldable pub topic_line : Key → Partition → Outcome TopicLine
topic_line key p = >>= (newest_offset p) (λ newest.
    >>= (oldest_offset p) (λ oldest.
      ok (record { key = key; newest = newest; oldest = oldest; size = physical_size p })))

unfoldable pub topic_lines : List (Key × Partition) → Outcome (List TopicLine)
unfolding topic_line
topic_lines [] = ok []
topic_lines ((key, p) ∷ topics) =
    >>= (topic_line key p) (λ line. >>= (topic_lines topics) (λ lines. ok (line ∷ lines)))

-- ConfigManager::dump
unfoldable pub config_lines : List (Key × CfgInfo) → List ConfigLine
config_lines [] = []
config_lines ((key, c) ∷ configs) = record { key = key; info = c.info } ∷ config_lines configs

unfoldable pub get_topic_info : Broker → Outcome InfoResponse
unfolding topic_lines config_lines
get_topic_info b = >>= (topic_lines b.topics) (λ lines.
    ok (record { code = success; topics = lines; configs = config_lines b.config.configs }))
