-- ===== src/Tools/Named.antt =====
-- CHECK_TOPIC and CHECK_PARTITION on a key that they let pass.
use mykafka.Prelude.{ℕ, ◌≡◌, ◌≢◌, refl, false, none, List, [], ◌∷◌}
use mykafka.Prelude.Int.{pos, ltb_ℤ}
use mykafka.Config.Keys.{Key}
use mykafka.Tools.Lines.{check_topic, check_partition}

-- The programs take the topic and the partition.
pub record IsNamed (key : Key) : Type 0 where
  pub topic : key.topic ≢ []
  pub partition : ltb_ℤ key.partition (pos 0) ≡ false

pub check_topic-IsNamed : (key : Key) → IsNamed key → check_topic key.topic ≡ none
unfolding check_topic
check_topic-IsNamed key named = given key.topic named.topic
  where
    given : (t : List ℕ) → t ≢ [] → check_topic t ≡ none
    given [] ne = absurd (ne refl)
    given (c ∷ t) ne = refl

pub check_partition-IsNamed : (key : Key) → IsNamed key → check_partition key.partition ≡ none
unfolding check_partition
check_partition-IsNamed key named = rw named.partition refl
