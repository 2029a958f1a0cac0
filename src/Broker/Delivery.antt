-- ===== src/Broker/Delivery.antt =====
-- A message that was sent can be fetched.
use mykafka.Prelude.{
  ℕ, ◌<◌, ◌≡◌, refl, ap, ◌∙◌, ◌⊎◌, inl, inr, true, false, some, List, [], ◌∷◌, ◌++◌, arith, length,
  if◌then◌else◌,
}
use mykafka.Prelude.Int.{ℤ, pos, ltb_ℤ}
use mykafka.Error.{success, no_message, Outcome, ok}
use mykafka.Env.{calm}
use mykafka.Names.{print_offset}
use mykafka.Index.{absent}
use mykafka.Index.Opening.{default_entries}
use mykafka.Segment.State.{no_log}
use mykafka.Segment.Layout.{Payload}
use mykafka.Segment.Holds.{Fits}
use mykafka.Partition.State.{Partition, stored_log, stored_index}
use mykafka.Partition.Write
use mykafka.Partition.Read
use mykafka.Partition.Chunks.{Chunk, next_base}
use mykafka.Partition.Reads.{HoldsAll}
use mykafka.Partition.Writes.{fullness, extended, following}
use mykafka.Partition.History.{answer_behind}
use mykafka.Partition.Appends.{Appended, write-Appended_kept, write-Appended_rolled}
use mykafka.Config.Keys.{Key}
use mykafka.Config.State.{RawInfo, ConfigManager}
use mykafka.Config.Table.{update_commit_offset}
use mykafka.Config.Holds
use mykafka.Config.Holds.{same_key_refl, get-Holds, update_commit_offset-Holds}
use mykafka.Broker.State.{Broker, find_topic, set_topic}
use mykafka.Broker.Messages.{
  GetResponse, send_message, sent, respond, get_message, message_up_to, message_of,
}

-- The table has an open partition for the key, which holds chunks, and a configuration.
pub record Serves (key : Key) (cs : List Chunk) (p : Partition) (info : RawInfo) (b : Broker)
    : Type 0 where
  pub found : find_topic key b.topics ≡ some p
  pub holds : HoldsAll cs p
  pub configured : Holds.Holds key info b.config

-- The message fits the active segment, which is not full; or that is full and has a message, there
-- are no limits of time and size, no files under the next offset, and the message fits a new one.
abbrev pub CanWrite : Chunk → Payload → Partition → Type 0
CanWrite c payload p =
    ((fullness p ≡ ok false) × Fits c.base default_entries (c.messages ++ payload ∷ []))
    ⊎ ((fullness p ≡ ok true)
        × (stored_log (print_offset (pos (next_base c))) p.dir ≡ no_log)
        × (stored_index (print_offset (pos (next_base c))) p.dir ≡ absent)
        × Fits (next_base c) default_entries (payload ∷ [])
        × (p.segment_ttl ≡ pos 0)
        × (p.max_partition_size ≡ pos 0)
        × (0 < length c.messages))

-- What a consumer is told behind the message, by what the partition answered before.
abbrev pub delivery : ℕ → Payload → ℤ → Outcome (Unit {0}) × Payload → Outcome GetResponse
delivery n payload target old =
    if ltb_ℤ (pos n) target
    then ok (record { code = no_message; payload = [] })
    else message_of (answer_behind n payload target old)

write-Appended :
    (now : ℤ) (payload : Payload) (cs : List Chunk) (c : Chunk) (p : Partition)
    → HoldsAll (cs ++ c ∷ []) p
    → CanWrite c payload p
    → (p' : Partition) × (ds : List Chunk) × (Write.write calm now payload p
        ≡ (ok (pos (next_base c)), p'))
      × HoldsAll ds p'
      × Appended (next_base c) payload p p'
write-Appended now payload cs c p h (inl (room, fits)) =
    let (p', e, h', a) = write-Appended_kept now payload cs c p h room fits in
    (p', cs ++ extended c payload ∷ [], e, h', a)
write-Appended now payload cs c p h (inr (full, log, index, fits, ttl, max_size, some_message)) =
    let (p', e, h', a) =
      write-Appended_rolled now payload cs c p h log index fits full ttl max_size some_message in
    (p', (cs ++ c ∷ []) ++ following c payload ∷ [], e, h', a)

pub find_topic-set_topic :
    (key : Key) (p q : Partition) (topics : List (Key × Partition))
    → find_topic key topics ≡ some q
    → find_topic key (set_topic key p topics) ≡ some p
unfolding find_topic set_topic
find_topic-set_topic key p q [] h = absurd (ground arith)
find_topic-set_topic key p q ((k, r) ∷ topics) h =
    ground (arith, find_topic-set_topic key p q topics)

-- A fetch, by the configuration and the partition.
pub get_message-Serves :
    (key : Key) (cs : List Chunk) (p : Partition) (info : RawInfo) (b : Broker) (target : ℤ)
    → Serves key cs p info b
    → get_message calm key target b ≡ (
        if ltb_ℤ info.commit_offset target
        then ok (record { code = no_message; payload = [] })
        else message_of (Read.read_at calm p [] target))
unfolding get_message message_up_to
get_message-Serves key cs p info b target h =
    rw (get-Holds key info b.config h.configured, get_message, h.found, message_up_to) refl

pub sends :
    (key : Key) (p p' : Partition) (b : Broker) (now : ℤ) (payload : Payload) (n : ℤ)
    (config : ConfigManager)
    → find_topic key b.topics ≡ some p
    → Write.write calm now payload p ≡ (ok n, p')
    → update_commit_offset key n b.config ≡ (ok tt, config)
    → send_message calm now key payload b ≡ (
      ok (record { code = success; offset = n }),
      record b { topics = set_topic key p' b.topics; config = config },
    )
unfolding send_message sent respond
sends key p p' b now payload n config found e committed = ground (arith, found, e, committed)

-- When no call fails, sending a message to a broker that serves the topic and partition from
-- ascending chunks, the last of which has room for it or is full, in which case there are no
-- limits of time and size, no files under the next offset, and a message in it and the message
-- fits a new segment, succeeds and answers the offset behind the last message. The broker then
-- serves the partition with this commit offset, and a fetch answers NO_MESSAGE for every later
-- offset, the message for its own offset, and for every other one what the partition answered
-- before.
pub send_message-delivery :
    (key : Key) (cs : List Chunk) (c : Chunk) (p : Partition) (info : RawInfo) (b : Broker)
    (now : ℤ) (payload : Payload)
    → Serves key (cs ++ c ∷ []) p info b
    → CanWrite c payload p
    → (p' : Partition) × (ds : List Chunk) × (b' : Broker) × (send_message calm now key payload b
        ≡ (ok (record { code = success; offset = pos (next_base c) }), b'))
      × Serves key ds p' (record info { commit_offset = pos (next_base c) }) b'
      × ((target : ℤ)
          → get_message calm key target b'
            ≡ delivery (next_base c) payload target (Read.read_at calm p [] target))
send_message-delivery key cs c p info b now payload h can =
    let (p', ds, e, h', appended) = write-Appended now payload cs c p h.holds can in
    let (config, committed, held) =
      update_commit_offset-Holds key info b.config h.configured (pos (next_base c)) in
    let b' = record b { topics = set_topic key p' b.topics; config = config } in
    let served : Serves key ds p' (record info { commit_offset = pos (next_base c) }) b' = record {
      found = find_topic-set_topic key p' p b.topics h.found;
      holds = h';
      configured = held;
    } in
    (
      p',
      ds,
      b',
      sends key p p' b now payload (pos (next_base c)) config h.found e committed,
      served,
      λ target.
          get_message-Serves key ds p' (record info { commit_offset = pos (next_base c) }) b' target
            served
          ∙ ap
              (λ a.
                if ltb_ℤ (pos (next_base c)) target
                then ok (record { code = no_message; payload = [] })
                else message_of a)
              (appended [] target),
    )
