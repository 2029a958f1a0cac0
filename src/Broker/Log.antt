-- ===== src/Broker/Log.antt =====
-- A topic and partition of a broker as an append-only list of messages.
use mykafka.Prelude.{
  ℕ, ◌≡◌, refl, sym, ap, ◌∙◌, subst, none, some, List, [], ◌∷◌, ◌++◌, arith, length, length-append,
  get_elem?, get_elem?-append_left, get_elem?-append_last, get_elem?-ge, if◌then◌else◌, Option,
}
use mykafka.Prelude.Int.{ℤ, pos, negsuc, ◌-ℤ◌, ltb_ℤ}
use mykafka.Error.{success, no_message, partition_error, Outcome, ok}
use mykafka.Env.{calm}
use mykafka.Segment.Layout.{Payload}
use mykafka.Partition.State.{Partition}
use mykafka.Partition.Read
use mykafka.Partition.Chunks.{Chunk, next_base, message_at, home}
use mykafka.Partition.Sizes.{AllSized}
use mykafka.Partition.Reads.{answer, read_at-answer}
use mykafka.Partition.Fresh.{first_chunk}
use mykafka.Partition.Steady.{Steady, first_offset, Room, write-Steady}
use mykafka.Partition.History.{answer_behind}
use mykafka.Config.Keys.{Key, key_name}
use mykafka.Config.State.{RawInfo, find_file, find_config}
use mykafka.Config.Open.{new_info}
use mykafka.Config.Holds.{update_commit_offset-Holds}
use mykafka.Broker.State.{Broker, find_topic, set_topic, files_under}
use mykafka.Broker.Create.{TopicRequest, create_partition}
use mykafka.Broker.Creation.{new_partition, create_partition-new}
use mykafka.Broker.Messages.{GetResponse, send_message, get_message, message_of, respond}
use mykafka.Broker.Delivery.{Serves, find_topic-set_topic, get_message-Serves, sends}

-- What the list of messages answers to a fetch.
abbrev pub log_message : Option Payload → GetResponse
log_message none = record { code = no_message; payload = [] }
log_message (some m) = record { code = success; payload = m }

abbrev pub log_answer : List Payload → ℤ → Outcome GetResponse
log_answer ms (pos o) = ok (log_message (get_elem? ms o))
log_answer ms (negsuc _) = ok (record { code = partition_error; payload = [] })

-- The broker has the partition, in segments of at most `m` bytes and the last message, without other
-- limits; it answers as the list of messages does.
pub record IsLog (key : Key) (m : ℕ) (ms : List Payload) (b : Broker) : Type 0 where
  pub chunks : List Chunk
  pub last : Chunk
  pub partition : Partition
  pub info : RawInfo
  pub serves : Serves key (chunks ++ last ∷ []) partition info b
  pub steady : Steady m chunks last partition
  pub first : first_offset chunks last ≡ 0
  pub next : next_base last ≡ length ms
  pub committed : info.commit_offset ≡ pos (length ms) -ℤ pos 1
  pub answers : (target : ℤ) → get_message calm key target b ≡ log_answer ms target

abbrev fetched : ℤ → ℤ → Outcome (Unit {0}) × Payload → Outcome GetResponse
fetched commit_offset target read =
    if ltb_ℤ commit_offset target
    then ok (record { code = no_message; payload = [] })
    else message_of read

last_there :
    (ms : List Payload) (payload : Payload) (o : ℕ)
    → o ≡ length ms
    → get_elem? (ms ++ payload ∷ []) o ≡ some payload
last_there ms payload o e =
    ap (get_elem? (ms ++ payload ∷ [])) e ∙ get_elem?-append_last ms payload []

fetched-append :
    (ms : List Payload) (payload : Payload) (target : ℤ) (read : Outcome (Unit {0}) × Payload)
    → fetched (pos (length ms) -ℤ pos 1) target read ≡ log_answer ms target
    → fetched (pos (length ms)) target (answer_behind (length ms) payload target read)
      ≡ log_answer (ms ++ payload ∷ []) target
unfolding message_of respond
fetched-append ms payload (negsuc o) read e = ground arith
fetched-append ms payload (pos o) read e = ground (
  arith,
  get_elem?-append_left ms (payload ∷ []) o,
  last_there ms payload o,
  get_elem?-ge (ms ++ payload ∷ []) o,
  length-append ms (payload ∷ []),
)

module _ (key : Key) (m : ℕ) (ms : List Payload) (b : Broker) (now : ℤ) (payload : Payload)
    (h : IsLog key m ms b) (room : Room m (length ms) payload) where
  -- When no call fails, sending a message to a broker for which a partition is a log, in segments
  -- of a maximal size, succeeds if the message fits behind the others, whether the last segment
  -- is full or not; it answers the number of the messages before, and the partition then is the
  -- log with the message at its end: a fetch at each offset from 0 on answers the message there,
  -- or NO_MESSAGE, and PARTITION_ERROR below.
  pub send_message-IsLog :
      (b' : Broker) × (send_message calm now key payload b
        ≡ (ok (record { code = success; offset = pos (length ms) }), b'))
      × IsLog key m (ms ++ payload ∷ []) b'
  send_message-IsLog =
      let (p', ds, d, e, steady, next, first, appended) =
        write-Steady m h.chunks h.last h.partition h.steady now payload
          (subst (λ n. Room m n payload) (sym h.next) room) in
      let n = next_base h.last in
      let (config, committed, held) =
        update_commit_offset-Holds key h.info b.config h.serves.configured (pos n) in
      let b' = record b { topics = set_topic key p' b.topics; config = config } in
      let served : Serves key (ds ++ d ∷ []) p' (record h.info { commit_offset = pos n }) b' =
        record {
          found = find_topic-set_topic key p' h.partition b.topics h.serves.found;
          holds = steady.holds;
          configured = held;
        } in
      (
        b',
        sends key h.partition p' b now payload (pos n) config h.serves.found e committed
            ∙ ap (λ k. (ok (record { code = success; offset = pos k }), b')) h.next,
        record {
          chunks = ds;
          last = d;
          partition = p';
          info = record h.info { commit_offset = pos n };
          serves = served;
          steady = steady;
          first = first ∙ h.first;
          next = omega (arith, h.next, length-append ms (payload ∷ []));
          committed = ground (arith, h.next, length-append ms (payload ∷ []));
          answers = λ target.
              get_message-Serves key (ds ++ d ∷ []) p' (record h.info { commit_offset = pos n }) b'
                target served
              ∙ ap (fetched (pos n) target) (appended [] target)
              ∙ ap
                  (λ k.
                    fetched (pos k) target
                      (answer_behind k payload target (Read.read_at calm h.partition [] target)))
                  h.next
              ∙ fetched-append ms payload target (Read.read_at calm h.partition [] target) (
                  ap (λ z. fetched z target (Read.read_at calm h.partition [] target))
                    (sym h.committed)
                  ∙ sym (
                      get_message-Serves key (h.chunks ++ h.last ∷ []) h.partition h.info b target
                        h.serves)
                  ∙ h.answers target);
        },
      )

-- The answers of a partition without messages.
fetched-first :
    (target : ℤ)
    → fetched (negsuc 0) target (answer (first_chunk ∷ []) [] target) ≡ log_answer [] target
unfolding message_of respond home message_at
fetched-first (pos o) = ground arith
fetched-first (negsuc o) = ground arith

module _ (m : ℕ) (now : ℤ) (request : TopicRequest) (b : Broker)
    (unknown : find_topic request.key b.topics ≡ none)
    (no_files : files_under (key_name request.key) b.disk ≡ [])
    (no_file : find_file (key_name request.key) b.config.dir ≡ none)
    (absent : find_config request.key b.config.configs ≡ none)
    (segment_size : request.max_segment_size ≡ pos m)
    (no_limit : request.max_partition_size ≡ pos 0) (no_ttl : request.segment_ttl ≡ pos 0) where
  -- When no call fails, creating a partition without limits but that of its segments, whose topic
  -- and number are in no table and have no files, succeeds, and the partition then is a log
  -- without messages.
  pub create_partition-IsLog :
      (b' : Broker) × (create_partition calm now request b ≡ (ok tt, b'))
      × IsLog request.key m [] b'
  unfolding new_partition new_info
  create_partition-IsLog =
      let (p, b', e, serves, keeps) =
        create_partition-new now request b unknown no_files no_file absent in
      (
        b',
        e,
        record {
          chunks = [];
          last = first_chunk;
          partition = p;
          info = new_info request.max_segment_size request.max_partition_size request.segment_ttl;
          serves = serves;
          steady = record {
            holds = serves.holds;
            sized = subst (λ z. AllSized z p.segments) segment_size (keeps.sized tt);
            segment_size = keeps.max_segment_size ∙ segment_size;
            no_limit = keeps.max_partition_size ∙ no_limit;
            no_ttl = keeps.segment_ttl ∙ no_ttl;
            no_files = keeps.dir refl;
          };
          first = refl;
          next = refl;
          committed = refl;
          answers = λ target.
              get_message-Serves request.key (first_chunk ∷ []) p _ b' target serves
              ∙ ap (fetched (negsuc 0) target)
                  (read_at-answer (first_chunk ∷ []) p [] target serves.holds)
              ∙ fetched-first target;
        },
      )
