-- ===== src/Broker/Restart.antt =====
-- Broker::close, and Broker::load of another process over the same files.
use mykafka.Prelude.{
  ℕ, ◌^◌, ◌<◌, ◌≡◌, refl, sym, ap, ◌∙◌, true, false, List, [], ◌∷◌, ◌++◌, arith, if◌then◌else◌,
}
use mykafka.Prelude.Int.{ℤ, pos, ltb_ℤ}
use mykafka.Error.{no_message, Outcome, ok}
use mykafka.Env.{calm}
use mykafka.Names.{Text, same_text_refl}
use mykafka.Index.{valid}
use mykafka.Segment.Layout.{Payload}
use mykafka.Partition.State as PartitionState
use mykafka.Partition.State.{Partition, Stored}
use mykafka.Partition.Close
use mykafka.Partition.Open.{open_partition}
use mykafka.Partition.Chunks.{Chunk}
use mykafka.Partition.Reads.{HoldsAll, read_at-answer}
use mykafka.Partition.Reopening.{emptied, cancelled, close-Tidy, Tidy-opens}
use mykafka.Config.Keys.{Key, key_name}
use mykafka.Config.State.{RawInfo, CfgInfo, find_file, find_config, insert_config}
use mykafka.Config.Bytes.{InRange}
use mykafka.Config.Holds
use mykafka.Config.Holds.{same_key_refl, file_of, with_key, open_key-with_key}
use mykafka.Config.Parsing.{IsFileName, read_key-key_name}
use mykafka.Config.Sessions
use mykafka.Config.Close as ConfigClose
use mykafka.Config.Load
use mykafka.Broker.State.{
  Broker, Directory, find_topic, files_under, without, left_behind, put_back_all,
}
use mykafka.Broker.Create.{
  TopicRequest, load, load_configs, create_and_add_new_partition, added, on_config, partition_path,
}
use mykafka.Broker.Delete.{close, close_loop, closed}
use mykafka.Broker.Messages.{GetResponse, get_message, message_of}
use mykafka.Broker.Delivery.{Serves, get_message-Serves}

-- What the partitions of a table leave on disk when their objects are gone.
unfoldable pub directories : List (Key × Partition) → List Directory
directories [] = []
directories ((key, p) ∷ topics) =
    record { name = key_name key; files = left_behind calm p } ∷ directories topics

-- The broker of another process, before it loads.
abbrev pub restarted : Broker → Broker
restarted b = record {
  base_path = b.base_path;
  topics = [];
  config = Sessions.restarted b.config;
  disk = directories b.topics ++ b.disk;
}

-- A broker with one partition, which is limited in the size of its segments alone.
module _ (base_path topic : Text) (n : ℕ) (size commit_offset : ℤ) where
  abbrev pub one_key : Key
  one_key = record { topic = topic; partition = pos n }

  abbrev pub one_info : RawInfo
  one_info = record {
    max_segment_size = size;
    max_partition_size = pos 0;
    segment_ttl = pos 0;
    commit_offset = commit_offset;
  }

  abbrev entry : Key × CfgInfo
  entry = (one_key, record { fd = valid; mapped = true; info = one_info })

  abbrev pub with_one : Partition → Broker
  with_one p = record {
    base_path = base_path;
    topics = (one_key, p) ∷ [];
    config = record { configs = entry ∷ []; dir = file_of one_key one_info ∷ [] };
    disk = [];
  }

  abbrev stopped : Partition → Broker
  stopped p = record (with_one p) {
    config = record { configs = []; dir = file_of one_key one_info ∷ [] };
  }

  close_loop-one :
      (p p' : Partition)
      → Close.close calm p ≡ (ok tt, p')
      → close_loop calm ((one_key, p) ∷ []) ≡ (ok tt, (one_key, p') ∷ [])
  unfolding close_loop
  close_loop-one p p' e = ground (arith, e)

  close-stopped :
      (p p' : Partition)
      → Close.close calm p ≡ (ok tt, p')
      → close calm (with_one p) ≡ (ok tt, stopped p')
  unfolding close closed ConfigClose.close ConfigClose.close_all ConfigClose.close_info
      ConfigClose.cleared
  close-stopped p p' e = ap (λ r. closed calm r (with_one p)) (close_loop-one p p' e)

  abbrev on_disk : List Stored → Broker
  on_disk dir = record {
    base_path = base_path;
    topics = [];
    config = record { configs = []; dir = file_of one_key one_info ∷ [] };
    disk = record { name = key_name one_key; files = dir } ∷ [];
  }

  restarted-on_disk :
      (p : Partition) (dir : List Stored)
      → restarted (stopped (emptied (cancelled p) dir)) ≡ on_disk dir
  unfolding directories left_behind put_back_all Close.close Close.close_loop
  restarted-on_disk p dir = refl

  stored : Holds.Stores one_key one_info (on_disk []).config
  unfolding find_file
  stored = rw (same_text_refl (key_name one_key)) refl

  -- The configurations are loaded.
  abbrev loaded : List Stored → Broker
  loaded dir = record (on_disk dir) {
    config = record { configs = entry ∷ []; dir = file_of one_key one_info ∷ [] };
  }

  module _ (plain : IsFileName topic) (small : n < 2 ^ 31) (range : InRange one_info) where
    load-config : Load.load calm (on_disk []).config ≡ (ok tt, (loaded []).config)
    unfolding Load.load Load.load_files Load.load_key Load.drop_error insert_config find_config
    load-config = ground (
      arith,
      read_key-key_name topic n plain small,
      open_key-with_key one_key one_info (on_disk []).config stored range,
    )

    the_files : (dir : List Stored) → files_under (key_name one_key) (loaded dir).disk ≡ dir
    unfolding files_under
    the_files dir = rw (same_text_refl (key_name one_key)) refl

    no_others : (dir : List Stored) → without (key_name one_key) (loaded dir).disk ≡ []
    unfolding without
    no_others dir = rw (same_text_refl (key_name one_key)) refl

    abbrev request : TopicRequest
    request = record {
      key = one_key;
      max_segment_size = size;
      max_partition_size = pos 0;
      segment_ttl = pos 0;
    }

    module _ (dir : List Stored) (now : ℤ) (q : Partition)
        (opens : open_partition calm now
            (PartitionState.new (base_path ++ b'/' ∷ key_name one_key) size (pos 0) (pos 0) dir)
          ≡ (ok tt, q)) where
      add_one : create_and_add_new_partition calm now request (loaded dir) ≡ (ok tt, with_one q)
      unfolding create_and_add_new_partition added partition_path
      add_one = rw (the_files dir, opens, no_others dir) refl

      load_one : load_configs calm now (entry ∷ []) (loaded dir) ≡ (ok tt, with_one q)
      unfolding load_configs
      load_one = ground (arith, add_one)

      load-with_one : load calm now (on_disk dir) ≡ (ok tt, with_one q)
      unfolding load on_config
      load-with_one = ground (arith, load-config, load_one)

    pub with_one-Serves :
        (cs : List Chunk) (p : Partition)
        → HoldsAll cs p
        → Serves one_key cs p one_info (with_one p)
    unfolding find_topic find_config find_file
    with_one-Serves cs p h = record {
      found = rw (same_key_refl one_key) refl;
      holds = h;
      configured = record { listed = rw (same_key_refl one_key) refl; stored = stored };
    }

    abbrev fetched : ℤ → Outcome (Unit {0}) × Payload → Outcome GetResponse
    fetched target read =
        if ltb_ℤ commit_offset target
        then ok (record { code = no_message; payload = [] })
        else message_of read

    -- When no call fails, closing a broker that has one open partition, from 0 to 2^31 - 1, of a
    -- topic without slash and NUL, whose segments hold at least one chunk of messages in
    -- ascending order, whose directory has no files but those of its segments, and which has no
    -- deleted segments, with its configuration file, of numbers that are int64_t values and
    -- without limits but that of the segments, and no other files on its disk, succeeds; load of
    -- a broker of another process over what is left on the disk then succeeds too, serves the
    -- same key with the same chunks and the same configuration, the commit offset included, has
    -- again no other files and no deleted segments, so that it can be closed and loaded once
    -- more, and answers each fetch from the partition as the first broker did.
    pub close-load :
        (c : Chunk) (cs : List Chunk) (p : Partition) (now : ℤ)
        → HoldsAll (c ∷ cs) p
        → p.dir ≡ []
        → p.freed ≡ false
        → (b : Broker) × (q : Partition) × (close calm (with_one p) ≡ (ok tt, b))
          × (load calm now (restarted b) ≡ (ok tt, with_one q))
          × HoldsAll (c ∷ cs) q
          × (q.dir ≡ [])
          × (q.freed ≡ false)
          × Serves one_key (c ∷ cs) q one_info (with_one q)
          × ((target : ℤ)
              → get_message calm one_key target (with_one q)
                ≡ get_message calm one_key target (with_one p))
    close-load c cs p now h no_files whole =
        let (dir, run, tidy) = close-Tidy c cs p h no_files whole in
        let (q, e, h', empty, kept) =
          Tidy-opens c cs dir tidy h.ascending now (base_path ++ b'/' ∷ key_name one_key) size in
        let served = with_one-Serves (c ∷ cs) q h' in
        (
          stopped (emptied (cancelled p) dir),
          q,
          close-stopped p (emptied (cancelled p) dir) run,
          ap (load calm now) (restarted-on_disk p dir) ∙ load-with_one dir now q e,
          h',
          empty,
          kept,
          served,
          λ target.
              get_message-Serves one_key (c ∷ cs) q one_info (with_one q) target served
              ∙ ap (fetched target) (
                  read_at-answer (c ∷ cs) q [] target h'
                  ∙ sym (read_at-answer (c ∷ cs) p [] target h))
              ∙ sym (
                  get_message-Serves one_key (c ∷ cs) p one_info (with_one p) target
                    (with_one-Serves (c ∷ cs) p h)),
        )
