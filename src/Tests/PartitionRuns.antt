-- ===== src/Tests/PartitionRuns.antt =====
-- Runs and instances for the partition.
use mykafka.Prelude.{◌≡◌, refl, inl, true, false, List, [], ◌∷◌, arith}
use mykafka.Prelude.Int.{ℤ, pos}
use mykafka.Error.{ok}
use mykafka.Env.{calm}
use mykafka.Names.{Text, print_offset}
use mykafka.Names
use mykafka.Index.{absent}
use mykafka.Index.Opening.{default_entries}
use mykafka.Segment.State
use mykafka.Segment.State.{Segment, no_log, LogFile}
use mykafka.Segment.Read
use mykafka.Segment.Recover.{open_segment}
use mykafka.Segment.Layout.{Payload, layout}
use mykafka.Segment.Holds.{Holds}
use mykafka.Segment.Opened.{open_segment-Holds}
use mykafka.Partition.State.{
  Partition, Stored, fill_files_list, listed, sort, insert_sorted, stored_log, stored_index,
}
use mykafka.Partition.Open.{open_partition}
use mykafka.Partition.Write.{write, on_last, on_active}
use mykafka.Partition.Read.{read_at}
use mykafka.Partition.Chunks.{Chunk, scan, message_at}
use mykafka.Partition.Reads.{HoldsAll, answer, read_at-answer}
use mykafka.Partition.Writes.{extended, following, fullness}
use mykafka.Partition.Appends.{Appended, write-Appended_kept, write-Appended_rolled}
use mykafka.Partition.Opens.{bytes, open_partition-HoldsAll}

abbrev path : Text
path = b'p' ∷ []

abbrev hello : Payload
hello = b'h' ∷ b'i' ∷ []

abbrev pub test : Payload
test = b't' ∷ b'e' ∷ b's' ∷ b't' ∷ []

abbrev pub chunk : Chunk
chunk = record { base = 7; messages = hello ∷ test ∷ [] }

abbrev log : LogFile
log = record { exists = true; content = layout 7 (hello ∷ test ∷ []); modified = pos 0 }

pub opened :
    (s : Segment) × (open_segment calm (pos 2) (State.new path (pos 7) (pos 4096) log absent)
      ≡ (ok tt, s))
    × Holds 7 default_entries (hello ∷ test ∷ []) s
opened =
    open_segment-Holds path (pos 4096) (pos 2) 7 (hello ∷ test ∷ []) log absent (inl (refl, refl))
      (inl refl) (omega arith)

-- A partition of one segment with a size limit.
abbrev pub partition : ℤ → Partition
partition limit = record {
  cancel = false;
  max_segment_size = limit;
  max_partition_size = pos 0;
  segment_ttl = pos 0;
  physical_size = pos 30;
  active = true;
  path = path;
  segments = record opened.0 { max_size = limit } ∷ [];
  freed = false;
  dir = [];
}

pub partition-HoldsAll : (limit : ℤ) → HoldsAll (chunk ∷ []) (partition limit)
partition-HoldsAll limit =
    let h = opened.2 in
    record {
      open_still = refl;
      active = refl;
      all = (
        record {
          holds = record {
            next = h.next;
            placed = h.placed;
            physical = h.physical;
            logged = h.logged;
            writable = h.writable;
            readable = h.readable;
            on_disk = h.on_disk;
            indexed = h.indexed;
          };
          fits = omega arith;
        },
        tt,
      );
      ascending = tt;
    }

pub room : fullness (partition (pos 4096)) ≡ ok false
unfolding on_active on_last Read.is_full
room = let h = opened.2 in ground (arith, h.placed)

pub full : fullness (partition (pos 4)) ≡ ok true
unfolding on_active on_last Read.is_full
full = let h = opened.2 in ground (arith, h.placed)

read_at-answer_example :
    read_at calm (partition (pos 4)) hello (pos 8) ≡ answer (chunk ∷ []) hello (pos 8)
read_at-answer_example =
    read_at-answer (chunk ∷ []) (partition (pos 4)) hello (pos 8) (partition-HoldsAll (pos 4))

answer_found : answer (chunk ∷ []) hello (pos 8) ≡ (ok tt, test)
unfolding message_at scan
answer_found = refl

write-Appended_kept_example :
    (p' : Partition) × (write calm (pos 3) test (partition (pos 4096)) ≡ (ok (pos 9), p'))
    × HoldsAll (extended chunk test ∷ []) p'
    × Appended 9 test (partition (pos 4096)) p'
write-Appended_kept_example =
    write-Appended_kept (pos 3) test [] chunk (partition (pos 4096)) (partition-HoldsAll (pos 4096))
      room (omega arith)

pub no_log_yet : stored_log (print_offset (pos 9)) [] ≡ no_log
unfolding stored_log
no_log_yet = refl

pub no_index_yet : stored_index (print_offset (pos 9)) [] ≡ absent
unfolding stored_index
no_index_yet = refl

write-Appended_rolled_example :
    (p' : Partition) × (write calm (pos 3) test (partition (pos 4)) ≡ (ok (pos 9), p'))
    × HoldsAll (chunk ∷ following chunk test ∷ []) p'
    × Appended 9 test (partition (pos 4)) p'
write-Appended_rolled_example =
    write-Appended_rolled (pos 3) test [] chunk (partition (pos 4)) (partition-HoldsAll (pos 4))
      no_log_yet no_index_yet (omega arith) full refl refl (omega arith)

-- The directory of that partition.
abbrev dir : List Stored
dir = record { stem = print_offset (pos 7); is_log = true; log = log; index = absent } ∷ []

names : Unit {0}
unfolding fill_files_list listed sort insert_sorted stored_log stored_index print_offset
    Names.fixed_digits Names.detect_base_offset Names.strtoll Names.only_zeros Names.read_digits
    Names.same_text
names = tt

listing : fill_files_list dir ≡ pos 7 ∷ []
unfolding names
listing = refl

stored_there : stored_log (print_offset (pos 7)) dir ≡ log
unfolding names
stored_there = refl

stored_index_there : stored_index (print_offset (pos 7)) dir ≡ absent
unfolding names
stored_index_there = refl

-- The partition object before it is opened.
abbrev closed : Partition
closed = record {
  cancel = false;
  max_segment_size = pos 4096;
  max_partition_size = pos 0;
  segment_ttl = pos 0;
  physical_size = pos 0;
  active = false;
  path = path;
  segments = [];
  freed = false;
  dir = dir;
}

open_partition-HoldsAll_example :
    (p' : Partition) × (open_partition calm (pos 3) closed ≡ (ok tt, p'))
    × HoldsAll (chunk ∷ []) p'
    × (p'.physical_size ≡ pos (bytes (chunk ∷ [])))
open_partition-HoldsAll_example =
    open_partition-HoldsAll (pos 3) chunk [] closed listing
      (
        record {
          logged = rw stored_there (inl (refl, refl));
          sane = rw stored_index_there (inl refl);
          fits = omega arith;
        },
        tt,
      )
      tt refl refl refl refl refl
