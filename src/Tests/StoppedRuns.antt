-- ===== src/Tests/StoppedRuns.antt =====
-- Runs of a partition that is closed, cleaned or searched.
use mykafka.Prelude.{Option, ◌≡◌, refl, false, List, [], ◌∷◌, arith}
use mykafka.Prelude.Int.{ℤ, pos}
use mykafka.Error.{ok}
use mykafka.Env.{calm}
use mykafka.Names.{Text}
use mykafka.Segment.State.{Segment}
use mykafka.Segment.Layout.{Payload}
use mykafka.Partition.State.{
  Partition, Stored, fill_files_list, listed, sort, insert_sorted, stored_log, stored_index,
}
use mykafka.Partition.Open.{open_partition}
use mykafka.Partition.Write.{write}
use mykafka.Partition.Read.{read_at, newest_offset, find_segment}
use mykafka.Partition.Termination.{find_segment-ends}
use mykafka.Partition.Close
use mykafka.Partition.Clean.{clean_old_segments}
use mykafka.Partition.Closed.{Refuses, close-Refuses, clean-newest_offset}
use mykafka.Partition.Chunks.{Chunk}
use mykafka.Partition.Reads.{HoldsAll}
use mykafka.Partition.Writes.{following}
use mykafka.Partition.Appends.{Appended, write-Appended_rolled}
use mykafka.Partition.Linear.{Rising, linear_search, find_segment-linear_search}
use mykafka.Partition.Reopening.{close-reopened}
use mykafka.Partition.Cleaning.{Cleaned, clean-Cleaned}
use mykafka.Tests.PartitionRuns.{
  test, chunk, opened, partition, partition-HoldsAll, full, no_log_yet, no_index_yet,
}

close-Refuses_example : Refuses (Close.close (λ _. 1) (partition (pos 4))).1
close-Refuses_example = close-Refuses (λ _. 1) (partition (pos 4)) refl

-- A partition of two segments and a limit that makes the first one too old.
abbrev aged : Partition
aged = record (partition (pos 4)) {
  segment_ttl = pos 5;
  segments = opened.0 ∷ record opened.0 { mtime = pos 90 } ∷ [];
}

clean-newest_offset_example :
    newest_offset (clean_old_segments calm (pos 100) aged).1 ≡ newest_offset aged
clean-newest_offset_example = clean-newest_offset calm (pos 100) aged

find_segment-ends_example : (r : Option Segment) × (find_segment aged.segments (pos 8) ≡ ok r)
find_segment-ends_example = find_segment-ends aged.segments (pos 8)

-- Two segments, at 7 and at 9.
abbrev two : List Segment
two = opened.0 ∷ record opened.0 { index = record opened.0.index { base_offset = pos 9 } } ∷ []

two-Rising : Rising two
two-Rising = (let h = opened.2 in ground (arith, h.indexed.based), tt)

find_segment-linear_search_example : find_segment two (pos 8) ≡ ok (linear_search two (pos 8))
find_segment-linear_search_example = find_segment-linear_search two 8 two-Rising

close-reopened_example :
    (p' : Partition) × (Close.close calm (partition (pos 4096)) ≡ (ok tt, p'))
    × ((now : ℤ) (other : Text) (max_segment_size : ℤ)
        → (q : Partition) × (open_partition calm now
              (mykafka.Partition.State.new other max_segment_size (pos 0) (pos 0) p'.dir)
            ≡ (ok tt, q))
          × HoldsAll (chunk ∷ []) q
          × (q.dir ≡ [])
          × (q.freed ≡ false)
          × ((buffer : Payload) (target : ℤ)
              → read_at calm q buffer target ≡ read_at calm (partition (pos 4096)) buffer target))
close-reopened_example =
    close-reopened chunk [] (partition (pos 4096)) (partition-HoldsAll (pos 4096)) refl refl

-- A partition of two segments, with a limit that the first one exceeds.
rolled :
    (p' : Partition) × (write calm (pos 3) test (partition (pos 4)) ≡ (ok (pos 9), p'))
    × HoldsAll (chunk ∷ following chunk test ∷ []) p'
    × Appended 9 test (partition (pos 4)) p'
rolled =
    write-Appended_rolled (pos 3) test [] chunk (partition (pos 4)) (partition-HoldsAll (pos 4))
      no_log_yet no_index_yet (omega arith) full refl refl (omega arith)

abbrev limited : Partition
limited = record rolled.0 { max_partition_size = pos 20 }

limited-HoldsAll : HoldsAll (chunk ∷ following chunk test ∷ []) limited
limited-HoldsAll =
    let h = rolled.2 in
    record { open_still = h.open_still; active = h.active; all = h.all; ascending = h.ascending }

clean-Cleaned_example :
    (ds : List Chunk) × (p' : Partition) × (clean_old_segments calm (pos 3) limited ≡ (ok tt, p'))
    × HoldsAll ds p'
    × Cleaned (pos 3) limited p'
clean-Cleaned_example =
    clean-Cleaned (pos 3) chunk (following chunk test ∷ []) limited limited-HoldsAll
