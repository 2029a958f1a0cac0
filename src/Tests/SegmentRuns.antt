-- ===== src/Tests/SegmentRuns.antt =====
-- Runs and instances for the index and the segment.
use mykafka.Prelude.{◌≡◌, refl, ◌≢◌, inl, true, List, [], ◌∷◌, ◌++◌, arith, take}
use mykafka.Prelude.Int.{pos, negsuc}
use mykafka.Prelude.Bytes.{
  int64_bytes, int32_bytes, int64_of, int32_of, le_bytes, of_le, load, store,
}
use mykafka.Error.{ok, err, out_of_fuel, log_error}
use mykafka.Env.{calm}
use mykafka.Names.{Text}
use mykafka.Index
use mykafka.Index.{Index, absent}
use mykafka.Index.Bounds.{
  InBounds, Call, write_entry, read_at_byte, truncate, run_calls, run_calls-checked,
}
use mykafka.Index.Entries.{HasEntries, write-HasEntries}
use mykafka.Index.Opening.{default_entries}
use mykafka.Segment.State
use mykafka.Segment.State.{Segment, no_log}
use mykafka.Segment.Recover.{reconstruct_step, reconstruct_loop, reconstruct, open_segment}
use mykafka.Segment.Write.{write, header}
use mykafka.Segment.Read.{find_loop, settle, find_up_to, find_entry, read_entry, read_at}
use mykafka.Segment.Layout.{Payload, layout}
use mykafka.Segment.Holds.{Holds, Fits, write-Holds}
use mykafka.Segment.Reads.{read_at-message, read_at-missing}
use mykafka.Segment.Opened.{open_segment-Holds}
use mykafka.Segment.Termination.{reconstruct-ends, find_entry-ends}
use mykafka.Segment.Failures.{SameCounters, IsGrown, write-error, torn, read_at-write-torn}

program : Unit {0}
unfolding Index.open_file Index.sanity_check Index.truncate_entries Index.write Index.read State.new
    open_segment reconstruct reconstruct_loop reconstruct_step write read_at find_entry find_up_to
    settle find_loop read_entry header int64_bytes int32_bytes int64_of int32_of le_bytes of_le load
    store
program = tt

abbrev path : Text
path = b'p' ∷ []

abbrev hello : Payload
hello = b'h' ∷ b'i' ∷ []

abbrev test : Payload
test = b't' ∷ b'e' ∷ b's' ∷ b't' ∷ []

abbrev fresh : Segment
fresh = State.new path (pos 7) (pos 4096) no_log absent

abbrev run : Segment → Segment
run s = (write calm (pos 1) test (write calm (pos 1) hello (open_segment calm (pos 0) s).1).1).1

run_reads : read_at calm (run fresh) [] (pos 1) ≡ (ok tt, test)
unfolding program
run_reads = refl

-- The log of those two messages, opened by another object, gives them back.
run_recovers :
    read_at calm
      (open_segment calm (pos 2) (State.new path (pos 7) (pos 4096) (run fresh).log absent)).1
      []
      (pos 0)
    ≡ (ok tt, hello)
unfolding program
run_recovers = refl

-- A header that was cut off makes the log impossible to open.
abbrev cut_log : State.LogFile
cut_log = record { exists = true; content = 7 ∷ 0 ∷ []; modified = pos 0 }

run_cut_header :
    (open_segment calm (pos 2) (State.new path (pos 7) (pos 4096) cut_log absent)).0 ≡ err log_error
unfolding program
run_cut_header = refl

-- A segment that holds two messages.
abbrev two : List Payload
two = hello ∷ test ∷ []

abbrev two_log : State.LogFile
two_log = record { exists = true; content = layout 7 two; modified = pos 0 }

Fits-two : Fits 7 default_entries (two ++ test ∷ [])
Fits-two = omega arith

filled :
    (s : Segment) × (open_segment calm (pos 2) (State.new path (pos 7) (pos 4096) two_log absent)
      ≡ (ok tt, s))
    × Holds 7 default_entries two s
filled =
    open_segment-Holds path (pos 4096) (pos 2) 7 two two_log absent (inl (refl, refl)) (inl refl)
      (omega arith)

open_segment-Holds_example :
    (s : Segment) × (open_segment calm (pos 2) (State.new path (pos 7) (pos 4096) two_log absent)
      ≡ (ok tt, s))
    × Holds 7 default_entries two s
open_segment-Holds_example =
    open_segment-Holds path (pos 4096) (pos 2) 7 two two_log absent (inl (refl, refl)) (inl refl)
      (omega arith)

write-Holds_example :
    (s' : Segment) × (write calm (pos 3) test filled.0 ≡ (ok (pos 9), s'))
    × Holds 7 default_entries (two ++ test ∷ []) s'
write-Holds_example = write-Holds (pos 3) test filled.2 Fits-two

read_at-message_example : read_at calm filled.0 [] (pos 1) ≡ (ok tt, test)
read_at-message_example = read_at-message [] test 1 filled.2 (omega arith) refl

read_at-missing_example : read_at calm filled.0 hello (pos 2) ≡ (err log_error, hello)
read_at-missing_example = read_at-missing hello (pos 2) filled.2 (λ m lt e. ground arith)

reconstruct-ends_example :
    (reconstruct (λ _. 1) (State.new path (pos 7) (pos 4096) cut_log absent)).0 ≢ out_of_fuel
reconstruct-ends_example =
    reconstruct-ends (λ _. 1) (State.new path (pos 7) (pos 4096) cut_log absent)

find_entry-ends_example : find_entry filled.0 (negsuc 0) (pos 5) ≢ out_of_fuel
find_entry-ends_example = find_entry-ends filled.0 (negsuc 0) (pos 5)

read_at-write-torn_example :
    (t u : Segment) × (write torn (pos 3) hello filled.0 ≡ (err log_error, t))
    × (write calm (pos 3) test t ≡ (ok (pos 9), u))
    × (read_at calm u [] (pos 2) ≡ (ok tt, take 2 (header (pos 9) (pos 4) ++ test)))
read_at-write-torn_example =
    read_at-write-torn (pos 3) hello test [] filled.2 Fits-two (omega arith)

-- A write on an object that was never opened fails, since it has no descriptor.
unopened : write calm (pos 3) test fresh ≡ (err log_error, fresh)
unfolding write State.new
unopened = refl

write-error_example : SameCounters fresh fresh × IsGrown fresh fresh
write-error_example = write-error calm (pos 3) test fresh fresh log_error unopened

-- An index with room for two entries and none in it.
abbrev empty_index : Index
empty_index = record {
  size = pos 16;
  base_offset = pos 7;
  position = pos 0;
  fd = Index.valid;
  mapped = true;
  filename = path;
  file = record { exists = true; len = 16; byte = λ _. 0 };
}

empty_index-HasEntries : HasEntries 7 2 [] empty_index
empty_index-HasEntries = record {
  opened = refl;
  on_disk = refl;
  whole = refl;
  mapped = refl;
  sized = refl;
  based = refl;
  placed = refl;
  fits = omega arith;
  entry = λ i e h. cc;
}

written_once :
    (s' : Index) × (Index.write (pos 7) (pos 5) empty_index ≡ (ok tt, s'))
    × HasEntries 7 2 ((0, 5) ∷ []) s'
written_once = write-HasEntries 0 5 empty_index-HasEntries (omega arith) (omega arith) (omega arith)

-- The same index with two entries, which is full.
abbrev full_index : Index
full_index = record empty_index { position = pos 16 }

full_index_sane : Index.sanity_check full_index ≡ (ok tt, full_index)
unfolding program
full_index_sane = refl

-- A write that does not fit, one that does, a read of the last entry, and a read behind it.
abbrev calls : List Call
calls =
    write_entry (pos 9) (pos 5)
    ∷ truncate 1
    ∷ write_entry (pos 9) (pos 5)
    ∷ read_at_byte 8
    ∷ read_at_byte 16
    ∷ []

run_calls-checked_example : (t : Index) × (run_calls calls full_index ≡ (ok tt, t)) × InBounds t
run_calls-checked_example =
    run_calls-checked full_index full_index 2 16 refl refl refl full_index_sane calls
