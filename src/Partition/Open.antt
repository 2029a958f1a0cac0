-- ===== src/Partition/Open.antt =====
-- Partition::open of commitlog/Partition.cc.
use mykafka.Prelude.{true, List, [], ◌∷◌, ◌++◌}
use mykafka.Prelude.Int.{ℤ, pos, ◌+ℤ◌}
use mykafka.Error.{invalid_filename, Outcome, ok, Exec, pure, gets, modify, ◌>>=◌, ◌>>◌}
use mykafka.Env.{Env, sub, sys}
use mykafka.Segment.State.{Segment}
use mykafka.Segment.Read
use mykafka.Segment.Recover.{open_segment}
use mykafka.Names.{print_offset}
use mykafka.Segment.Close.{destroyed}
use mykafka.Partition.State.{Partition, new_segment, put_back, take_out, fill_files_list}
use mykafka.Partition.Clean.{clean_old_segments}

-- A segment that opened joins the others, and its files are its own; after an error it is deleted.
unfoldable pub push_back : Env → ℤ → Outcome (Unit {0}) × Segment → Exec Partition Unit
push_back env base_offset (ok _, s) p = (
  ok tt,
  record p { segments = p.segments ++ s ∷ []; dir = take_out (print_offset base_offset) p.dir },
)
push_back env base_offset (r, s) p = (r, record p { dir = put_back (destroyed env s) p.dir })

unfoldable pub open_new : Env → ℤ → ℤ → Exec Partition Unit
unfolding push_back
open_new env now base_offset p =
    push_back (sub env 8) base_offset (open_segment env now (new_segment p base_offset)) p

-- The size of the segment that was pushed last.
unfoldable pub last_size : List Segment → ℤ
last_size [] = pos 0
last_size (s ∷ []) = Read.size s
last_size (s ∷ (t ∷ rest)) = last_size (t ∷ rest)

unfoldable pub open_all : Env → ℤ → List ℤ → Exec Partition Unit
unfolding open_new last_size
open_all env now [] = pure tt
open_all env now (base_offset ∷ offsets) = do
  open_new (sub env 1) now base_offset
  modify (λ p. record p { physical_size = p.physical_size +ℤ last_size p.segments })
  open_all (sub env 2) now offsets

-- A partition has at least one segment.
unfoldable pub open_first : Env → ℤ → Exec Partition Unit
open_first env now p = elim p.segments [ [] ↦ open_new env now (pos 0) p | _ ∷ _ ↦ (ok tt, p) ]

-- What `cleanOldSegments` answers is dropped.
unfoldable pub clean_silently : Env → ℤ → Exec Partition Unit
clean_silently env now p = (ok tt, (clean_old_segments env now p).1)

unfoldable pub open_partition : Env → ℤ → Exec Partition Unit
unfolding open_all open_first clean_silently
open_partition env now = do
  sys env 1 invalid_filename
  offsets ← gets (λ p. fill_files_list p.dir)
  open_all (sub env 2) now offsets
  open_first (sub env 3) now
  modify (λ p. record p { active = true })
  clean_silently (sub env 4) now
