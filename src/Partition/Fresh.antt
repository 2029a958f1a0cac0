-- ===== src/Partition/Fresh.antt =====
-- Partition::open over a directory without segments.
use mykafka.Prelude.{◌≡◌, refl, ap, true, false, [], ◌∷◌, arith}
use mykafka.Prelude.Int.{ℤ, pos}
use mykafka.Error.{ok}
use mykafka.Env.{calm}
use mykafka.Segment.State.{Segment}
use mykafka.Segment.Recover.{open_segment}
use mykafka.Partition.State.{Partition, new_segment, take_out, fill_files_list}
use mykafka.Names.{print_offset}
use mykafka.Partition.Open.{
  open_all, open_new, push_back, open_first, clean_silently, open_partition,
}
use mykafka.Partition.Clean.{clean_loop, clean_old_segments}
use mykafka.Partition.Chunks.{Chunk}
use mykafka.Partition.Sizes.{Keeps, opened-max_size}
use mykafka.Partition.Reads.{HoldsAll}
use mykafka.Partition.Opens.{StoresChunk, opens_stored}

-- The chunk of a partition without messages.
abbrev pub first_chunk : Chunk
first_chunk = record { base = 0; messages = [] }

-- The last segment is active, so the only one stays.
clean_loop-single :
    (now : ℤ) (p : Partition) (s : Segment) → clean_loop calm now p (s ∷ []) ≡ (ok tt, p, s ∷ [])
unfolding clean_loop
clean_loop-single now p s = refl

module _ (now : ℤ) (p : Partition) (listing : fill_files_list p.dir ≡ [])
    (none_yet : p.segments ≡ []) (open_still : p.cancel ≡ false) where
  abbrev alone : Segment → Partition
  alone s = record p { segments = s ∷ []; dir = take_out (print_offset (pos 0)) p.dir }

  open_first-steps :
      (s : Segment)
      → open_segment calm now (new_segment p (pos 0)) ≡ (ok tt, s)
      → open_first calm now p ≡ (ok tt, alone s)
  unfolding open_first open_new push_back
  open_first-steps s opens = ground (arith, none_yet, opens)

  open_partition-first :
      (s : Segment)
      → open_segment calm now (new_segment p (pos 0)) ≡ (ok tt, s)
      → open_partition calm now p ≡ (ok tt, record (alone s) { active = true })
  unfolding open_partition open_all clean_silently clean_old_segments
  open_partition-first s opens = ground (
    arith,
    listing,
    open_first-steps s opens,
    clean_loop-single now (record (alone s) { active = true }) s,
  )

  taken_none : p.dir ≡ [] → take_out (print_offset (pos 0)) p.dir ≡ []
  unfolding take_out
  taken_none e = ap (take_out (print_offset (pos 0))) e

  -- It opens with one segment, which has no messages.
  pub open_partition-fresh :
      StoresChunk p.dir first_chunk
      → (p' : Partition) × (open_partition calm now p ≡ (ok tt, p'))
        × HoldsAll (first_chunk ∷ []) p'
        × Keeps p p'
  open_partition-fresh stored =
      let (s, opens, holds) = opens_stored now first_chunk p stored in
      (
        record (alone s) { active = true },
        open_partition-first s opens,
        record {
          open_still = open_still;
          active = refl;
          all = (record { holds = holds; fits = stored.fits }, tt);
          ascending = tt;
        },
        record {
          dir = taken_none;
          max_segment_size = refl;
          max_partition_size = refl;
          segment_ttl = refl;
          sized = λ _. (opened-max_size calm now p (pos 0) s (ok tt) opens, tt);
        },
      )
