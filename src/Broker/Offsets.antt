-- ===== src/Broker/Offsets.antt =====
-- What getOffsets answers of a partition that is served.
use mykafka.Prelude.{◌≡◌, refl, ap, ◌∙◌, List, [], ◌∷◌, ◌++◌, arith}
use mykafka.Prelude.Int.{pos, ◌-ℤ◌}
use mykafka.Error.{success, ok}
use mykafka.Segment.State.{Segment}
use mykafka.Segment.Read
use mykafka.Partition.State.{Partition}
use mykafka.Partition.Read.{newest_offset, oldest_offset, last_next, first_base}
use mykafka.Partition.Chunks.{Chunk, next_base, AllHold}
use mykafka.Partition.Ends.{split_last}
use mykafka.Partition.Steady.{first_offset}
use mykafka.Partition.Reads.{HoldsAll}
use mykafka.Config.Keys.{Key}
use mykafka.Config.State.{RawInfo}
use mykafka.Config.Holds.{get-Holds}
use mykafka.Broker.State.{Broker}
use mykafka.Broker.Messages.{get_offsets, both_offsets, offsets_of}
use mykafka.Broker.Delivery.{Serves}

last_next-append :
    (front : List Segment) (s : Segment) → last_next (front ++ s ∷ []) ≡ ok (Read.next_offset s)
unfolding last_next
last_next-append [] s = refl
last_next-append (t ∷ []) s = refl
last_next-append (t ∷ (u ∷ front)) s = last_next-append (u ∷ front) s

first_base-AllHold :
    (cs : List Chunk) (c : Chunk) (segments : List Segment)
    → AllHold (cs ++ c ∷ []) segments
    → first_base segments ≡ ok (pos (first_offset cs c))
unfolding first_base
first_base-AllHold [] c [] all = absurd all
first_base-AllHold [] c (s ∷ ss) (h, all) = ap ok h.holds.indexed.based
first_base-AllHold (b ∷ cs) c [] all = absurd all
first_base-AllHold (b ∷ cs) c (s ∷ ss) (h, all) = ap ok h.holds.indexed.based

module _ (cs : List Chunk) (c : Chunk) (p : Partition) (h : HoldsAll (cs ++ c ∷ []) p) where
  oldest : oldest_offset p ≡ ok (pos (first_offset cs c))
  unfolding oldest_offset
  oldest = ground (arith, h.open_still, first_base-AllHold cs c p.segments h.all)

  newest_next : last_next p.segments ≡ ok (pos (next_base c))
  newest_next =
      let (front, s, segs, some_hold, last) = split_last cs c p.segments h.all in
      ap last_next segs ∙ last_next-append front s ∙ ap ok last.holds.next

  newest : newest_offset p ≡ ok (pos (next_base c))
  unfolding newest_offset
  newest = ground (arith, h.open_still, h.active, newest_next)

-- A broker that serves a partition from ascending chunks answers to getOffsets the offset at
-- which the first chunk starts, the commit offset of the configuration, and the offset of the
-- last message, which is one less than the start of the last chunk if that has none.
pub get_offsets-Serves :
    (key : Key) (cs : List Chunk) (c : Chunk) (p : Partition) (info : RawInfo) (b : Broker)
    → Serves key (cs ++ c ∷ []) p info b
    → get_offsets key b
      ≡ ok (record {
        code = success;
        first_offset = pos (first_offset cs c);
        commit_offset = info.commit_offset;
        last_offset = pos (next_base c) -ℤ pos 1;
      })
unfolding get_offsets both_offsets offsets_of
get_offsets-Serves key cs c p info b h = ground (
  arith,
  h.found,
  oldest cs c p h.holds,
  newest cs c p h.holds,
  get-Holds key info b.config h.configured,
)
