-- ===== src/Partition/Steady.antt =====
-- A partition without limits of time and size, over a directory without other files: it takes any
-- number of messages, whether or not its segment is full.
use mykafka.Prelude.{
  ℕ, ◌+◌, ◌*◌, ◌^◌, ◌≤◌, ◌<◌, ◌≡◌, refl, subst, sym, ap, ◌∙◌, true, false, inl, inr, Bool-cases,
  List, [], ◌∷◌, ◌++◌, arith, length, length-append, ltb,
}
use mykafka.Prelude.Int.{ℤ, pos}
use mykafka.Error.{ok}
use mykafka.Env.{calm}
use mykafka.Names.{print_offset}
use mykafka.Index.{absent}
use mykafka.Index.Opening.{default_entries}
use mykafka.Segment.State.{Segment, no_log}
use mykafka.Segment.Read
use mykafka.Segment.Layout.{Payload, total, total-append}
use mykafka.Segment.Holds.{Fits}
use mykafka.Partition.State.{Partition, stored_log, stored_index}
use mykafka.Partition.Write.{write}
use mykafka.Partition.Chunks.{Chunk, next_base}
use mykafka.Partition.Ends.{split_last, on_active-last}
use mykafka.Partition.Sizes.{Keeps, AllSized, AllSized-last}
use mykafka.Partition.Reads.{HoldsAll}
use mykafka.Partition.Writes.{fullness, extended, following, write-kept, write-rolled}
use mykafka.Partition.Appends.{Appended, Appended-extended, Appended-following}

pub record Steady (m : ℕ) (cs : List Chunk) (c : Chunk) (p : Partition) : Type 0 where
  pub holds : HoldsAll (cs ++ c ∷ []) p
  pub sized : AllSized (pos m) p.segments
  pub segment_size : p.max_segment_size ≡ pos m
  pub no_limit : p.max_partition_size ≡ pos 0
  pub no_ttl : p.segment_ttl ≡ pos 0
  pub no_files : p.dir ≡ []

-- A message that fits behind `n` messages in segments of size `m`, be the last one full or not.
pub record Room (m n : ℕ) (payload : Payload) : Type 0 where
  pub bytes : m + 12 + length payload < 2 ^ 31
  pub entries : m < 12 * default_entries
  pub offsets : n + 1 < 2 ^ 63

-- Each message takes a header.
twelve_each : (ps : List Payload) → 12 * length ps ≤ total ps
twelve_each [] = omega arith
twelve_each (p ∷ ps) = omega (arith, twelve_each ps)

-- Where the first of the chunks starts.
abbrev pub first_offset : List Chunk → Chunk → ℕ
first_offset [] c = c.base
first_offset (b ∷ cs) c = b.base

first-following :
    (cs : List Chunk) (c : Chunk) (payload : Payload)
    → first_offset (cs ++ c ∷ []) (following c payload) ≡ first_offset cs c
first-following [] c payload = refl
first-following (b ∷ cs) c payload = refl

first-extended :
    (cs : List Chunk) (c : Chunk) (payload : Payload)
    → first_offset cs (extended c payload) ≡ first_offset cs c
first-extended [] c payload = refl
first-extended (b ∷ cs) c payload = refl

some_message : (ps : List Payload) → 0 < total ps → 0 < length ps
some_message [] h = h
some_message (p ∷ ps) h = omega arith

full_of :
    (m n : ℕ) (s : Segment) → s.max_size ≡ pos m → s.position ≡ pos n → Read.is_full s ≡ ltb m n
unfolding Read.is_full
full_of m n s e f = rw (e, f) refl

module _ (m : ℕ) (cs : List Chunk) (c : Chunk) (p : Partition) (h : Steady m cs c p) where
  -- Whether the active segment is full is told by the last chunk.
  Steady-fullness : fullness p ≡ ok (ltb m (total c.messages))
  Steady-fullness =
      let (front, s, segs, some_hold, last) = split_last cs c p.segments h.holds.all in
      let sizes = (AllSized-last (pos m) front s (subst (AllSized (pos m)) segs h.sized)).1 in
      ap (λ r. r.0) (on_active-last (λ t. (ok (Read.is_full t), t)) front s p h.holds.active segs)
      ∙ ap ok (full_of m (total c.messages) s sizes last.holds.placed)

  Steady-next :
      (d : Chunk) (ds : List Chunk) (p' : Partition)
      → HoldsAll (ds ++ d ∷ []) p'
      → Keeps p p'
      → Steady m ds d p'
  Steady-next d ds p' holds keeps = record {
    holds = holds;
    sized =
        subst (λ z. AllSized z p'.segments) h.segment_size
          (keeps.sized (subst (λ z. AllSized z p.segments) (sym h.segment_size) h.sized));
    segment_size = keeps.max_segment_size ∙ h.segment_size;
    no_limit = keeps.max_partition_size ∙ h.no_limit;
    no_ttl = keeps.segment_ttl ∙ h.no_ttl;
    no_files = keeps.dir h.no_files;
  }

  module _ (now : ℤ) (payload : Payload) (room : Room m (next_base c) payload) where
    Fits-extended :
        ltb m (total c.messages) ≡ false → Fits c.base default_entries (c.messages ++ payload ∷ [])
    Fits-extended e =
        let l = length-append c.messages (payload ∷ []) in
        let t = total-append c.messages payload in
        let le : total c.messages ≤ m = ground arith in
        record {
          room = omega (arith, room.entries, twelve_each c.messages);
          bytes = omega (arith, room.bytes);
          offsets = omega (arith, room.offsets);
        }

    Fits-first : Fits (next_base c) default_entries (payload ∷ [])
    Fits-first = record {
      room = omega arith;
      bytes = omega (arith, room.bytes);
      offsets = omega (arith, room.offsets);
    }

    no_log_in : stored_log (print_offset (pos (next_base c))) p.dir ≡ no_log
    unfolding stored_log
    no_log_in = rw h.no_files refl

    no_index_in : stored_index (print_offset (pos (next_base c))) p.dir ≡ absent
    unfolding stored_index
    no_index_in = rw h.no_files refl

    full_has : ltb m (total c.messages) ≡ true → 0 < length c.messages
    full_has e = some_message c.messages (ground arith)

    -- A message is appended, in the last segment or in a new one, and the partition stays steady.
    pub write-Steady :
        (p' : Partition) × (ds : List Chunk) × (d : Chunk) × (write calm now payload p
          ≡ (ok (pos (next_base c)), p'))
        × Steady m ds d p'
        × (next_base d ≡ next_base c + 1)
        × (first_offset ds d ≡ first_offset cs c)
        × Appended (next_base c) payload p p'
    write-Steady = elim (Bool-cases (ltb m (total c.messages))) [
      | inl full ↦
          let (p', e, h', keeps) =
            write-rolled now payload c p no_log_in no_index_in Fits-first cs h.holds
              (Steady-fullness ∙ ap ok full) h.no_ttl h.no_limit (full_has full) in
          (
            p',
            cs ++ c ∷ [],
            following c payload,
            e,
            Steady-next (following c payload) (cs ++ c ∷ []) p' h' keeps,
            refl,
            first-following cs c payload,
            Appended-following payload cs c p p' h.holds h',
          )
      | inr room_left ↦
          let (p', e, h', keeps) =
            write-kept now payload cs c p h.holds (Steady-fullness ∙ ap ok room_left)
              (Fits-extended room_left) in
          (
            p',
            cs,
            extended c payload,
            e,
            Steady-next (extended c payload) cs p' h' keeps,
            omega (arith, length-append c.messages (payload ∷ [])),
            first-extended cs c payload,
            Appended-extended payload cs c p p' h.holds h',
          )
    ]
