-- ===== src/Partition/Writes.antt =====
-- Partition::write against the messages of the chunks.
use mykafka.Prelude.{
  ◌+◌, ◌<◌, ◌≡◌, refl, ap, subst, ◌∙◌, Bool, inl, inr, sym, true, false, List, [], ◌∷◌, ◌++◌, arith,
  length,
}
use mykafka.Prelude.Int.{ℤ, pos, ◌+ℤ◌}
use mykafka.Error.{Outcome, ok, gets}
use mykafka.Env.{calm, sub}
use mykafka.Index.{absent}
use mykafka.Index.Opening.{default_entries}
use mykafka.Segment.State.{Segment, no_log}
use mykafka.Names.{print_offset}
use mykafka.Segment.Read
use mykafka.Segment.Write
use mykafka.Segment.Layout.{Payload}
use mykafka.Segment.Holds.{Holds, Fits, write-Holds}
use mykafka.Segment.Recover.{open_segment}
use mykafka.Segment.Opened.{open_segment-Holds}
use mykafka.Partition.State.{Partition, Stored, new_segment, stored_log, stored_index, take_out}
use mykafka.Partition.Open.{open_new, push_back}
use mykafka.Partition.Write.{write, roll, on_active}
use mykafka.Partition.Sizes.{
  Keeps, AllSized, AllSized-last, AllSized-append, written-max_size, opened-max_size,
}
use mykafka.Partition.Chunks.{Chunk, next_base}
use mykafka.Partition.Ends.{split_last, join_last, Ascending-grow, Ascending-follow, on_active-last}
use mykafka.Partition.Reads.{HoldsAll}

-- The partition after its last segment `s` was written.
abbrev grown : List Segment → Segment → Payload → Partition → Partition
grown front s payload p = record p {
  segments = front ++ s ∷ [];
  physical_size = p.physical_size +ℤ pos (length payload) +ℤ pos 12;
}

taken_none : (o : ℤ) (dir : List Stored) → dir ≡ [] → take_out (print_offset o) dir ≡ []
unfolding take_out
taken_none o dir e = ap (take_out (print_offset o)) e

-- The partition with a new segment behind the others.
abbrev with_next : ℤ → List Segment → Segment → Partition → Partition
with_next o segments t p = record p {
  segments = segments ++ t ∷ [];
  dir = take_out (print_offset o) p.dir;
}

module _ (now : ℤ) (payload : Payload) (front : List Segment) (s : Segment) (p : Partition)
    (open_still : p.cancel ≡ false) (active : p.active ≡ true)
    (segs : p.segments ≡ front ++ s ∷ []) where
  write_kept :
      (s' : Segment) (o : ℤ)
      → Write.write calm now payload s ≡ (ok o, s')
      → Read.is_full s ≡ false
      → write calm now payload p ≡ (ok o, grown front s' payload p)
  unfolding write roll
  write_kept s' o written room = ground (
    arith,
    open_still,
    on_active-last (gets (λ s. Read.is_full s)) front s p active segs,
    on_active-last (Write.write calm now payload) front s (record p { segments = front ++ s ∷ [] })
        active refl,
    room,
    written,
  )

  -- A full segment, a new segment `t` that opens, and no limits.
  module _ (t t' : Segment) (o' : ℤ) (ttl : p.segment_ttl ≡ pos 0)
      (max_size : p.max_partition_size ≡ pos 0)
      (opens : open_segment
          (sub calm 1)
          now
          (new_segment (record p { segments = front ++ s ∷ [] }) (Read.next_offset s))
        ≡ (ok tt, t))
      (first : Write.write calm now payload t ≡ (ok o', t')) where
    opened :
        open_new (sub calm 1) now (Read.next_offset s) (record p { segments = front ++ s ∷ [] })
        ≡ (ok tt, with_next (Read.next_offset s) (front ++ s ∷ []) t p)
    unfolding open_new push_back
    opened = ground (arith, opens)

    rolled :
        roll calm now true (record p { segments = front ++ s ∷ [] })
        ≡ (ok tt, with_next (Read.next_offset s) (front ++ s ∷ []) t p)
    unfolding roll
    rolled = ground (
      arith,
      on_active-last (gets (λ s. Read.next_offset s)) front s
          (record p { segments = front ++ s ∷ [] }) active refl,
      opened,
      ttl,
      max_size,
    )

    write_rolled :
        Read.is_full s ≡ true
        → write calm now payload p ≡ (
          ok o',
          grown (front ++ s ∷ []) t' payload (with_next (Read.next_offset s) (front ++ s ∷ []) t p),
        )
    unfolding write
    write_rolled full = ground (
      arith,
      open_still,
      on_active-last (gets (λ s. Read.is_full s)) front s p active segs,
      on_active-last (Write.write calm now payload) (front ++ s ∷ []) t
          (with_next (Read.next_offset s) (front ++ s ∷ []) t p) active refl,
      full,
      rolled,
      first,
    )

-- Is the active segment full?
abbrev pub fullness : Partition → Outcome Bool
fullness p = (on_active (gets (λ s. Read.is_full s)) p).0

fullness-last :
    (front : List Segment) (s : Segment) (p : Partition) (b : Bool)
    → p.active ≡ true
    → p.segments ≡ front ++ s ∷ []
    → fullness p ≡ ok b
    → Read.is_full s ≡ b
fullness-last front s p b active segs full =
    let e = on_active-last (gets (λ s. Read.is_full s)) front s p active segs in
    ground (arith, sym (ap (λ r. r.0) e) ∙ full)

-- A chunk with one more message, and the chunk behind a full one.
abbrev pub extended : Chunk → Payload → Chunk
extended c payload = record c { messages = c.messages ++ payload ∷ [] }

abbrev pub following : Chunk → Payload → Chunk
following c payload = record { base = next_base c; messages = payload ∷ [] }

pub write-kept :
    (now : ℤ) (payload : Payload) (cs : List Chunk) (c : Chunk) (p : Partition)
    → HoldsAll (cs ++ c ∷ []) p
    → fullness p ≡ ok false
    → Fits c.base default_entries (c.messages ++ payload ∷ [])
    → (p' : Partition) × (write calm now payload p ≡ (ok (pos (next_base c)), p'))
      × HoldsAll (cs ++ extended c payload ∷ []) p'
      × Keeps p p'
write-kept now payload cs c p h room fits =
    let (front, s, segs, some_hold, last) = split_last cs c p.segments h.all in
    let (s', e, holds) = write-Holds now payload last.holds fits in
    (
      grown front s' payload p,
      write_kept now payload front s p h.open_still h.active segs s' (pos (next_base c)) e
          (fullness-last front s p false h.active segs room),
      record {
        open_still = h.open_still;
        active = h.active;
        all =
            join_last cs (extended c payload) front s' some_hold
              (record { holds = holds; fits = fits });
        ascending = Ascending-grow cs c (extended c payload) refl h.ascending;
      },
      record {
        dir = λ e. e;
        max_segment_size = refl;
        max_partition_size = refl;
        segment_ttl = refl;
        sized = λ all.
            let (some_sized, last_sized) =
              AllSized-last p.max_segment_size front s
                (subst (AllSized p.max_segment_size) segs all) in
            AllSized-append p.max_segment_size front s' some_sized
              (written-max_size calm now payload s s' (ok (pos (next_base c))) e ∙ last_sized);
      },
    )

module _ (now : ℤ) (payload : Payload) (c : Chunk) (p : Partition)
    (no_log_yet : stored_log (print_offset (pos (next_base c))) p.dir ≡ no_log)
    (no_index_yet : stored_index (print_offset (pos (next_base c))) p.dir ≡ absent)
    (fits : Fits (next_base c) default_entries (payload ∷ [])) where
  -- A new segment behind the last chunk opens.
  opens_new :
      (segments : List Segment)
      → (t : Segment) × (open_segment calm now
            (new_segment (record p { segments = segments }) (pos (next_base c)))
          ≡ (ok tt, t))
        × Holds (next_base c) default_entries [] t
  unfolding new_segment
  opens_new segments =
      rw (no_log_yet, no_index_yet)
        (open_segment-Holds p.path p.max_segment_size now (next_base c) [] no_log absent
          (inr (refl, refl)) (inl refl)
          (record {
            room = omega arith;
            bytes = omega arith;
            offsets = omega (arith, fits.offsets);
          }))

  pub write-rolled :
      (cs : List Chunk)
      → HoldsAll (cs ++ c ∷ []) p
      → fullness p ≡ ok true
      → p.segment_ttl ≡ pos 0
      → p.max_partition_size ≡ pos 0
      → 0 < length c.messages
      → (p' : Partition) × (write calm now payload p ≡ (ok (pos (next_base c)), p'))
        × HoldsAll ((cs ++ c ∷ []) ++ following c payload ∷ []) p'
        × Keeps p p'
  write-rolled cs h full ttl max_size some_message =
      let (front, s, segs, some_hold, last) = split_last cs c p.segments h.all in
      let (t, opens, empty) = opens_new (front ++ s ∷ []) in
      let (t', e, holds) = write-Holds now payload empty fits in
      (
        grown (front ++ s ∷ []) t' payload (with_next (Read.next_offset s) (front ++ s ∷ []) t p),
        write_rolled now payload front s p h.open_still h.active segs t t' (pos (next_base c)) ttl
            max_size
            (ap
                (λ o.
                  open_segment calm now (new_segment (record p { segments = front ++ s ∷ [] }) o))
                last.holds.next
              ∙ opens)
            (e ∙ ap (λ n. (ok (pos n), t')) {x = next_base c + 0} {y = next_base c} (omega arith))
            (fullness-last front s p true h.active segs full),
        record {
          open_still = h.open_still;
          active = h.active;
          all =
              join_last (cs ++ c ∷ []) (following c payload) (front ++ s ∷ []) t'
                (join_last cs c front s some_hold last) (record { holds = holds; fits = fits });
          ascending =
              Ascending-follow cs c (following c payload) (omega arith) (omega arith) h.ascending;
        },
        record {
          dir = taken_none (Read.next_offset s) p.dir;
          max_segment_size = refl;
          max_partition_size = refl;
          segment_ttl = refl;
          sized = λ all.
              AllSized-append p.max_segment_size (front ++ s ∷ []) t'
                (subst (AllSized p.max_segment_size) segs all)
                (written-max_size calm now payload t t' (ok (pos (next_base c + 0))) e
                  ∙ opened-max_size calm now (record p { segments = front ++ s ∷ [] })
                      (pos (next_base c)) t (ok tt) opens);
        },
      )
