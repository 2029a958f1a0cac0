-- ===== src/Partition/Appends.antt =====
-- What a write to a partition means to its readers.
use mykafka.Prelude.{
  ℕ, ◌<◌, ◌≡◌, refl, sym, ap, ◌∙◌, true, false, List, [], ◌∷◌, ◌++◌, append_assoc, length,
}
use mykafka.Prelude.Int.{ℤ, pos}
use mykafka.Error.{ok}
use mykafka.Env.{calm}
use mykafka.Names.{print_offset}
use mykafka.Index.{absent}
use mykafka.Index.Opening.{default_entries}
use mykafka.Segment.State.{no_log}
use mykafka.Segment.Layout.{Payload}
use mykafka.Segment.Holds.{Fits}
use mykafka.Partition.State.{Partition, stored_log, stored_index}
use mykafka.Partition.Read.{read_at}
use mykafka.Partition.Write.{write}
use mykafka.Partition.Chunks.{Chunk, next_base}
use mykafka.Partition.Reads.{HoldsAll, answer, read_at-answer}
use mykafka.Partition.Writes.{extended, following, fullness, write-kept, write-rolled}
use mykafka.Partition.History.{answer_behind, answer-append, scan-extended, scan-following}

-- The partition `p'` answers a reader as `p` did, but for the offset `n`, where it has `payload`.
abbrev pub Appended : ℕ → Payload → Partition → Partition → Type 0
Appended n payload p p' =
    (buffer : Payload) (target : ℤ)
    → read_at calm p' buffer target ≡ answer_behind n payload target (read_at calm p buffer target)

-- What the chunks behind the write mean to the readers.
module _ (payload : Payload) (cs : List Chunk) (c : Chunk) (p p' : Partition)
    (h : HoldsAll (cs ++ c ∷ []) p) where
  pub Appended-extended :
      HoldsAll (cs ++ extended c payload ∷ []) p' → Appended (next_base c) payload p p'
  Appended-extended h' buffer target =
      read_at-answer (cs ++ extended c payload ∷ []) p' buffer target h'
      ∙ answer-append cs c (extended c payload) [] buffer payload target h.ascending refl
          (λ o. scan-extended c o payload)
      ∙ ap (answer_behind (next_base c) payload target)
          (sym (read_at-answer (cs ++ c ∷ []) p buffer target h))

  pub Appended-following :
      HoldsAll ((cs ++ c ∷ []) ++ following c payload ∷ []) p' → Appended (next_base c) payload p p'
  Appended-following h' buffer target =
      read_at-answer ((cs ++ c ∷ []) ++ following c payload ∷ []) p' buffer target h'
      ∙ ap (λ ds. answer ds buffer target) (append_assoc cs (c ∷ []) (following c payload ∷ []))
      ∙ answer-append cs c c (following c payload ∷ []) buffer payload target h.ascending refl
          (λ o. scan-following c o payload)
      ∙ ap (answer_behind (next_base c) payload target)
          (sym (read_at-answer (cs ++ c ∷ []) p buffer target h))

module _ (now : ℤ) (payload : Payload) (cs : List Chunk) (c : Chunk) (p : Partition)
    (h : HoldsAll (cs ++ c ∷ []) p) where
  -- When no call fails, writing a message to an open partition whose segments hold ascending
  -- chunks, the active one of which is not full, succeeds if the longer last chunk fits; it hands
  -- over the offset behind the last message, the segments then hold the same chunks with the
  -- message behind the last one, and every offset but the new one, which has the message, reads
  -- as before.
  pub write-Appended_kept :
      fullness p ≡ ok false
      → Fits c.base default_entries (c.messages ++ payload ∷ [])
      → (p' : Partition) × (write calm now payload p ≡ (ok (pos (next_base c)), p'))
        × HoldsAll (cs ++ extended c payload ∷ []) p'
        × Appended (next_base c) payload p p'
  write-Appended_kept room fits =
      let (p', e, h', _) = write-kept now payload cs c p h room fits in
      (p', e, h', Appended-extended payload cs c p p' h h')

  -- When no call fails, writing a message that fits to an open partition without limits of time
  -- and size, the active segment of which is full and has a message, succeeds if the directory
  -- has no files under the next offset; it hands over that offset, a new chunk with the message
  -- follows the others, and every offset but the new one, which has the message, reads as before.
  pub write-Appended_rolled :
      stored_log (print_offset (pos (next_base c))) p.dir ≡ no_log
      → stored_index (print_offset (pos (next_base c))) p.dir ≡ absent
      → Fits (next_base c) default_entries (payload ∷ [])
      → fullness p ≡ ok true
      → p.segment_ttl ≡ pos 0
      → p.max_partition_size ≡ pos 0
      → 0 < length c.messages
      → (p' : Partition) × (write calm now payload p ≡ (ok (pos (next_base c)), p'))
        × HoldsAll ((cs ++ c ∷ []) ++ following c payload ∷ []) p'
        × Appended (next_base c) payload p p'
  write-Appended_rolled no_log_yet no_index_yet fits full ttl max_size some_message =
      let (p', e, h', _) =
        write-rolled now payload c p no_log_yet no_index_yet fits cs h full ttl max_size
          some_message in
      (p', e, h', Appended-following payload cs c p p' h h')
