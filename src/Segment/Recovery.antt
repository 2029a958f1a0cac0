-- ===== src/Segment/Recovery.antt =====
-- The reconstruction of the index from a log of whole messages.
use mykafka.Prelude.{
  ℕ, zero, suc, ◌+◌, ◌^◌, ◌≤◌, ◌<◌, ◌≡◌, refl, sym, ap, ◌∙◌, subst, none, some, List, [], ◌∷◌, ◌++◌,
  append-nil, append_assoc, arith, length, length-append, take, drop, take-append, drop-append,
  drop-append_add, drop_add,
}
use mykafka.Prelude.Int.{pos, negsuc}
use mykafka.Prelude.Bytes.{
  int64_bytes, int32_bytes, overlay_whole, length-int64_bytes, length-int32_bytes, int64_of-bytes,
  int32_of-bytes,
}
use mykafka.Error.{ok}
use mykafka.Env.{calm}
use mykafka.Index
use mykafka.Index.{Index}
use mykafka.Index.Entries.{HasEntries, write-HasEntries}
use mykafka.Segment.State.{Segment}
use mykafka.Segment.Write.{header}
use mykafka.Segment.Recover.{reconstruct_read, reconstruct_step, reconstruct_loop}
use mykafka.Segment.Layout.{
  Payload, layout, total, entries, length-header, length-entries, entries-append_first,
  total-append, is_empty-int64_bytes, is_empty-int32_bytes, total-le,
}
use mykafka.Segment.Holds.{Fits, length-le-total}

-- The segment behind a round that read a whole message.
abbrev after_round : Segment → ℕ → ℕ → Index → Segment
after_round s o q index = record s { next_offset = pos (o + 1); position = pos q; index = index }

module _ (s : Segment) (cursor o n q : ℕ) (index : Index) (small_offset : o < 2 ^ 63)
    (small : n < 2 ^ 31) (at : s.position ≡ pos q)
    (wrote : Index.write (pos o) (pos q) s.index ≡ (ok tt, index)) where
  read_whole :
      reconstruct_read calm cursor (int64_bytes (pos o)) (int32_bytes (pos n)) s
      ≡ (ok (some (cursor + 8 + 4 + n)), after_round s o (q + (n + 12)) index)
  unfolding reconstruct_read
  read_whole = ground (
    arith,
    at,
    wrote,
    overlay_whole (int64_bytes (pos o)) (int64_bytes s.next_offset),
    overlay_whole (int32_bytes (pos n)) (int32_bytes (negsuc 0)),
    length-int64_bytes (pos o),
    length-int64_bytes s.next_offset,
    length-int32_bytes (pos n),
    length-int32_bytes (negsuc 0),
    int64_of-bytes o,
    int32_of-bytes n,
    is_empty-int64_bytes (pos o),
    is_empty-int32_bytes (pos n),
  )

  step_whole :
      (tail : List ℕ)
      → drop cursor s.log.content ≡ header (pos o) (pos n) ++ tail
      → reconstruct_step calm cursor s
        ≡ (ok (some (cursor + 8 + 4 + n)), after_round s o (q + (n + 12)) index)
  unfolding reconstruct_step header
  step_whole tail here =
      let offset_bytes : take 8 (drop cursor s.log.content) ≡ int64_bytes (pos o) =
        ap (take 8) (here ∙ append_assoc (int64_bytes (pos o)) (int32_bytes (pos n)) tail)
        ∙ take-append 8 (int64_bytes (pos o)) (int32_bytes (pos n) ++ tail)
            (length-int64_bytes (pos o)) in
      let size_bytes : take 4 (drop (cursor + length (int64_bytes (pos o))) s.log.content)
          ≡ int32_bytes (pos n) =
        ap (take 4) (
          drop_add s.log.content (cursor + length (int64_bytes (pos o))) cursor 8
            (omega (arith, length-int64_bytes (pos o)))
          ∙ ap (drop 8) (here ∙ append_assoc (int64_bytes (pos o)) (int32_bytes (pos n)) tail)
          ∙ drop-append 8 (int64_bytes (pos o)) (int32_bytes (pos n) ++ tail)
              (length-int64_bytes (pos o)))
        ∙ take-append 4 (int32_bytes (pos n)) tail (length-int32_bytes (pos n)) in
      ap
        (λ bytes.
          reconstruct_read calm cursor bytes (take 4 (drop (cursor + length bytes) s.log.content))
            s)
        offset_bytes
      ∙ ap (λ bytes. reconstruct_read calm cursor (int64_bytes (pos o)) bytes s) size_bytes
      ∙ read_whole

-- At the end of the log the loop stops.
step_end :
    (s : Segment) (cursor : ℕ)
    → drop cursor s.log.content ≡ []
    → reconstruct_step calm cursor s ≡ (ok none, s)
unfolding reconstruct_step
step_end s cursor here = rw (here, reconstruct_read)

loop_end :
    (fuel cursor : ℕ) (s : Segment)
    → reconstruct_step calm cursor s ≡ (ok none, s)
    → reconstruct_loop (suc fuel) calm cursor s ≡ (ok tt, s)
unfolding reconstruct_loop
loop_end fuel cursor s e = ground (arith, e)

loop_next :
    (fuel cursor next : ℕ) (s s' : Segment)
    → reconstruct_step calm cursor s ≡ (ok (some next), s')
    → reconstruct_loop (suc fuel) calm cursor s ≡ reconstruct_loop fuel calm next s'
unfolding reconstruct_loop
loop_next fuel cursor next s s' e = ground (arith, e)

recovered_self :
    (s : Segment) (o q : ℕ)
    → s.next_offset ≡ pos o
    → s.position ≡ pos q
    → s ≡ record s { next_offset = pos o; position = pos q }
recovered_self s o q next at = ground (arith, next, at)

-- The loop, from a place behind the messages `pre`, on a log that goes on with the messages `post`.
pub loop_whole :
    {base cap : ℕ} (fuel : ℕ) (pre post all : List Payload) (s : Segment)
    → length post < fuel
    → all ≡ pre ++ post
    → Fits base cap all
    → drop (total pre) s.log.content ≡ layout (base + length pre) post
    → s.next_offset ≡ pos (base + length pre)
    → s.position ≡ pos (total pre)
    → HasEntries base cap (entries 0 0 pre) s.index
    → (index : Index) × (reconstruct_loop fuel calm (total pre) s ≡ (
      ok tt,
      record s { next_offset = pos (base + length all); position = pos (total all); index = index },
    ))
      × HasEntries base cap (entries 0 0 all) index
loop_whole zero pre post all s f e fits here next at has = absurd (omega arith)
loop_whole {base} {cap} (suc fuel) pre [] all s f e fits here next at has =
    let same : all ≡ pre = e ∙ append-nil pre in
    (
      s.index,
      loop_end fuel (total pre) s (step_end s (total pre) here)
          ∙ ap (λ t. (ok tt, t))
              (recovered_self s (base + length all) (total all)
                (next ∙ ap (λ l. pos (base + length l)) (sym same))
                (at ∙ ap (λ l. pos (total l)) (sym same))),
      subst (λ l. HasEntries base cap (entries 0 0 l) s.index) (sym same) has,
    )
loop_whole {base} {cap} (suc fuel) pre (p ∷ post) all s f e fits here next at has =
    let pre' = pre ++ p ∷ [] in
    let e' : all ≡ pre' ++ post = e ∙ sym (append_assoc pre (p ∷ []) post) in
    let l' : length pre' ≡ length pre + 1 = length-append pre (p ∷ []) in
    let t' : total pre' ≡ total pre + (12 + length p) = total-append pre p in
    let n' : length all ≡ length pre + suc (length post) =
      ap length e ∙ length-append pre (p ∷ post) in
    let b' : total pre + (12 + length p) ≤ total all =
      omega (arith, ap total e', total-le pre' post) in
    let (index, wrote, has') =
      write-HasEntries (length pre) (total pre) has (omega (arith, fits.bytes, length-le-total all))
        (omega (arith, fits.bytes)) (omega (arith, length-entries 0 0 pre, fits.room)) in
    let s' = after_round s (base + length pre) (total pre + (length p + 12)) index in
    let (last, run, has_all) =
      loop_whole fuel pre' post all s' (omega arith) e' fits
        (drop_add s.log.content (total pre') (total pre) (12 + length p) t'
          ∙ ap (drop (12 + length p)) here
          ∙ drop-append_add (header (pos (base + length pre)) (pos (length p)))
              (p ++ layout (base + length pre + 1) post) (12 + length p) (length p)
              (omega (arith, length-header (pos (base + length pre)) (pos (length p))))
          ∙ drop-append (length p) p (layout (base + length pre + 1) post) refl
          ∙ ap (λ o. layout o post) {x = base + length pre + 1} {y = base + length pre'}
              (omega arith))
        (ap pos (omega arith)) (ap pos (omega arith))
        (subst (λ es. HasEntries base cap es index) (sym (entries-append_first pre p)) has') in
    (
      last,
      loop_next fuel (total pre) (total pre + 8 + 4 + length p) s s' (
            step_whole s (total pre) (base + length pre) (length p) (total pre) index
              (omega (arith, fits.offsets)) (omega (arith, fits.bytes)) at wrote
              (p ++ layout (base + length pre + 1) post) here)
          ∙ ap (λ c. reconstruct_loop fuel calm c s') {x = total pre + 8 + 4 + length p}
              {y = total pre'} (omega arith)
          ∙ run,
      has_all,
    )
