-- ===== src/Segment/Holds.antt =====
-- The invariant of an open segment, and Segment::write against it.
use mykafka.Prelude.{
  ℕ, ◌+◌, ◌^◌, ◌≤◌, ◌<◌, ◌≡◌, ap, subst, ◌∙◌, sym, true, List, [], ◌∷◌, ◌++◌, arith, length,
  length-append, take_all,
}
use mykafka.Prelude.Int.{ℤ, pos}
use mykafka.Error.{ok}
use mykafka.Env.{calm}
use mykafka.Index
use mykafka.Index.{Index, valid}
use mykafka.Index.Entries.{HasEntries, write-HasEntries}
use mykafka.Segment.State.{Segment}
use mykafka.Segment.Write.{write, header}
use mykafka.Segment.Layout.{
  Payload, layout, total, entries, layout-append, total-append, length-entries,
  entries-append_first, is_empty-header,
}

-- The open segment `s` at offset `base`, with an index of `cap` entries, holds the messages `ps`, in
-- the log and in the index.
pub record Holds (base cap : ℕ) (ps : List Payload) (s : Segment) : Type 0 where
  pub next : s.next_offset ≡ pos (base + length ps)
  pub placed : s.position ≡ pos (total ps)
  pub physical : s.physical_size ≡ pos (total ps)
  pub logged : s.log.content ≡ layout base ps
  pub writable : s.fd ≡ valid
  pub readable : s.fd_read ≡ valid
  pub on_disk : s.log.exists ≡ true
  pub indexed : HasEntries base cap (entries 0 0 ps) s.index

-- The numbers that a segment of these messages needs fit their types: the int32_t positions and
-- sizes, and the int64_t offsets; the index has room.
pub record Fits (base cap : ℕ) (ps : List Payload) : Type 0 where
  pub room : length ps ≤ cap
  pub bytes : total ps < 2 ^ 31
  pub offsets : base + length ps < 2 ^ 63

pub length-le-total : (ps : List Payload) → length ps ≤ total ps
length-le-total [] = omega arith
length-le-total (p ∷ ps) = omega (arith, length-le-total ps)

-- The segment after the message `p` was written, with the index that it has then.
abbrev pub written : ℕ → List Payload → Segment → ℤ → Payload → Index → Segment
written base ps s now p index = record s {
  next_offset = pos (base + length ps + 1);
  position = pos (total ps + (12 + length p));
  physical_size = pos (total ps + (12 + length p));
  index = index;
  log = record s.log {
    content = (s.log.content ++ header (pos (base + length ps)) (pos (length p))) ++ p;
    modified = now;
  };
}

module _ (base : ℕ) (ps : List Payload) (s : Segment) (now : ℤ) (p : Payload) where
  -- The call, by the counters of the segment alone.
  pub write-written :
      s.next_offset ≡ pos (base + length ps)
      → s.position ≡ pos (total ps)
      → s.physical_size ≡ pos (total ps)
      → s.fd ≡ valid
      → (index : Index) → length p < 2 ^ 31
      → Index.write (pos (base + length ps)) (pos (total ps)) s.index ≡ (ok tt, index)
      → write calm now p s ≡ (ok (pos (base + length ps)), written base ps s now p index)
  unfolding write
  write-written next placed physical writable index small e = ground (
    arith,
    next,
    placed,
    physical,
    writable,
    e,
    take_all (length p) p,
    is_empty-header (pos (base + length ps)) (pos (length p)),
  )

module _ {base cap : ℕ} {ps : List Payload} {s : Segment} (now : ℤ) (p : Payload) where
  written-Holds :
      (h : Holds base cap ps s) (index : Index)
      → HasEntries base cap (entries 0 0 ps ++ (length ps, total ps) ∷ []) index
      → Holds base cap (ps ++ p ∷ []) (written base ps s now p index)
  written-Holds h index has = record {
    next = ap pos (omega (arith, length-append ps (p ∷ [])));
    placed = ap pos (omega (arith, total-append ps p));
    physical = ap pos (omega (arith, total-append ps p));
    logged =
        ap (λ l. (l ++ header (pos (base + length ps)) (pos (length p))) ++ p) h.logged
        ∙ sym (layout-append base ps p);
    writable = h.writable;
    readable = h.readable;
    on_disk = h.on_disk;
    indexed = subst (λ es. HasEntries base cap es index) (sym (entries-append_first ps p)) has;
  }

-- When no call fails, writing a message to a segment that holds a list of messages succeeds, if
-- the longer list fits the index and the integer types; it hands over the base offset plus the
-- number of the old messages, and the segment then holds the old messages and the new one behind
-- them.
pub write-Holds :
    {base cap : ℕ} {ps : List Payload} {s : Segment} (now : ℤ) (p : Payload)
    → Holds base cap ps s
    → Fits base cap (ps ++ p ∷ [])
    → (s' : Segment) × (write calm now p s ≡ (ok (pos (base + length ps)), s'))
      × Holds base cap (ps ++ p ∷ []) s'
write-Holds {base = base} {ps = ps} {s = s} now p h fits =
    let l = length-append ps (p ∷ []) in
    let t = total-append ps p in
    let le = length-le-total ps in
    let (index, e, has) =
      write-HasEntries (length ps) (total ps) h.indexed (omega (arith, fits.bytes))
        (omega (arith, fits.bytes)) (omega (arith, length-entries 0 0 ps, fits.room)) in
    (
      written base ps s now p index,
      write-written base ps s now p h.next h.placed h.physical h.writable index
          (omega (arith, fits.bytes)) e,
      written-Holds now p h index has,
    )
