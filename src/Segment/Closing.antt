-- ===== src/Segment/Closing.antt =====
-- What Segment::close leaves on disk of a segment that holds messages.
use mykafka.Prelude.{
  ℕ, zero, suc, ◌+◌, ◌*◌, ◌≤◌, ◌≡◌, refl, ap, ◌∙◌, true, false, some, inl, inr, List, [], ◌∷◌,
  arith, length, get_elem?, get_elem?-some, ltb, min, if◌then◌else◌,
}
use mykafka.Prelude.Int.{pos}
use mykafka.Prelude.Bytes.{int32_of, load, load_ext}
use mykafka.Error.{ok}
use mykafka.Env.{calm}
use mykafka.Index
use mykafka.Index.{Index, File, unset, valid, create_file}
use mykafka.Index.Entries.{HasEntries, Entry}
use mykafka.Index.Opening.{default_entries, IsSane}
use mykafka.Segment.State.{Segment}
use mykafka.Segment.Close.{close, delete_segment, destroyed}
use mykafka.Segment.Layout.{Payload, layout, entries, length-entries}
use mykafka.Segment.Holds.{Holds}

-- The index file behind ::ftruncate.
abbrev cut : ℕ → File → File
cut n f = record f { len = n; byte = λ q. if ltb q (min f.len n) then f.byte q else 0 }

abbrev closed_index : ℕ → Index → Index
closed_index n s = record s { mapped = false; file = cut n s.file; fd = unset }

close_index :
    (base cap : ℕ) (es : List Entry) (s : Index)
    → HasEntries base cap es s
    → Index.close calm s ≡ (ok tt, closed_index (8 * length es) s)
unfolding Index.close
close_index base cap es s h = ground (arith, h.opened, h.placed)

-- The segment behind close.
abbrev closed : ℕ → Segment → Segment
closed n s = record s {
  fd = unset;
  fd_read = unset;
  position = pos 0;
  mtime = pos 0;
  physical_size = pos 0;
  index = closed_index n s.index;
}

close_segment :
    (base cap : ℕ) (ps : List Payload) (s : Segment)
    → Holds base cap ps s
    → close calm s ≡ (ok tt, closed (8 * length ps) s)
unfolding close
close_segment base cap ps s h =
    let e : Index.close calm s.index ≡ (ok tt, closed_index (8 * length ps) s.index) =
      close_index base cap (entries 0 0 ps) s.index h.indexed
      ∙ ap (λ n. (ok tt, closed_index (8 * n) s.index)) (length-entries 0 0 ps) in
    ground (arith, h.writable, h.readable, e)

-- The file of the index has the entries of the messages and is sane.
entries-first :
    (ps : List Payload) (r q i : ℕ) (e : Entry)
    → get_elem? (entries r q ps) i ≡ some e
    → e.0 ≡ r + i
entries-first [] r q i e h = cc
entries-first (p ∷ ps) r q zero e h = ground (arith, h)
entries-first (p ∷ ps) r q (suc i) e h = omega (arith, entries-first ps (r + 1) _ i e h)

load-cut : (f : File) (n q : ℕ) → q + 4 ≤ n → n ≤ f.len → load (cut n f).byte q 4 ≡ load f.byte q 4
load-cut f n q le len = load_ext (cut n f).byte f.byte q 4 (λ k l u. ground arith)

cut-IsSane :
    (base : ℕ) (ps : List Payload) (s : Index)
    → HasEntries base default_entries (entries 0 0 ps) s
    → IsSane (cut (8 * length ps) s.file)
cut-IsSane base [] s h = inl refl
cut-IsSane base (p ∷ ps) s h =
    let n = length (p ∷ ps) in
    let le : n ≤ default_entries = omega (arith, h.fits, length-entries 0 0 (p ∷ ps)) in
    let (e, here) =
      get_elem?-some (entries 0 0 (p ∷ ps)) (length ps)
        (omega (arith, length-entries 0 0 (p ∷ ps))) in
    inr (
      length ps,
      e.0,
      refl,
      le,
      ap int32_of
            (load-cut s.file (8 * n) (8 * length ps) (omega arith) (omega (arith, h.whole, le)))
          ∙ (h.entry (length ps) e here).0,
    )

-- A segment that is closed leaves its messages on the disk, in files that another object can open.
pub close-stores :
    {base : ℕ} {ps : List Payload} {s : Segment}
    → Holds base default_entries ps s
    → (s' : Segment) × (close calm s ≡ (ok tt, s'))
      × (s'.log.exists ≡ true)
      × (s'.log.content ≡ layout base ps)
      × IsSane (create_file s'.index.file)
      × (s'.index.base_offset ≡ pos base)
      × (destroyed calm s' ≡ s')
unfolding destroyed close Index.close
close-stores {base} {ps} {s} h = (
  closed (8 * length ps) s,
  close_segment base default_entries ps s h,
  h.on_disk,
  h.logged,
  rw h.indexed.on_disk (cut-IsSane base ps s.index h.indexed),
  h.indexed.based,
  refl,
)

-- The segment behind deleteSegment.
abbrev gone : ℕ → Segment → Segment
gone n s = record (closed n s) {
  log = record s.log { exists = false };
  index = record (closed_index n s.index) { file = record (cut n s.index.file) { exists = false } };
}

delete_segment-gone :
    {base : ℕ} {ps : List Payload} {s : Segment}
    → Holds base default_entries ps s
    → delete_segment calm s ≡ (ok tt, gone (8 * length ps) s)
unfolding delete_segment Index.delete_index
delete_segment-gone {base} {ps} {s} h =
    rw (close_segment base default_entries ps s h, h.on_disk, h.indexed.on_disk) refl

-- A segment can be deleted.
pub delete_segment-ends :
    {base : ℕ} {ps : List Payload} {s : Segment}
    → Holds base default_entries ps s
    → (s' : Segment) × (delete_segment calm s ≡ (ok tt, s'))
delete_segment-ends {base} {ps} {s} h = (gone (8 * length ps) s, delete_segment-gone h)
