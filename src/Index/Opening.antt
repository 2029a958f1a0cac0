-- ===== src/Index/Opening.antt =====
-- What the start of Segment::open makes of an index file: Index::open, sanityCheck, and
-- truncateEntries(0).
use mykafka.Prelude.{
  ℕ, suc, ◌+◌, ◌-◌, ◌*◌, ◌≤◌, ◌<◌, ◌≡◌, refl, ◌⊎◌, inl, inr, ◌∙◌, true, false, [], ◌∷◌, ltb, min,
  if◌then◌else◌, arith,
}
use mykafka.Prelude.Int.{pos}
use mykafka.Prelude.Bytes.{int32_of, load, store, load_ext, store_below}
use mykafka.Error.{ok}
use mykafka.Env.{calm}
use mykafka.Index.{
  Index, File, valid, is_empty, default_size, create_file, open_file, sanity_check,
  truncate_entries,
}
use mykafka.Index.Entries.{HasEntries}

abbrev pub default_entries : ℕ
default_entries = 1310720

-- The memory of a mapped file of the default size: what the file held, zeros behind it, and a zero
-- in the last byte.
abbrev pub mapped_bytes : File → ℕ → ℕ
mapped_bytes f =
    store (λ q. if ltb q (min f.len default_size) then f.byte q else 0) (default_size - 1) (0 ∷ [])

-- The index behind `open`.
abbrev pub opened : Index → Index
opened s = record s {
  fd = valid;
  position = pos (create_file s.file).len;
  mapped = true;
  file = record { exists = true; len = default_size; byte = mapped_bytes (create_file s.file) };
}

pub open_file-calm :
    (s : Index)
    → s.size ≡ pos default_size
    → is_empty s.filename ≡ false
    → open_file calm s ≡ (ok tt, opened s)
unfolding open_file
open_file-calm s sized named = ground (arith, sized, named)

-- An index file that `sanityCheck` accepts: it is empty, or it is made of whole entries that fit the
-- default size, and the last entry's offset is not negative.
abbrev pub IsSane : File → Type 0
IsSane f =
    (f.len ≡ 0)
    ⊎ ((k o : ℕ) × (f.len ≡ 8 * suc k)
        × (suc k ≤ default_entries)
        × (int32_of (load f.byte (8 * k) 4) ≡ pos o))

load-mapped_bytes :
    (f : File) (q : ℕ)
    → q + 4 ≤ f.len
    → q + 4 < default_size
    → load (mapped_bytes f) q 4 ≡ load f.byte q 4
load-mapped_bytes f q inside lt = load_ext (mapped_bytes f) f.byte q 4 (λ i l u.
    store_below (λ j. if ltb j (min f.len default_size) then f.byte j else 0) (default_size - 1)
      (0 ∷ []) i (omega arith)
    ∙ ground arith)

module _ (s : Index) (base : ℕ) (sized : s.size ≡ pos default_size)
    (based : s.base_offset ≡ pos base) where
  pub sanity_check-opened :
      IsSane (create_file s.file) → sanity_check (opened s) ≡ (ok tt, opened s)
  unfolding sanity_check
  sanity_check-opened (inl empty) = ground (arith, empty)
  sanity_check-opened (inr (k, o, whole, fits, last)) = ground (
    arith,
    whole,
    sized,
    based,
    last,
    load-mapped_bytes (create_file s.file) (8 * k) (omega arith) (omega arith),
  )

  pub truncate_entries-opened :
      truncate_entries (pos 0) (opened s) ≡ (ok tt, record (opened s) { position = pos 0 })
  unfolding truncate_entries
  truncate_entries-opened = ground arith

  pub truncated-HasEntries :
      HasEntries base default_entries [] (record (opened s) { position = pos 0 })
  truncated-HasEntries = record {
    opened = refl;
    on_disk = refl;
    whole = refl;
    mapped = refl;
    sized = sized;
    based = based;
    placed = refl;
    fits = omega arith;
    entry = λ i e h. cc;
  }
