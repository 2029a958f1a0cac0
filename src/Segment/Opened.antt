-- ===== src/Segment/Opened.antt =====
-- Segment::open on a log of whole messages.
use mykafka.Prelude.{
  ℕ, suc, ◌+◌, ◌≡◌, refl, ap, ◌∙◌, ◌⊎◌, inl, inr, true, false, List, [], ◌∷◌, arith, length,
  if◌then◌else◌,
}
use mykafka.Prelude.Int.{ℤ, pos}
use mykafka.Error.{ok}
use mykafka.Env.{calm}
use mykafka.Names.{Text, get_index_filename}
use mykafka.Index
use mykafka.Index.{Index, File, valid, default_size, create_file}
use mykafka.Index.Opening.{
  default_entries, opened, open_file-calm, IsSane, sanity_check-opened, truncate_entries-opened,
  truncated-HasEntries,
}
use mykafka.Segment.State
use mykafka.Segment.State.{Segment, LogFile}
use mykafka.Segment.Recover.{reconstruct, open_segment}
use mykafka.Segment.Layout.{Payload, layout, total, length-layout}
use mykafka.Segment.Holds.{Holds, Fits}
use mykafka.Segment.Recovery.{loop_whole}

abbrev created_log : ℤ → LogFile → LogFile
created_log now l = if l.exists then l else record { exists = true; content = []; modified = now }

-- The segment in `open`, before the index is rebuilt.
abbrev before_rebuild : ℤ → Segment → Segment
before_rebuild now s = record s {
  fd = valid;
  fd_read = valid;
  physical_size = pos (length (created_log now s.log).content);
  mtime = (created_log now s.log).modified;
  index = record (opened s.index) { position = pos 0 };
  log = created_log now s.log;
}

-- The log file holds the messages `ps`; there may be no file if there are none.
abbrev pub LogHolds : ℕ → List Payload → LogFile → Type 0
LogHolds base ps l =
    ((l.exists ≡ true) × (l.content ≡ layout base ps)) ⊎ ((l.exists ≡ false) × (ps ≡ []))

created_log-content :
    (now : ℤ) (base : ℕ) (ps : List Payload) (l : LogFile)
    → LogHolds base ps l
    → (created_log now l).content ≡ layout base ps
created_log-content now base ps l (inl (e, c)) = ground (arith, e, c)
created_log-content now base ps l (inr (e, none)) = rw none (rw e)

created_log-exists : (now : ℤ) (l : LogFile) → (created_log now l).exists ≡ true
created_log-exists now l = ground arith

module _ (now : ℤ) (s t : Segment) (sized : s.index.size ≡ pos default_size)
    (named : Index.is_empty s.index.filename ≡ false) (base : ℕ)
    (based : s.index.base_offset ≡ pos base) (sane : IsSane (create_file s.index.file))
    (rebuilt : reconstruct calm (before_rebuild now s) ≡ (ok tt, t)) where
  open_segment_steps : open_segment calm now s ≡ (ok tt, t)
  unfolding open_segment
  open_segment_steps = ground (
    arith,
    open_file-calm s.index,
    sanity_check-opened s.index base,
    truncate_entries-opened s.index base,
    rebuilt,
  )

is_empty-get_index_filename :
    (path : Text) (base : ℤ) → Index.is_empty (get_index_filename path base) ≡ false
unfolding get_index_filename
is_empty-get_index_filename [] base = refl
is_empty-get_index_filename (c ∷ path) base = refl

-- A segment object made over a log file of whole messages, or over no file and no messages, with
-- an index file that is empty or sane, opens when no call fails, whatever its path and size limit
-- are, if the messages fit the index and the integer types; it then holds exactly these messages,
-- with the next offset, the position, the size and every index entry rebuilt.
pub open_segment-Holds :
    (path : Text) (max_size now : ℤ) (base : ℕ) (ps : List Payload) (log : LogFile) (file : File)
    → LogHolds base ps log
    → IsSane (create_file file)
    → Fits base default_entries ps
    → (s : Segment) × (open_segment calm now (State.new path (pos base) max_size log file)
        ≡ (ok tt, s))
      × Holds base default_entries ps s
unfolding State.new Index.new reconstruct
open_segment-Holds path max_size now base ps log file holds sane fits =
    let s = State.new path (pos base) max_size log file in
    let content = created_log-content now base ps log holds in
    let (index, run, has) =
      loop_whole (suc default_size) [] ps ps (before_rebuild now s) (omega (arith, fits.room)) refl
        fits (content ∙ ap (λ o. layout o ps) {x = base} {y = base + 0} (omega arith))
        (ap pos (omega arith)) refl (truncated-HasEntries s.index base refl refl) in
    (
      record (before_rebuild now s) {
        next_offset = pos (base + length ps);
        position = pos (total ps);
        index = index;
      },
      open_segment_steps now s _ refl (is_empty-get_index_filename path (pos base)) base refl sane
          run,
      record {
        next = refl;
        placed = refl;
        physical = ap (λ c. pos (length c)) content ∙ ap pos (length-layout base ps);
        logged = content;
        writable = refl;
        readable = refl;
        on_disk = created_log-exists now log;
        indexed = has;
      },
    )
