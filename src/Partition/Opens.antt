-- ===== src/Partition/Opens.antt =====
-- Partition::open over the files of a partition.
use mykafka.Prelude.{
  ℕ, ◌+◌, ◌≡◌, refl, sym, ap, ap₂, ◌∙◌, true, false, Bool-cases, inl, inr, ◌<◌, ◌^◌, List, [], ◌∷◌,
  ◌++◌, append_assoc, append-nil, arith,
}
use mykafka.Prelude.Int.{ℤ, pos}
use mykafka.Error.{ok}
use mykafka.Env.{calm}
use mykafka.Names.{Text, print_offset, same_text, same_text→eq}
use mykafka.Names.Offsets.{print_offset_apart}
use mykafka.Index.{create_file}
use mykafka.Index.Opening.{default_entries, IsSane}
use mykafka.Segment.State.{Segment}
use mykafka.Segment.Layout.{total}
use mykafka.Segment.Holds.{Fits, Holds}
use mykafka.Segment.Recover.{open_segment}
use mykafka.Segment.Opened.{LogHolds, open_segment-Holds}
use mykafka.Partition.State.{
  Partition, Stored, new_segment, stored_log, stored_index, take_out, fill_files_list,
}
use mykafka.Partition.Open.{
  open_all, open_new, push_back, last_size, open_first, clean_silently, open_partition,
}
use mykafka.Partition.Clean.{is_doomed, fate, clean_loop, clean_old_segments}
use mykafka.Partition.Chunks.{Chunk, AllHold, Ascending, Ascending-tail}
use mykafka.Partition.Reads.{HoldsAll}

-- The directory has the log of a chunk under the name of its offset, and an index file that is
-- empty, absent or sane.
pub record StoresChunk (dir : List Stored) (c : Chunk) : Type 0 where
  pub logged : LogHolds c.base c.messages (stored_log (print_offset (pos c.base)) dir)
  pub sane : IsSane (create_file (stored_index (print_offset (pos c.base)) dir))
  pub fits : Fits c.base default_entries c.messages

abbrev pub StoresAll : List Stored → List Chunk → Type 0
StoresAll dir [] = Unit {0}
StoresAll dir (c ∷ cs) = StoresChunk dir c × StoresAll dir cs

abbrev pub bases : List Chunk → List ℤ
bases [] = []
bases (c ∷ cs) = pos c.base ∷ bases cs

-- The bytes of the logs.
abbrev pub bytes : List Chunk → ℕ
bytes [] = 0
bytes (c ∷ cs) = total c.messages + bytes cs

last_size-append :
    (front : List Segment) (s : Segment) → last_size (front ++ s ∷ []) ≡ s.physical_size
unfolding last_size
last_size-append [] s = refl
last_size-append (t ∷ []) s = refl
last_size-append (t ∷ (u ∷ front)) s = last_size-append (u ∷ front) s

pub opens_stored :
    (now : ℤ) (c : Chunk) (p : Partition)
    → StoresChunk p.dir c
    → (s : Segment) × (open_segment calm now (new_segment p (pos c.base)) ≡ (ok tt, s))
      × Holds c.base default_entries c.messages s
unfolding new_segment
opens_stored now c p h =
    open_segment-Holds p.path p.max_segment_size now c.base c.messages
      (stored_log (print_offset (pos c.base)) p.dir)
      (stored_index (print_offset (pos c.base)) p.dir) h.logged h.sane h.fits

-- The files that are left when segments of the chunks have opened.
unfoldable pub left_over : List Chunk → List Stored → List Stored
left_over [] dir = dir
left_over (c ∷ cs) dir = left_over cs (take_out (print_offset (pos c.base)) dir)

-- Files with another name stay.
module _ (a b : Text) (apart : same_text a b ≡ false) where
  not_this : (stem : Text) → same_text stem a ≡ true → same_text stem b ≡ false
  not_this stem same = ap (λ t. same_text t b) (same_text→eq stem a same) ∙ apart

  stored_log-take_out : (dir : List Stored) → stored_log b (take_out a dir) ≡ stored_log b dir
  unfolding stored_log take_out
  stored_log-take_out [] = refl
  stored_log-take_out (e ∷ dir) = elim (Bool-cases (same_text e.stem a)) [
    | inl same ↦ ground (arith, same, not_this e.stem same)
    | inr differ ↦ ground (arith, differ, stored_log-take_out dir)
  ]

  stored_index-take_out : (dir : List Stored) → stored_index b (take_out a dir) ≡ stored_index b dir
  unfolding stored_index take_out
  stored_index-take_out [] = refl
  stored_index-take_out (e ∷ dir) = elim (Bool-cases (same_text e.stem a)) [
    | inl same ↦ ground (arith, same, not_this e.stem same)
    | inr differ ↦ ground (arith, differ, stored_index-take_out dir)
  ]

-- All chunks start behind an offset.
abbrev Above : ℕ → List Chunk → Type 0
Above n [] = Unit {0}
Above n (c ∷ cs) = (n < c.base) × Above n cs

Above-more : (m n : ℕ) (cs : List Chunk) → m < n → Above n cs → Above m cs
Above-more m n [] lt h = tt
Above-more m n (c ∷ cs) lt (l, h) = (omega arith, Above-more m n cs lt h)

Ascending-Above : (c : Chunk) (cs : List Chunk) → Ascending (c ∷ cs) → Above c.base cs
Ascending-Above c [] up = tt
Ascending-Above c (d ∷ cs) (lt, le, up) =
    (lt, Above-more c.base d.base cs lt (Ascending-Above d cs up))

take_out-StoresAll :
    (n : ℕ) (cs : List Chunk) (dir : List Stored)
    → n < 2 ^ 63
    → Above n cs
    → StoresAll dir cs
    → StoresAll (take_out (print_offset (pos n)) dir) cs
take_out-StoresAll n [] dir bound above stored = tt
take_out-StoresAll n (c ∷ cs) dir bound (lt, above) (h, stored) =
    let apart = print_offset_apart n c.base bound (omega (arith, h.fits.offsets)) lt in
    (
      record {
        logged =
            rw (stored_log-take_out (print_offset (pos n)) (print_offset (pos c.base)) apart dir)
              h.logged;
        sane =
            rw (stored_index-take_out (print_offset (pos n)) (print_offset (pos c.base)) apart dir)
              h.sane;
        fits = h.fits;
      },
      take_out-StoresAll n cs dir bound above stored,
    )

-- The partition behind the loop.
abbrev loaded : Partition → List Segment → ℕ → List Stored → Partition
loaded p segments size dir = record p { segments = segments; physical_size = pos size; dir = dir }

open_all-step :
    (now : ℤ) (o : ℤ) (os : List ℤ) (p : Partition) (s : Segment) (k n : ℕ)
    → open_segment calm now (new_segment p o) ≡ (ok tt, s)
    → p.physical_size ≡ pos k
    → s.physical_size ≡ pos n
    → open_all calm now (o ∷ os) p
      ≡ open_all calm now os
          (loaded p (p.segments ++ s ∷ []) (k + n) (take_out (print_offset o) p.dir))
unfolding open_all open_new push_back
open_all-step now o os p s k n e sized last =
    ground (arith, e, last_size-append p.segments s, sized, last)

open_all-done :
    (now : ℤ) (p : Partition) (k : ℕ)
    → p.physical_size ≡ pos k
    → open_all calm now [] p ≡ (ok tt, loaded p (p.segments ++ []) (k + 0) p.dir)
unfolding open_all
open_all-done now p k sized =
    ap₂ (λ segs size. (ok tt, record p { segments = segs; physical_size = size }))
      (sym (append-nil p.segments)) (sized ∙ ap pos (omega arith))

open_all-AllHold :
    (now : ℤ) (cs : List Chunk) (p : Partition) (k : ℕ)
    → StoresAll p.dir cs
    → Ascending cs
    → p.physical_size ≡ pos k
    → (segments : List Segment) × (open_all calm now (bases cs) p
        ≡ (ok tt, loaded p (p.segments ++ segments) (k + bytes cs) (left_over cs p.dir)))
      × AllHold cs segments
unfolding left_over
open_all-AllHold now [] p k stored up sized = ([], open_all-done now p k sized, tt)
open_all-AllHold now (c ∷ cs) p k (h, stored) up sized =
    let (s, e, holds) = opens_stored now c p h in
    let dir = take_out (print_offset (pos c.base)) p.dir in
    let (segments, run, all) =
      open_all-AllHold now cs (loaded p (p.segments ++ s ∷ []) (k + total c.messages) dir)
        (k + total c.messages)
        (take_out-StoresAll c.base cs p.dir (omega (arith, h.fits.offsets))
          (Ascending-Above c cs up) stored)
        (Ascending-tail c cs up) refl in
    (
      s ∷ segments,
      open_all-step now (pos c.base) (bases cs) p s k (total c.messages) e sized holds.physical
          ∙ run
          ∙ ap₂ (λ segs n. (ok tt, loaded p segs n (left_over cs dir)))
              {u = k + total c.messages + bytes cs} {v = k + bytes (c ∷ cs)}
              (append_assoc p.segments (s ∷ []) segments) (omega arith),
      (record { holds = holds; fits = h.fits }, all),
    )

-- Without limits no segment is deleted.
clean_loop-unlimited :
    (now : ℤ) (p : Partition) (segments : List Segment)
    → p.segment_ttl ≡ pos 0
    → p.max_partition_size ≡ pos 0
    → clean_loop calm now p segments ≡ (ok tt, p, segments)
unfolding clean_loop fate is_doomed
clean_loop-unlimited now p [] ttl max_size = refl
clean_loop-unlimited now p (s ∷ []) ttl max_size = refl
clean_loop-unlimited now p (s ∷ (t ∷ rest)) ttl max_size =
    ground (arith, ttl, max_size, clean_loop-unlimited now p (t ∷ rest) ttl max_size)

-- Without limits and over the files of ascending chunks a partition opens.
module _ (now : ℤ) (c : Chunk) (cs : List Chunk) (p : Partition)
    (listing : fill_files_list p.dir ≡ bases (c ∷ cs)) (stored : StoresAll p.dir (c ∷ cs))
    (ascending : Ascending (c ∷ cs)) (none_yet : p.segments ≡ [])
    (no_bytes : p.physical_size ≡ pos 0) (open_still : p.cancel ≡ false)
    (ttl : p.segment_ttl ≡ pos 0) (max_size : p.max_partition_size ≡ pos 0) where
  abbrev pub opened : List Segment → Partition
  opened segments = record (loaded p segments (bytes (c ∷ cs)) (left_over (c ∷ cs) p.dir)) {
    active = true;
  }

  open_partition-steps :
      (s : Segment) (segments : List Segment)
      → open_all calm now (bases (c ∷ cs)) p
        ≡ (ok tt, loaded p (s ∷ segments) (bytes (c ∷ cs)) (left_over (c ∷ cs) p.dir))
      → open_partition calm now p ≡ (ok tt, opened (s ∷ segments))
  unfolding open_partition open_first clean_silently clean_old_segments
  open_partition-steps s segments run = ground (
    arith,
    listing,
    run,
    clean_loop-unlimited now (opened (s ∷ segments)) (s ∷ segments) ttl max_size,
  )

  held :
      (segments : List Segment)
      → AllHold (c ∷ cs) segments
      → open_all calm now (bases (c ∷ cs)) p
        ≡ (ok tt, loaded p segments (bytes (c ∷ cs)) (left_over (c ∷ cs) p.dir))
      → (open_partition calm now p ≡ (ok tt, opened segments)) × HoldsAll (c ∷ cs) (opened segments)
  held [] all run = absurd all
  held (s ∷ segments) all run = (
    open_partition-steps s segments run,
    record { open_still = open_still; active = refl; all = all; ascending = ascending },
  )

  pub open_partition-opened :
      (segments : List Segment) × (open_partition calm now p ≡ (ok tt, opened segments))
      × HoldsAll (c ∷ cs) (opened segments)
  open_partition-opened =
      let (segments, run, all) = open_all-AllHold now (c ∷ cs) p 0 stored ascending no_bytes in
      let (e, h) = held segments all (
        run
        ∙ ap₂ (λ segs n. (ok tt, loaded p segs n (left_over (c ∷ cs) p.dir)))
            {u = 0 + bytes (c ∷ cs)} {v = bytes (c ∷ cs)} (ap (λ l. l ++ segments) none_yet)
            (omega arith)) in
      (segments, e, h)

  -- When no call fails, a new partition object without limits, over a directory whose sorted
  -- offsets are those of at least one chunk, in ascending order, each with a log of exactly its
  -- messages and an index file that is absent, empty or sane, opens if the chunks fit; its
  -- segments then hold these chunks, and its size is the number of bytes of the logs.
  pub open_partition-HoldsAll :
      (p' : Partition) × (open_partition calm now p ≡ (ok tt, p'))
      × HoldsAll (c ∷ cs) p'
      × (p'.physical_size ≡ pos (bytes (c ∷ cs)))
  open_partition-HoldsAll =
      let (segments, e, h) = open_partition-opened in (opened segments, e, h, refl)
