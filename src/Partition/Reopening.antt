-- ===== src/Partition/Reopening.antt =====
-- Partition::close and another object over the same directory.
use mykafka.Prelude.{
  ℕ, ◌≤◌, ◌<◌, ◌≡◌, refl, sym, ap, ◌∙◌, subst, Bool, true, false, List, [], ◌∷◌, ◌++◌, append_assoc,
  append-nil, arith, if◌then◌else◌,
}
use mykafka.Prelude.Int.{ℤ, pos}
use mykafka.Error.{ok, fault}
use mykafka.Env.{calm}
use mykafka.Names.{Text}
use mykafka.Segment.State.{Segment}
use mykafka.Segment.Close
use mykafka.Segment.Close.{destroyed}
use mykafka.Segment.Closing.{close-stores}
use mykafka.Segment.Layout.{Payload}
use mykafka.Partition.State
use mykafka.Partition.State.{Partition, Stored, put_back}
use mykafka.Partition.Close.{close, close_loop}
use mykafka.Partition.Open.{open_partition}
use mykafka.Partition.Read.{read_at}
use mykafka.Partition.Chunks.{Chunk, AllHold, Ascending, Ascending-tail}
use mykafka.Partition.Reads.{HoldsAll, read_at-answer}
use mykafka.Partition.Opens.{open_partition-opened}
use mykafka.Partition.Tidy.{
  Tidy, Below, Has, entry_of, put_back-Tidy, Tidy-fill_files_list, Tidy-StoresAll, Tidy-left_over,
}

-- The partition behind the loop.
abbrev pub emptied : Partition → List Stored → Partition
emptied p dir = record p { segments = []; freed = false; dir = dir }

pub close_loop-step :
    (s s' : Segment) (rest : List Segment) (freed : Bool) (p : Partition)
    → Close.close calm s ≡ (ok tt, s')
    → destroyed calm s' ≡ s'
    → close_loop calm (s ∷ rest) freed p
      ≡ close_loop calm rest true (record p { dir = put_back s' p.dir })
unfolding close_loop
close_loop-step s s' rest freed p e gone = ground (arith, e, gone)

-- Chunks that all start behind others.
Below-last :
    (ds : List Chunk) (c : Chunk) (n : ℕ) → Below ds n → c.base < n → Below (ds ++ c ∷ []) n
Below-last [] c n below lt = (lt, tt)
Below-last (d ∷ ds) c n (l, below) lt = (l, Below-last ds c n below lt)

Below-more : (ds : List Chunk) (m n : ℕ) → m ≤ n → Below ds m → Below ds n
Below-more [] m n le below = tt
Below-more (d ∷ ds) m n le (l, below) = (omega arith, Below-more ds m n le below)

abbrev Front : List Chunk → List Chunk → Type 0
Front ds [] = Unit {0}
Front ds (c ∷ cs) = Below ds c.base

Front-next :
    (ds : List Chunk) (c : Chunk) (cs : List Chunk)
    → Below ds c.base
    → Ascending (c ∷ cs)
    → Front (ds ++ c ∷ []) cs
Front-next ds c [] below up = tt
Front-next ds c (d ∷ cs) below (lt, le, up) =
    Below-last ds c d.base (Below-more ds c.base d.base (omega arith) below) lt

close_loop-Tidy :
    (ds cs : List Chunk) (segments : List Segment) (freed : Bool) (p : Partition)
    → AllHold cs segments
    → Ascending cs
    → Front ds cs
    → Tidy ds p.dir
    → (dir : List Stored) × (close_loop calm segments freed p ≡ (ok tt, emptied p dir))
      × Tidy (ds ++ cs) dir
unfolding close_loop
close_loop-Tidy ds [] [] freed p all up front tidy =
    (p.dir, refl, subst (λ l. Tidy l p.dir) (sym (append-nil ds)) tidy)
close_loop-Tidy ds [] (s ∷ rest) freed p all up front tidy = absurd all
close_loop-Tidy ds (c ∷ cs) [] freed p all up front tidy = absurd all
close_loop-Tidy ds (c ∷ cs) (s ∷ rest) freed p (h, all) up front tidy =
    let (s', e, there, content, sane, based, gone) = close-stores h.holds in
    let has : Has c (entry_of c.base s') = record {
      named = refl;
      regular = refl;
      there = there;
      content = content;
      sane = sane;
      fits = h.fits;
    } in
    let (dir, run, tidy') =
      close_loop-Tidy (ds ++ c ∷ []) cs rest true (record p { dir = put_back s' p.dir }) all
        (Ascending-tail c cs up) (Front-next ds c cs front up)
        (put_back-Tidy ds p.dir c s' tidy front based has) in
    (
      dir,
      close_loop-step s s' rest freed p e gone ∙ run,
      subst (λ l. Tidy l dir) (append_assoc ds (c ∷ []) cs) tidy',
    )

abbrev pub cancelled : Partition → Partition
cancelled p = record p { cancel = true; active = false; physical_size = pos 0 }

pub close_whole :
    (p : Partition)
    → p.freed ≡ false
    → close calm p ≡ close_loop calm p.segments false (cancelled p)
unfolding close
close_whole p whole =
    ap (λ b. if b then (fault, p) else close_loop calm p.segments false (cancelled p)) whole

-- The files that close leaves.
pub close-Tidy :
    (c : Chunk) (cs : List Chunk) (p : Partition)
    → HoldsAll (c ∷ cs) p
    → p.dir ≡ []
    → p.freed ≡ false
    → (dir : List Stored) × (close calm p ≡ (ok tt, emptied (cancelled p) dir)) × Tidy (c ∷ cs) dir
close-Tidy c cs p h no_files whole =
    let (dir, run, tidy) =
      close_loop-Tidy [] (c ∷ cs) p.segments false (cancelled p) h.all h.ascending tt
        (subst (Tidy []) (sym no_files) tt) in
    (dir, close_whole p whole ∙ run, tidy)

-- Another object over such files.
pub Tidy-opens :
    (c : Chunk) (cs : List Chunk) (dir : List Stored)
    → Tidy (c ∷ cs) dir
    → Ascending (c ∷ cs)
    → (now : ℤ) (path : Text) (max_segment_size : ℤ)
    → (q : Partition) × (open_partition calm now
          (State.new path max_segment_size (pos 0) (pos 0) dir)
        ≡ (ok tt, q))
      × HoldsAll (c ∷ cs) q
      × (q.dir ≡ [])
      × (q.freed ≡ false)
unfolding State.new
Tidy-opens c cs dir tidy ascending now path max_segment_size =
    let (_, e, h) =
      open_partition-opened now c cs (State.new path max_segment_size (pos 0) (pos 0) dir)
        (Tidy-fill_files_list (c ∷ cs) dir tidy ascending)
        (Tidy-StoresAll (c ∷ cs) dir tidy ascending) ascending refl refl refl refl refl in
    (_, e, h, Tidy-left_over (c ∷ cs) dir tidy, refl)

-- When no call fails, closing an open partition whose segments hold at least one chunk of
-- messages, in ascending order, which no close that failed has left with deleted segments, and in
-- whose directory are no files but those of its segments, succeeds; a new partition object
-- without limits on its size and age over the directory then opens, whatever its path and the
-- limit of its segments are, holds the same chunks, again with no other files in its directory
-- and no deleted segments, and answers each read as the first one did before it was closed.
pub close-reopened :
    (c : Chunk) (cs : List Chunk) (p : Partition)
    → HoldsAll (c ∷ cs) p
    → p.dir ≡ []
    → p.freed ≡ false
    → (p' : Partition) × (close calm p ≡ (ok tt, p'))
      × ((now : ℤ) (path : Text) (max_segment_size : ℤ)
          → (q : Partition) × (open_partition calm now
                (State.new path max_segment_size (pos 0) (pos 0) p'.dir)
              ≡ (ok tt, q))
            × HoldsAll (c ∷ cs) q
            × (q.dir ≡ [])
            × (q.freed ≡ false)
            × ((buffer : Payload) (target : ℤ)
                → read_at calm q buffer target ≡ read_at calm p buffer target))
close-reopened c cs p h no_files whole =
    let (dir, run, tidy) = close-Tidy c cs p h no_files whole in
    (
      emptied (cancelled p) dir,
      run,
      λ now path max_segment_size.
          let (q, e, h', empty, kept) =
            Tidy-opens c cs dir tidy h.ascending now path max_segment_size in
          (
            q,
            e,
            h',
            empty,
            kept,
            λ buffer target.
                read_at-answer (c ∷ cs) q buffer target h'
                ∙ sym (read_at-answer (c ∷ cs) p buffer target h),
          ),
    )
