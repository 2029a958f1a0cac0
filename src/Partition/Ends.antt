-- ===== src/Partition/Ends.antt =====
-- The last segment of a partition and the last chunk.
use mykafka.Prelude.{◌≤◌, ◌<◌, ◌≡◌, refl, ap, true, List, [], ◌∷◌, ◌++◌, arith}
use mykafka.Error.{Exec}
use mykafka.Segment.State.{Segment}
use mykafka.Partition.State.{Partition}
use mykafka.Partition.Write.{on_last, on_active}
use mykafka.Partition.Chunks.{Chunk, next_base, HoldsChunk, AllHold, Ascending}

pub split_last :
    (cs : List Chunk) (c : Chunk) (segments : List Segment)
    → AllHold (cs ++ c ∷ []) segments
    → (front : List Segment) × (s : Segment) × (segments ≡ front ++ s ∷ [])
      × AllHold cs front
      × HoldsChunk c s
split_last [] c [] all = absurd all
split_last [] c (s ∷ []) (h, all) = ([], s, refl, tt, h)
split_last [] c (s ∷ (t ∷ ss)) (h, all) = absurd all
split_last (b ∷ cs) c [] all = absurd all
split_last (b ∷ cs) c (t ∷ ss) (h, all) =
    let (front, s, e, some_hold, last) = split_last cs c ss all in
    (t ∷ front, s, ap (λ l. t ∷ l) e, (h, some_hold), last)

pub join_last :
    (cs : List Chunk) (c : Chunk) (front : List Segment) (s : Segment)
    → AllHold cs front
    → HoldsChunk c s
    → AllHold (cs ++ c ∷ []) (front ++ s ∷ [])
join_last [] c [] s all h = (h, tt)
join_last [] c (t ∷ front) s all h = absurd all
join_last (b ∷ cs) c [] s all h = absurd all
join_last (b ∷ cs) c (t ∷ front) s (k, all) h = (k, join_last cs c front s all h)

-- The last chunk grows, or another one follows.
pub Ascending-grow :
    (cs : List Chunk) (c d : Chunk)
    → c.base ≡ d.base
    → Ascending (cs ++ c ∷ [])
    → Ascending (cs ++ d ∷ [])
Ascending-grow [] c d e up = tt
Ascending-grow (b ∷ []) c d e (l, n, up) = (omega arith, omega arith, tt)
Ascending-grow (a ∷ (b ∷ cs)) c d e (l, n, up) = (l, n, Ascending-grow (b ∷ cs) c d e up)

pub Ascending-follow :
    (cs : List Chunk) (c d : Chunk)
    → c.base < d.base
    → next_base c ≤ d.base
    → Ascending (cs ++ c ∷ [])
    → Ascending ((cs ++ c ∷ []) ++ d ∷ [])
Ascending-follow [] c d l n up = (l, n, tt)
Ascending-follow (b ∷ []) c d l n (k, m, up) = (k, m, (l, n, tt))
Ascending-follow (a ∷ (b ∷ cs)) c d l n (k, m, up) = (k, m, Ascending-follow (b ∷ cs) c d l n up)

pub on_last-append :
    {A : Type 0} (m : Exec Segment A) (front : List Segment) (s : Segment)
    → on_last m (front ++ s ∷ []) ≡ ((m s).0, front ++ (m s).1 ∷ [])
unfolding on_last
on_last-append m [] s = refl
on_last-append m (t ∷ []) s = refl
on_last-append m (t ∷ (u ∷ front)) s =
    ap (λ (r, kept). (r, t ∷ kept)) (on_last-append m (u ∷ front) s)

-- A call of a method of the active segment is a call of the last segment.
pub on_active-last :
    {A : Type 0} (m : Exec Segment A) (front : List Segment) (s : Segment) (p : Partition)
    → p.active ≡ true
    → p.segments ≡ front ++ s ∷ []
    → on_active m p ≡ ((m s).0, record p { segments = front ++ (m s).1 ∷ [] })
unfolding on_active
on_active-last m front s p active e = rw (active, e, on_last-append m front s) refl
