-- ===== src/Partition/Deletes.antt =====
-- Which segments cleanOldSegments deletes.
use mykafka.Prelude.{
  ◌≡◌, refl, ap, subst, ◌∙◌, inl, inr, not, ◌&&◌, ◌||◌, Bool, true, false, Bool-cases,
  if◌then◌else◌, List, [], ◌∷◌, arith,
}
use mykafka.Prelude.Int.{ℤ, pos, ◌+ℤ◌, ◌-ℤ◌, ltb_ℤ, eqb_ℤ}
use mykafka.Error.{Outcome, ok}
use mykafka.Env.{calm}
use mykafka.Segment.State.{Segment}
use mykafka.Segment.Read
use mykafka.Segment.Close.{delete_segment}
use mykafka.Segment.Closing.{delete_segment-ends}
use mykafka.Partition.State.{Partition, Stored, put_back}
use mykafka.Partition.Clean.{is_doomed, fate, fate_of, deleted, spared, clean_loop}
use mykafka.Partition.Chunks.{Chunk, AllHold}
use mykafka.Partition.Thinned.{Thinned, last, kept, dropped}

-- Is a segment older than its time to live?
abbrev pub too_old : ℤ → ℤ → Segment → Bool
too_old now ttl s = not (eqb_ℤ ttl (pos 0)) && ltb_ℤ ttl (now -ℤ s.mtime)

-- Are these bytes more than the limit?
abbrev pub too_large : ℤ → ℤ → Bool
too_large limit bytes = not (eqb_ℤ limit (pos 0)) && ltb_ℤ limit bytes

-- Which of the segments should be deleted, when `left` bytes are left in the end, and how many
-- bytes they have: the last one never, and another one if it is too old or if with it and those
-- that are deleted behind it the partition is too large.
pub data Deletes (now ttl limit left : ℤ) : ℤ → List Segment → List Segment → Type 0 where
  active : (s : Segment) → Deletes now ttl limit left (pos 0) (s ∷ []) (s ∷ [])
  keep :
      {bytes : ℤ} {segments rest : List Segment} (s : Segment)
      → too_old now ttl s ≡ false
      → too_large limit (left +ℤ bytes) ≡ false
      → Deletes now ttl limit left bytes segments rest
      → Deletes now ttl limit left bytes (s ∷ segments) (s ∷ rest)
  delete :
      {bytes : ℤ} {segments rest : List Segment} (s : Segment)
      → too_old now ttl s || too_large limit (left +ℤ (bytes +ℤ Read.size s)) ≡ true
      → Deletes now ttl limit left bytes segments rest
      → Deletes now ttl limit left (bytes +ℤ Read.size s) (s ∷ segments) rest

-- The segments that are left hold the chunks that are left.
pub left_chunks :
    {now ttl limit left bytes : ℤ} {segments rest : List Segment}
    → Deletes now ttl limit left bytes segments rest
    → (cs : List Chunk) → AllHold cs segments
    → (ds : List Chunk) × AllHold ds rest × Thinned cs ds
left_chunks (active s) [] all = absurd all
left_chunks (keep s young small d) [] all = absurd all
left_chunks (delete s why d) [] all = absurd all
left_chunks (active s) (c ∷ []) all = (c ∷ [], all, last c)
left_chunks (active s) (c ∷ (e ∷ cs)) all = absurd all.1
left_chunks (keep s young small d) (c ∷ cs) (h, all) =
    let (ds, all', t) = left_chunks d cs all in (c ∷ ds, (h, all'), kept c t)
left_chunks (delete s why d) (c ∷ cs) (h, all) =
    let (ds, all', t) = left_chunks d cs all in (ds, all', dropped c t)

regroup : (a s n k : ℤ) → a -ℤ s ≡ n +ℤ k → a ≡ n +ℤ (k +ℤ s)
regroup a s n k e = ground (arith, e)

-- The partition with another size and directory.
abbrev pub resized : Partition → ℤ → List Stored → Partition
resized p bytes dir = record p { physical_size = bytes; dir = dir }

-- The loop deletes what should be deleted.
abbrev pub Runs : ℤ → Partition → List Segment → Type 0
Runs now p segments =
    (left bytes : ℤ) × (dir : List Stored) × (rest : List Segment) × (clean_loop calm now p segments
      ≡ (ok tt, resized p left dir, rest))
    × Deletes now p.segment_ttl p.max_partition_size left bytes segments rest
    × (p.physical_size ≡ left +ℤ bytes)

module _ (now : ℤ) (p : Partition) (s t : Segment) (rest : List Segment) where
  abbrev shrunk : Segment → Partition
  shrunk s' = resized p (p.physical_size -ℤ Read.size s) (put_back s' p.dir)

  fate_doomed :
      (s' : Segment)
      → delete_segment calm s ≡ (ok tt, s')
      → too_old now p.segment_ttl s || too_large p.max_partition_size p.physical_size ≡ true
      → fate calm now p s ≡ deleted s'
  unfolding fate is_doomed
  fate_doomed s' e doomed =
      ap (λ b. if b then fate_of (delete_segment calm s) else spared) doomed ∙ ap fate_of e

  fate_spared :
      too_old now p.segment_ttl s || too_large p.max_partition_size p.physical_size ≡ false
      → fate calm now p s ≡ spared
  unfolding fate is_doomed
  fate_spared safe = ap (λ b. if b then fate_of (delete_segment calm s) else spared) safe

  loop_deletes :
      (s' : Segment)
      → fate calm now p s ≡ deleted s'
      → clean_loop calm now p (s ∷ (t ∷ rest)) ≡ clean_loop calm now (shrunk s') (t ∷ rest)
  unfolding clean_loop
  loop_deletes s' e = ground (arith, e)

  loop_keeps :
      (r : Outcome (Unit {0})) (p' : Partition) (left : List Segment)
      → fate calm now p s ≡ spared
      → clean_loop calm now p (t ∷ rest) ≡ (r, p', left)
      → clean_loop calm now p (s ∷ (t ∷ rest)) ≡ (r, p', s ∷ left)
  unfolding clean_loop
  loop_keeps r p' left safe e = ground (arith, e, safe)

abbrev doomed_by : ℤ → Partition → Segment → ℤ → Bool
doomed_by now p s bytes = too_old now p.segment_ttl s || too_large p.max_partition_size bytes

or_false : (a b : Bool) → a || b ≡ false → (a ≡ false) × (b ≡ false)
or_false true b e = absurd (ground (arith, e))
or_false false b e = (refl, e)

clean_loop-Runs :
    (now : ℤ) (cs : List Chunk) (s : Segment) (segments : List Segment) (p : Partition)
    → AllHold cs (s ∷ segments)
    → Runs now p (s ∷ segments)
unfolding clean_loop
clean_loop-Runs now [] s segments p all = absurd all
clean_loop-Runs now (c ∷ cs) s [] p all =
    (p.physical_size, pos 0, p.dir, s ∷ [], refl, active s, ground arith)
clean_loop-Runs now (c ∷ cs) s (t ∷ rest) p (h, all) =
    elim (Bool-cases (doomed_by now p s p.physical_size)) [
      | inl doomed ↦
          let (s', e) = delete_segment-ends h.holds in
          let (left, bytes, dir, there, run, d, sum) =
            clean_loop-Runs now cs t rest (shrunk now p s t rest s') all in
          let total = regroup p.physical_size (Read.size s) left bytes sum in
          (
            left,
            bytes +ℤ Read.size s,
            dir,
            there,
            loop_deletes now p s t rest s' (fate_doomed now p s t rest s' e doomed) ∙ run,
            delete s (subst (λ n. doomed_by now p s n ≡ true) total doomed) d,
            total,
          )
      | inr safe ↦
          let (left, bytes, dir, there, run, d, sum) = clean_loop-Runs now cs t rest p all in
          let (young, small) =
            or_false (too_old now p.segment_ttl s) (too_large p.max_partition_size p.physical_size)
              safe in
          (
            left,
            bytes,
            dir,
            s ∷ there,
            loop_keeps now p s t rest (ok tt) (resized p left dir) there
                (fate_spared now p s t rest safe) run,
            keep s young (subst (λ n. too_large p.max_partition_size n ≡ false) sum small) d,
            sum,
          )
    ]

pub segments-Runs :
    (now : ℤ) (c : Chunk) (cs : List Chunk) (segments : List Segment) (p : Partition)
    → AllHold (c ∷ cs) segments
    → Runs now p segments
segments-Runs now c cs [] p all = absurd all
segments-Runs now c cs (s ∷ segments) p all = clean_loop-Runs now (c ∷ cs) s segments p all
