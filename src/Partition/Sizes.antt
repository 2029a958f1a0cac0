-- ===== src/Partition/Sizes.antt =====
-- The segments of a partition have its maximal segment size, and a write keeps this and the settings.
use mykafka.Prelude.{ℕ, ◌≡◌, subst, List, [], ◌∷◌, ◌++◌}
use mykafka.Prelude.Int.{ℤ}
use mykafka.Error.{Outcome}
use mykafka.Env.{Env}
use mykafka.Segment.State
use mykafka.Segment.State.{Segment}
use mykafka.Segment.Write
use mykafka.Segment.Sizes.{write-Keeps, open_segment-Keeps}
use mykafka.Segment.Recover.{open_segment}
use mykafka.Partition.State.{Partition, new_segment}

abbrev pub AllSized : ℤ → List Segment → Type 0
AllSized m [] = Unit {0}
AllSized m (s ∷ ss) = (s.max_size ≡ m) × AllSized m ss

pub AllSized-last :
    (m : ℤ) (front : List Segment) (s : Segment)
    → AllSized m (front ++ s ∷ [])
    → AllSized m front × (s.max_size ≡ m)
AllSized-last m [] s (e, all) = (tt, e)
AllSized-last m (t ∷ front) s (e, all) =
    let (some_sized, last) = AllSized-last m front s all in ((e, some_sized), last)

pub AllSized-append :
    (m : ℤ) (front : List Segment) (s : Segment)
    → AllSized m front
    → s.max_size ≡ m
    → AllSized m (front ++ s ∷ [])
AllSized-append m [] s all e = (e, tt)
AllSized-append m (t ∷ front) s (d, all) e = (d, AllSized-append m front s all e)

pub written-max_size :
    (env : Env) (now : ℤ) (payload : List ℕ) (s s' : Segment) (r : Outcome ℤ)
    → Write.write env now payload s ≡ (r, s')
    → s'.max_size ≡ s.max_size
written-max_size env now payload s s' r e =
    subst (λ w. w.1.max_size ≡ s.max_size) e (write-Keeps env now payload s)

pub opened-max_size :
    (env : Env) (now : ℤ) (p : Partition) (base_offset : ℤ) (s : Segment) (r : Outcome (Unit {0}))
    → open_segment env now (new_segment p base_offset) ≡ (r, s)
    → s.max_size ≡ p.max_segment_size
unfolding new_segment State.new
opened-max_size env now p base_offset s r e =
    subst (λ w. w.1.max_size ≡ p.max_segment_size) e
      (open_segment-Keeps env now (new_segment p base_offset))

-- The settings of the partition are the same, and its segments have the maximal size still.
pub record Keeps (p p' : Partition) : Type 0 where
  pub dir : p.dir ≡ [] → p'.dir ≡ []
  pub max_segment_size : p'.max_segment_size ≡ p.max_segment_size
  pub max_partition_size : p'.max_partition_size ≡ p.max_partition_size
  pub segment_ttl : p'.segment_ttl ≡ p.segment_ttl
  pub sized : AllSized p.max_segment_size p.segments → AllSized p.max_segment_size p'.segments
