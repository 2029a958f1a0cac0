-- ===== src/Partition/Thinned.antt =====
-- Chunks of which some are gone, but not the last.
use mykafka.Prelude.{
  ℕ, ◌≤◌, ◌<◌, ◌≡◌, refl, ◌&&◌, Bool-cases, inl, inr, none, some, List, [], ◌∷◌, arith, ltb, leb,
}
use mykafka.Segment.Layout.{Payload}
use mykafka.Partition.Chunks.{Chunk, next_base, Ascending, Ascending-tail, scan, scan-before}

pub data Thinned : List Chunk → List Chunk → Type 0 where
  last : (c : Chunk) → Thinned (c ∷ []) (c ∷ [])
  kept : {cs ds : List Chunk} (c : Chunk) → Thinned cs ds → Thinned (c ∷ cs) (c ∷ ds)
  dropped : {cs ds : List Chunk} (c : Chunk) → Thinned cs ds → Thinned (c ∷ cs) ds

-- The chunks that are left start behind a chunk in front of all.
abbrev After : Chunk → List Chunk → Type 0
After c [] = Unit {0}
After c (d ∷ ds) = (c.base < d.base) × (next_base c ≤ d.base)

Ascending-skip : (c d : Chunk) (cs : List Chunk) → Ascending (c ∷ (d ∷ cs)) → Ascending (c ∷ cs)
Ascending-skip c d [] up = tt
Ascending-skip c d (e ∷ cs) (a, b, (a', b', up)) = (omega arith, omega arith, up)

Ascending-After : (c : Chunk) (cs ds : List Chunk) → Ascending (c ∷ cs) → Thinned cs ds → After c ds
Ascending-After c _ _ up (last d) = let (a, b, _) = up in (a, b)
Ascending-After c _ _ up (kept d t) = let (a, b, _) = up in (a, b)
Ascending-After c _ ds up (dropped {cs = cs} d t) =
    Ascending-After c cs ds (Ascending-skip c d cs up) t

Ascending-cons : (c : Chunk) (ds : List Chunk) → After c ds → Ascending ds → Ascending (c ∷ ds)
Ascending-cons c [] after up = tt
Ascending-cons c (d ∷ ds) (a, b) up = (a, b, up)

pub Thinned-Ascending : (cs ds : List Chunk) → Thinned cs ds → Ascending cs → Ascending ds
Thinned-Ascending _ _ (last c) up = tt
Thinned-Ascending _ _ (kept {cs = cs} {ds = ds} c t) up =
    Ascending-cons c ds (Ascending-After c cs ds up t)
      (Thinned-Ascending cs ds t (Ascending-tail c cs up))
Thinned-Ascending _ ds (dropped {cs = cs} c t) up =
    Thinned-Ascending cs ds t (Ascending-tail c cs up)

scan_below :
    (c : Chunk) (ds : List Chunk) (o : ℕ)
    → After c ds
    → Ascending ds
    → o < next_base c
    → scan ds o ≡ none
unfolding scan
scan_below c [] o after up lt = refl
scan_below c (d ∷ ds) o (a, b) up lt = scan-before d ds o up (omega arith)

-- A message that is left is one that was there.
pub Thinned-scan :
    (cs ds : List Chunk) (o : ℕ) (m : Payload)
    → Thinned cs ds
    → Ascending cs
    → scan ds o ≡ some m
    → scan cs o ≡ some m
unfolding scan
Thinned-scan _ _ o m (last c) up here = here
Thinned-scan _ _ o m (kept {cs = cs} {ds = ds} c t) up here =
    let rest = Thinned-scan cs ds o m t (Ascending-tail c cs up) in
    elim (Bool-cases (leb c.base o && ltb o (next_base c))) [
      | inl inside ↦ ground (arith, inside, here)
      | inr outside ↦ ground (arith, outside, here, rest)
    ]
Thinned-scan _ ds o m (dropped {cs = cs} c t) up here =
    let rest = Thinned-scan cs ds o m t (Ascending-tail c cs up) here in
    let after = Ascending-After c cs ds up t in
    let up' = Thinned-Ascending cs ds t (Ascending-tail c cs up) in
    elim (Bool-cases (leb c.base o && ltb o (next_base c))) [
      | inl inside ↦
          absurd (ground (arith, here, scan_below c ds o after up' (ground (arith, inside))))
      | inr outside ↦ ground (arith, outside, rest)
    ]
