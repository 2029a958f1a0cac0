-- ===== src/Partition/Lookup.antt =====
-- Which segment of a partition has the chunk of an offset.
use mykafka.Prelude.{
  ℕ, zero, suc, ◌+◌, ◌≤◌, ◌<◌, ◌≡◌, refl, subst, inl, inr, Bool, true, false, Option, none, some,
  List, [], ◌∷◌, arith, length, get_elem?, Bool-cases, if◌then◌else◌,
}
use mykafka.Prelude.Int.{ℤ, pos, negsuc, ltb_ℤ, eqb_ℤ}
use mykafka.Error.{ok}
use mykafka.Segment.State.{Segment}
use mykafka.Segment.Read
use mykafka.Partition.Read.{find_segment}
use mykafka.Partition.Chunks.{Chunk, HoldsChunk, AllHold, Ascending, Ascending-tail, home}
use mykafka.Partition.Search.{Splits, before, find_segment-before}

-- How many chunks do not start behind an offset, up to the first that does.
unfoldable rank : List Chunk → ℤ → ℕ
rank [] o = 0
rank (c ∷ cs) o = let rest = suc (rank cs o) in if ltb_ℤ o (pos c.base) then 0 else rest

-- What the search should hand over: the segment that holds the chunk, or none.
abbrev pub Found : Option Chunk → Option Segment → Type 0
Found none none = Unit {0}
Found none (some s) = ⊥
Found (some c) none = ⊥
Found (some c) (some s) = HoldsChunk c s

based_at : (c : Chunk) (s : Segment) → HoldsChunk c s → Read.base_offset s ≡ pos c.base
based_at c s h = h.holds.indexed.based

starts_with :
    (c : Chunk) (t s : Segment)
    → HoldsChunk c t
    → get_elem? (t ∷ []) 0 ≡ some s
    → Read.base_offset s ≡ pos c.base
starts_with c t s h here = ground (arith, based_at c t h)

rank-le :
    (cs : List Chunk) (segments : List Segment) (o : ℤ)
    → AllHold cs segments
    → rank cs o ≤ length segments
unfolding rank
rank-le [] segments o all = omega arith
rank-le (c ∷ cs) [] o all = absurd all
rank-le (c ∷ cs) (s ∷ ss) o (h, all) = ground (arith, rank-le cs ss o all)

rank-below :
    (cs : List Chunk) (segments : List Segment) (o : ℤ)
    → AllHold cs segments
    → (i : ℕ) (s : Segment) → get_elem? segments i ≡ some s
    → i < rank cs o
    → ltb_ℤ o (Read.base_offset s) ≡ false
unfolding rank
rank-below [] segments o all i s here lt = absurd (omega arith)
rank-below (c ∷ cs) [] o all i s here lt = absurd all
rank-below (c ∷ cs) (t ∷ ss) o (h, all) zero s here lt = ground (arith, based_at c t h)
rank-below (c ∷ cs) (t ∷ ss) o (h, all) (suc i) s here lt =
    ground (arith, rank-below cs ss o all i s here)

-- In ascending chunks all segments start where the first one starts, or behind.
starts_behind :
    (c : Chunk) (cs : List Chunk) (segments : List Segment)
    → Ascending (c ∷ cs)
    → AllHold (c ∷ cs) segments
    → (i : ℕ) (s : Segment) → get_elem? segments i ≡ some s
    → (b : ℕ) × (Read.base_offset s ≡ pos b) × (c.base + i ≤ b)
starts_behind c [] [] up all i s here = absurd all
starts_behind c (d ∷ cs) [] up all i s here = absurd all
starts_behind c [] (t ∷ ss) up (h, all) zero s here =
    (c.base, starts_with c t s h here, omega arith)
starts_behind c (d ∷ cs) (t ∷ ss) up (h, all) zero s here =
    (c.base, starts_with c t s h here, omega arith)
starts_behind c [] (t ∷ []) up (h, all) (suc i) s here = absurd (ground arith)
starts_behind c [] (t ∷ (u ∷ ss)) up (h, all) (suc i) s here = absurd all
starts_behind c (d ∷ cs) (t ∷ ss) (a, b, up) (h, all) (suc i) s here =
    let (n, e, le) = starts_behind d cs ss up all i s here in (n, e, omega arith)

ltb_ℤ_later : (o : ℤ) (a b : ℕ) → ltb_ℤ o (pos a) ≡ true → a ≤ b → ltb_ℤ o (pos b) ≡ true
ltb_ℤ_later (pos o) a b lt le = ground arith
ltb_ℤ_later (negsuc o) a b lt le = ground arith

rank-above :
    (cs : List Chunk) (segments : List Segment) (o : ℤ)
    → Ascending cs
    → AllHold cs segments
    → (i : ℕ) (s : Segment) → get_elem? segments i ≡ some s
    → rank cs o ≤ i
    → ltb_ℤ o (Read.base_offset s) ≡ true
unfolding rank
rank-above [] [] o up all i s here le = absurd (ground arith)
rank-above [] (t ∷ ss) o up all i s here le = absurd all
rank-above (c ∷ cs) [] o up all i s here le = absurd all
rank-above (c ∷ cs) (t ∷ ss) o up (h, all) zero s here le =
    let at : Read.base_offset s ≡ pos c.base = starts_with c t s h here in ground (arith, at)
rank-above (c ∷ cs) (t ∷ ss) o up (h, all) (suc i) s here le =
    elim (Bool-cases (ltb_ℤ o (pos c.base))) [
      | inl start ↦
          let (b, e, behind) = starts_behind c cs (t ∷ ss) up (h, all) (suc i) s here in
          rw e (ltb_ℤ_later o c.base b start (omega arith))
      | inr not_start ↦ rank-above cs ss o (Ascending-tail c cs up) all i s here (ground arith)
    ]

not_before : (o : ℤ) (a b : ℕ) → eqb_ℤ (pos b) o ≡ true → a ≤ b → ltb_ℤ o (pos a) ≡ false
not_before (pos o) a b eq le = ground arith
not_before (negsuc o) a b eq le = ground arith

-- No chunk behind the first starts where it does.
rank_behind :
    (c : Chunk) (cs : List Chunk) (o : ℤ)
    → Ascending (c ∷ cs)
    → eqb_ℤ (pos c.base) o ≡ true
    → rank cs o ≡ 0
unfolding rank
rank_behind c [] o up eq = refl
rank_behind c (d ∷ cs) (pos o) (a, b, up) eq = ground arith
rank_behind c (d ∷ cs) (negsuc o) (a, b, up) eq = ground arith

rank-last :
    (cs : List Chunk) (segments : List Segment) (o : ℤ)
    → Ascending cs
    → AllHold cs segments
    → (i : ℕ) (s : Segment) → get_elem? segments i ≡ some s
    → eqb_ℤ (Read.base_offset s) o ≡ true
    → rank cs o ≡ i + 1
unfolding rank
rank-last [] [] o up all i s here eq = absurd (ground arith)
rank-last [] (t ∷ ss) o up all i s here eq = absurd all
rank-last (c ∷ cs) [] o up all i s here eq = absurd all
rank-last (c ∷ cs) (t ∷ ss) o up (h, all) zero s here eq =
    let same = subst (λ b. eqb_ℤ b o ≡ true) (starts_with c t s h here) eq in
    ground (arith, rank_behind c cs o up same, not_before o c.base c.base same)
rank-last (c ∷ cs) (t ∷ ss) o up (h, all) (suc i) s here eq =
    let (b, e, behind) = starts_behind c cs (t ∷ ss) up (h, all) (suc i) s here in
    let same = subst (λ k. eqb_ℤ k o ≡ true) e eq in
    ground (
      arith,
      not_before o c.base b same,
      rank-last cs ss o (Ascending-tail c cs up) all i s here eq,
    )

rank-Splits :
    (cs : List Chunk) (segments : List Segment) (o : ℤ)
    → Ascending cs
    → AllHold cs segments
    → Splits segments o (rank cs o)
rank-Splits cs segments o up all = record {
  bound = rank-le cs segments o all;
  below = rank-below cs segments o all;
  above = rank-above cs segments o up all;
  last = rank-last cs segments o up all;
}

rank-start : (cs : List Chunk) (o : ℤ) → eqb_ℤ (negsuc 0) o ≡ true → rank cs o ≡ 0
unfolding rank
rank-start [] o eq = refl
rank-start (c ∷ cs) (pos o) eq = ground arith
rank-start (c ∷ cs) (negsuc o) eq = ground arith

-- What is found behind the first chunk `d` is found behind `c` and `d`; if nothing is, `c` is.
Found-later :
    (c d : Chunk) (m : Option Chunk) (s t : Segment) (ss : List Segment) (b : Bool) (r : ℕ)
    → HoldsChunk c s
    → Found
        (if b then none else elim m as (λ _. Option Chunk) [ none ↦ some d | some e ↦ some e ])
        (before (t ∷ ss) (if b then 0 else suc r))
    → Found
        (elim (if b
            then none
            else elim m as (λ _. Option Chunk) [ none ↦ some d | some e ↦ some e ])
          as (λ _. Option Chunk) [ none ↦ some c | some e ↦ some e ])
        (before (s ∷ t ∷ ss) (suc (if b then 0 else suc r)))
Found-later c d m s t ss true r h found = h
Found-later c d none s t ss false r h found = found
Found-later c d (some e) s t ss false r h found = found

-- The segment in front of the rank holds the home of the offset.
rank-Found :
    (cs : List Chunk) (segments : List Segment) (o : ℤ)
    → AllHold cs segments
    → Found (home cs o) (before segments (rank cs o))
unfolding rank home
rank-Found [] segments o all = tt
rank-Found (c ∷ cs) [] o all = absurd all
rank-Found (c ∷ []) (s ∷ ss) o (h, all) = elim (Bool-cases (ltb_ℤ o (pos c.base))) [
  | inl start ↦ rw start tt
  | inr not_start ↦ rw not_start h
]
rank-Found (c ∷ (d ∷ cs)) (s ∷ []) o (h, all) = absurd all
rank-Found (c ∷ (d ∷ cs)) (s ∷ (t ∷ ss)) o (h, all) = elim (Bool-cases (ltb_ℤ o (pos c.base))) [
  | inl start ↦ rw start tt
  | inr not_start ↦ rw not_start (
      Found-later c d (home cs o) s t ss (ltb_ℤ o (pos d.base)) (rank cs o) h
        (rank-Found (d ∷ cs) (t ∷ ss) o all))
]

-- On segments that hold ascending chunks the search hands over the segment of the home of the target.
pub find_segment-home :
    (cs : List Chunk) (segments : List Segment) (target : ℤ)
    → Ascending cs
    → AllHold cs segments
    → (found : Option Segment) × (find_segment segments target ≡ ok found)
      × Found (home cs target) found
find_segment-home cs segments target up all = (
  before segments (rank cs target),
  find_segment-before segments target (rank cs target) (rank-Splits cs segments target up all)
      (rank-start cs target),
  rank-Found cs segments target all,
)
