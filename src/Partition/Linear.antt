-- ===== src/Partition/Linear.antt =====
-- Partition::findSegment, a binary search, and the search from the front that it stands for.
use mykafka.Prelude.{
  ℕ, zero, suc, ◌+◌, ◌≤◌, ◌<◌, ◌≡◌, refl, sym, ap, ◌∙◌, inl, inr, true, false, Option, none, some,
  List, [], ◌∷◌, arith, length, get_elem?, get_elem?-some, Bool-cases, if◌then◌else◌,
}
use mykafka.Prelude.Int.{ℤ, pos, ltb_ℤ, eqb_ℤ}
use mykafka.Error.{ok}
use mykafka.Segment.State.{Segment}
use mykafka.Segment.Read
use mykafka.Partition.Read.{find_segment}
use mykafka.Partition.Search.{Splits, before, find_segment-before}

abbrev or_here : Segment → Option Segment → Option Segment
or_here s none = some s
or_here s (some t) = some t

-- From the front, up to the first segment that starts behind the target: the last one in front of
-- it.
unfoldable pub linear_search : List Segment → ℤ → Option Segment
linear_search [] target = none
linear_search (s ∷ rest) target =
    let found = or_here s (linear_search rest target) in
    if ltb_ℤ target (Read.base_offset s) then none else found

-- Each segment starts behind the one in front of it.
abbrev pub Rising : List Segment → Type 0
Rising [] = Unit {0}
Rising (s ∷ []) = Unit {0}
Rising (s ∷ (t ∷ rest)) =
    (ltb_ℤ (Read.base_offset s) (Read.base_offset t) ≡ true) × Rising (t ∷ rest)

module _ (target : ℤ) where
  -- How many segments the search from the front passes.
  unfoldable reach : List Segment → ℕ
  reach [] = 0
  reach (s ∷ rest) = let n = suc (reach rest) in if ltb_ℤ target (Read.base_offset s) then 0 else n

  reach-le : (segments : List Segment) → reach segments ≤ length segments
  unfolding reach
  reach-le [] = omega arith
  reach-le (s ∷ rest) = ground (arith, reach-le rest)

  reach-below :
      (segments : List Segment) (i : ℕ) (s : Segment)
      → get_elem? segments i ≡ some s
      → i < reach segments
      → ltb_ℤ target (Read.base_offset s) ≡ false
  unfolding reach
  reach-below [] i s here lt = absurd (omega arith)
  reach-below (t ∷ rest) zero s here lt = ground (arith, here)
  reach-below (t ∷ rest) (suc i) s here lt = ground (arith, reach-below rest i s here)

  ltb_ℤ-trans : (a b : ℤ) → ltb_ℤ target a ≡ true → ltb_ℤ a b ≡ true → ltb_ℤ target b ≡ true
  ltb_ℤ-trans a b h k = ground arith

  -- Behind a segment that starts behind the target all do.
  all_behind :
      (t : Segment) (rest : List Segment)
      → Rising (t ∷ rest)
      → ltb_ℤ target (Read.base_offset t) ≡ true
      → (i : ℕ) (s : Segment) → get_elem? (t ∷ rest) i ≡ some s
      → ltb_ℤ target (Read.base_offset s) ≡ true
  all_behind t [] up behind zero s here = ground (arith, here, behind)
  all_behind t (u ∷ rest) up behind zero s here = ground (arith, here, behind)
  all_behind t [] up behind (suc i) s here = absurd (ground arith)
  all_behind t (u ∷ rest) (lt, up) behind (suc i) s here =
      all_behind u rest up (ltb_ℤ-trans (Read.base_offset t) (Read.base_offset u) behind lt) i s
        here

  Rising-tail : (s : Segment) (rest : List Segment) → Rising (s ∷ rest) → Rising rest
  Rising-tail s [] up = tt
  Rising-tail s (t ∷ rest) (lt, up) = up

  reach-above :
      (segments : List Segment)
      → Rising segments
      → (i : ℕ) (s : Segment) → get_elem? segments i ≡ some s
      → reach segments ≤ i
      → ltb_ℤ target (Read.base_offset s) ≡ true
  unfolding reach
  reach-above [] up i s here le = absurd (ground arith)
  reach-above (t ∷ rest) up zero s here le = ground (arith, here)
  reach-above (t ∷ rest) up (suc i) s here le =
      elim (Bool-cases (ltb_ℤ target (Read.base_offset t))) [
        | inl behind ↦ all_behind t rest up behind (suc i) s here
        | inr not_behind ↦
            reach-above rest (Rising-tail t rest up) i s here (ground (arith, not_behind))
      ]

  -- A segment that starts at the target is the last that is passed.
  next_behind :
      (s : Segment) (rest : List Segment)
      → Rising (s ∷ rest)
      → eqb_ℤ (Read.base_offset s) target ≡ true
      → reach rest ≡ 0
  unfolding reach
  next_behind s [] up same = refl
  next_behind s (t ∷ rest) (lt, up) same = ground arith

  reach-last :
      (segments : List Segment)
      → Rising segments
      → (i : ℕ) (s : Segment) → get_elem? segments i ≡ some s
      → eqb_ℤ (Read.base_offset s) target ≡ true
      → reach segments ≡ i + 1
  unfolding reach
  reach-last [] up i s here same = absurd (ground arith)
  reach-last (t ∷ rest) up zero s here same = ground (arith, here, next_behind t rest up)
  reach-last (t ∷ rest) up (suc i) s here same =
      elim (Bool-cases (ltb_ℤ target (Read.base_offset t))) [
        | inl behind ↦ absurd (ground (arith, all_behind t rest up behind (suc i) s here))
        | inr not_behind ↦
            ground (arith, not_behind, reach-last rest (Rising-tail t rest up) i s here same)
      ]

  reach-Splits :
      (segments : List Segment) → Rising segments → Splits segments target (reach segments)
  reach-Splits segments up = record {
    bound = reach-le segments;
    below = reach-below segments;
    above = reach-above segments up;
    last = reach-last segments up;
  }

  place :
      (s : Segment) (rest : List Segment) (k : ℕ)
      → k ≤ length rest
      → get_elem? (s ∷ rest) k ≡ or_here s (before rest k)
  place s rest zero le = refl
  place s rest (suc n) le =
      let (t, here) = get_elem?-some rest n (omega arith) in here ∙ ap (or_here s) (sym here)

  before-reach :
      (segments : List Segment) → before segments (reach segments) ≡ linear_search segments target
  unfolding reach linear_search
  before-reach [] = refl
  before-reach (s ∷ rest) = elim (Bool-cases (ltb_ℤ target (Read.base_offset s))) [
    | inl behind ↦ rw behind refl
    | inr not_behind ↦
        rw not_behind
          (place s rest (reach rest) (reach-le rest) ∙ ap (or_here s) (before-reach rest))
  ]

-- When each segment of a list starts behind the one in front of it, the binary search for a
-- target that is not negative hands over the segment that the search from the front finds, which
-- is the last one that does not start behind the target, or none.
pub find_segment-linear_search :
    (segments : List Segment) (target : ℕ)
    → Rising segments
    → find_segment segments (pos target) ≡ ok (linear_search segments (pos target))
find_segment-linear_search segments target up =
    find_segment-before segments (pos target) (reach (pos target) segments)
      (reach-Splits (pos target) segments up) (λ same. absurd (ground arith))
    ∙ ap ok (before-reach (pos target) segments)
