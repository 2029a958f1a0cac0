-- ===== src/Partition/Search.antt =====
-- The binary search of Partition::findSegment: on ascending segments it ends, with the last segment
-- that does not start behind the target.
use native.Mathlib.Decide.{dec_lt}
use mykafka.Prelude.{
  ℕ, zero, suc, ◌+◌, ◌-◌, ◌/◌, ◌≤◌, ◌<◌, ◌≡◌, refl, sym, ap, ◌∙◌, inl, inr, true, false, Option,
  none, some, List, [], ◌∷◌, arith, length, get_elem?, get_elem?-some, Bool-cases, ◌⊎◌,
}
use mykafka.Prelude.Int.{ℤ, pos, negsuc, ◌+ℤ◌, ◌-ℤ◌, ltb_ℤ, leb_ℤ, eqb_ℤ, quot_ℤ}
use mykafka.Error.{Outcome, ok}
use mykafka.Segment.State.{Segment}
use mykafka.Segment.Read
use mykafka.Partition.Read.{segment_at, find_loop, find_segment}

-- The first `k` segments do not start behind the target, the others do, and only the last of the
-- first can start at it.
pub record Splits (segments : List Segment) (target : ℤ) (k : ℕ) : Type 0 where
  pub bound : k ≤ length segments
  pub below :
      (i : ℕ) (s : Segment)
      → get_elem? segments i ≡ some s
      → i < k
      → ltb_ℤ target (Read.base_offset s) ≡ false
  pub above :
      (i : ℕ) (s : Segment)
      → get_elem? segments i ≡ some s
      → k ≤ i
      → ltb_ℤ target (Read.base_offset s) ≡ true
  pub last :
      (i : ℕ) (s : Segment)
      → get_elem? segments i ≡ some s
      → eqb_ℤ (Read.base_offset s) target ≡ true
      → k ≡ i + 1

-- The segment in front of a place.
abbrev pub before : List Segment → ℕ → Option Segment
before segments zero = none
before segments (suc n) = get_elem? segments n

module _ (segments : List Segment) (target : ℤ) where
  -- The loop on the places from `b` on and below `e`.
  abbrev pub search_from : ℕ → ℕ → ℕ → ℤ → Option Segment → Outcome (Option Segment)
  search_from fuel b e fo found =
      find_loop fuel segments target (pos b) (pos e -ℤ pos 1) (quot_ℤ (pos b +ℤ (pos e -ℤ pos 1)) 2)
        fo found

  pub done :
      (fuel : ℕ) (begin end at fo : ℤ) (found : Option Segment)
      → (leb_ℤ begin end ≡ false) ⊎ (eqb_ℤ fo target ≡ true)
      → find_loop (suc fuel) segments target begin end at fo found ≡ ok found
  unfolding find_loop
  done fuel begin end at fo found (inl e) = ground arith
  done fuel begin end at fo found (inr e) = ground arith

  module _ (fuel b e m : ℕ) (s : Segment) (fo : ℤ) (found : Option Segment) (open_range : b < e)
      (middle : m ≡ (b + (e - 1)) / 2) (missed : eqb_ℤ fo target ≡ false)
      (here : get_elem? segments m ≡ some s) where
    at_middle :
        search_from (suc fuel) b e fo found
        ≡ find_loop (suc fuel) segments target (pos b) (pos e -ℤ pos 1) (pos m) fo found
    at_middle =
        ap (λ at. find_loop (suc fuel) segments target (pos b) (pos e -ℤ pos 1) at fo found)
          {x = quot_ℤ (pos b +ℤ (pos e -ℤ pos 1)) 2} {y = pos m} (ground arith)

    at_segment : segment_at segments (pos m) ≡ ok s
    unfolding segment_at
    at_segment = ground arith

    round_below :
        (begin end : ℤ)
        → leb_ℤ begin end ≡ true
        → ltb_ℤ target (Read.base_offset s) ≡ false
        → find_loop (suc fuel) segments target begin end (pos m) fo found
          ≡ find_loop fuel segments target
              (pos (m + 1))
              end
              (quot_ℤ (pos (m + 1) +ℤ end) 2)
              (Read.base_offset s)
              (some s)
    unfolding find_loop
    round_below begin end range below = ground (arith, at_segment)

    round_above :
        (begin end : ℤ)
        → leb_ℤ begin end ≡ true
        → ltb_ℤ target (Read.base_offset s) ≡ true
        → find_loop (suc fuel) segments target begin end (pos m) fo found
          ≡ find_loop fuel segments target begin
              (pos m -ℤ pos 1)
              (quot_ℤ (begin +ℤ (pos m -ℤ pos 1)) 2)
              (Read.base_offset s)
              found
    unfolding find_loop
    round_above begin end range above = ground (arith, at_segment)

    pub step_below :
        ltb_ℤ target (Read.base_offset s) ≡ false
        → search_from (suc fuel) b e fo found
          ≡ search_from fuel (m + 1) e (Read.base_offset s) (some s)
    step_below below = at_middle ∙ round_below (pos b) (pos e -ℤ pos 1) (ground arith) below

    pub step_above :
        ltb_ℤ target (Read.base_offset s) ≡ true
        → search_from (suc fuel) b e fo found ≡ search_from fuel b m (Read.base_offset s) found
    step_above above = at_middle ∙ round_above (pos b) (pos e -ℤ pos 1) (ground arith) above

  before-suc :
      (m : ℕ) (s : Segment) → get_elem? segments m ≡ some s → some s ≡ before segments (m + 1)
  before-suc m s here = sym here ∙ ap (before segments) {x = suc m} {y = m + 1} (omega arith)

  module _ (k : ℕ) (split : Splits segments target k) (m : ℕ) (s : Segment)
      (here : get_elem? segments m ≡ some s) where
    not_below : ltb_ℤ target (Read.base_offset s) ≡ true → k ≤ m
    not_below above = elim (dec_lt m k) [
      | yes lt ↦ absurd (ground (arith, split.below m s here lt))
      | no ge ↦ omega arith
    ]

    not_above : ltb_ℤ target (Read.base_offset s) ≡ false → m + 1 ≤ k
    not_above below = elim (dec_lt m k) [
      | yes lt ↦ omega arith
      | no ge ↦ absurd (ground (arith, split.above m s here (omega arith)))
    ]

  search-before :
      (k : ℕ)
      → Splits segments target k
      → (fuel b e : ℕ) (fo : ℤ) → e + 1 ≤ fuel + b
      → b ≤ k
      → k ≤ e
      → e ≤ length segments
      → (eqb_ℤ fo target ≡ true → b ≡ k)
      → search_from fuel b e fo (before segments b) ≡ ok (before segments k)
  search-before k split zero b e fo f l u n hit = absurd (omega arith)
  search-before k split (suc fuel) b e fo f l u n hit = elim (Bool-cases (eqb_ℤ fo target)) [
    | inl found ↦
        done fuel (pos b) (pos e -ℤ pos 1) (quot_ℤ (pos b +ℤ (pos e -ℤ pos 1)) 2) fo
          (before segments b) (inr found)
        ∙ ap (λ j. ok (before segments j)) (hit found)
    | inr missed ↦ elim (dec_lt b e) [
      | no empty ↦
          done fuel (pos b) (pos e -ℤ pos 1) (quot_ℤ (pos b +ℤ (pos e -ℤ pos 1)) 2) fo
            (before segments b) (inl (ground arith))
          ∙ ap (λ j. ok (before segments j)) {x = b} {y = k} (omega arith)
      | yes range ↦
          let m = (b + (e - 1)) / 2 in
          let (s, here) = get_elem?-some segments m (omega arith) in
          elim (Bool-cases (ltb_ℤ target (Read.base_offset s))) [
            | inl above ↦
                step_above fuel b e m s fo (before segments b) range refl missed here above
                ∙ search-before k split fuel b m (Read.base_offset s) (omega arith) l
                    (not_below k split m s here above) (omega arith)
                    (λ same.
                      absurd (
                        ground (arith, split.last m s here same, not_below k split m s here above)))
            | inr below ↦
                step_below fuel b e m s fo (before segments b) range refl missed here below
                ∙ ap (λ found. search_from fuel (m + 1) e (Read.base_offset s) found)
                    (before-suc m s here)
                ∙ search-before k split fuel (m + 1) e (Read.base_offset s) (omega arith)
                    (not_above k split m s here below) u n
                    (λ same. omega (arith, split.last m s here same))
          ]
    ]
  ]

pub find_segment-before :
    (segments : List Segment) (target : ℤ) (k : ℕ)
    → Splits segments target k
    → (eqb_ℤ (negsuc 0) target ≡ true → k ≡ 0)
    → find_segment segments target ≡ ok (before segments k)
unfolding find_segment
find_segment-before [] target k split start = ground (arith, split.bound)
find_segment-before (s ∷ rest) target k split start =
    ap
      (λ end.
        find_loop (suc (suc (length (s ∷ rest)))) (s ∷ rest) target (pos 0) end
          (quot_ℤ (pos 0 +ℤ end) 2) (negsuc 0) none)
      {x = pos (length rest)} {y = pos (length (s ∷ rest)) -ℤ pos 1} (ground arith)
    ∙ search-before (s ∷ rest) target k split (suc (suc (length (s ∷ rest)))) 0 (length (s ∷ rest))
        (negsuc 0) (omega arith) (omega arith) split.bound (omega arith) (λ same. sym (start same))
