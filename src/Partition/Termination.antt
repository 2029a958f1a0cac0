-- ===== src/Partition/Termination.antt =====
-- The search of Partition::findSegment ends.
use native.Mathlib.Decide.{dec_lt}
use mykafka.Prelude.{
  ℕ, zero, suc, ◌+◌, ◌-◌, ◌/◌, ◌≤◌, ◌≡◌, refl, ap, ◌∙◌, inl, inr, Option, none, some, List, [], ◌∷◌,
  arith, length, get_elem?-some, Bool-cases,
}
use mykafka.Prelude.Int.{ℤ, pos, negsuc, ◌+ℤ◌, ◌-ℤ◌, ltb_ℤ, eqb_ℤ, quot_ℤ}
use mykafka.Error.{ok}
use mykafka.Segment.State.{Segment}
use mykafka.Segment.Read
use mykafka.Partition.Read.{find_loop, find_segment}
use mykafka.Partition.Search.{search_from, done, step_below, step_above}

-- The loop ends and stays inside the list, whatever the segments are.
search-ends :
    (segments : List Segment) (target : ℤ) (fuel b e : ℕ) (fo : ℤ) (found : Option Segment)
    → e + 1 ≤ fuel + b
    → b ≤ e
    → e ≤ length segments
    → (r : Option Segment) × (search_from segments target fuel b e fo found ≡ ok r)
search-ends segments target zero b e fo found f l n = absurd (omega arith)
search-ends segments target (suc fuel) b e fo found f l n = elim (Bool-cases (eqb_ℤ fo target)) [
  | inl hit ↦ (
    found,
    done segments target fuel (pos b) (pos e -ℤ pos 1) (quot_ℤ (pos b +ℤ (pos e -ℤ pos 1)) 2) fo
        found (inr hit),
  )
  | inr missed ↦ elim (dec_lt b e) [
    | no empty ↦ (
      found,
      done segments target fuel (pos b) (pos e -ℤ pos 1) (quot_ℤ (pos b +ℤ (pos e -ℤ pos 1)) 2) fo
          found (inl (ground arith)),
    )
    | yes range ↦
        let m = (b + (e - 1)) / 2 in
        let (s, here) = get_elem?-some segments m (omega arith) in
        elim (Bool-cases (ltb_ℤ target (Read.base_offset s))) [
          | inl above ↦
              let (r, ends) =
                search-ends segments target fuel b m (Read.base_offset s) found (omega arith)
                  (omega arith) (omega arith) in
              (
                r,
                step_above segments target fuel b e m s fo found range refl missed here above
                    ∙ ends,
              )
          | inr below ↦
              let (r, ends) =
                search-ends segments target fuel (m + 1) e (Read.base_offset s) (some s)
                  (omega arith) (omega arith) n in
              (
                r,
                step_below segments target fuel b e m s fo found range refl missed here below
                    ∙ ends,
              )
        ]
  ]
]

-- Whatever the segments of a partition are, the binary search for the segment of an offset never
-- runs out of its rounds and never leaves the list.
pub find_segment-ends :
    (segments : List Segment) (target : ℤ)
    → (r : Option Segment) × (find_segment segments target ≡ ok r)
unfolding find_segment
find_segment-ends [] target = (none, refl)
find_segment-ends (s ∷ rest) target =
    let (r, ends) =
      search-ends (s ∷ rest) target (suc (suc (length (s ∷ rest)))) 0 (length (s ∷ rest)) (negsuc 0)
        none (omega arith) (omega arith) (omega arith) in
    (
      r,
      ap
            (λ end.
              find_loop (suc (suc (length (s ∷ rest)))) (s ∷ rest) target (pos 0) end
                (quot_ℤ (pos 0 +ℤ end) 2) (negsuc 0) none)
            {x = pos (length rest)} {y = pos (length (s ∷ rest)) -ℤ pos 1} (ground arith)
          ∙ ends,
    )
