-- ===== src/Segment/Termination.antt =====
-- The loops of a segment end, whatever the files hold and whatever calls fail: the rebuilding of the
-- index, because every round takes room in the index, and the binary search.
use native.Mathlib.Decide.{dec_lt}
use mykafka.Prelude.{
  ℕ, zero, suc, ◌+◌, ◌-◌, ◌/◌, ◌≤◌, ◌<◌, ◌≡◌, refl, ◌≢◌, sym, subst, Option, none, some, List,
  arith,
}
use mykafka.Prelude.Int.{ℤ, pos, negsuc, ◌+ℤ◌, ◌-ℤ◌, ◌*ℤ◌, quot_ℤ}
use mykafka.Error.{Outcome, ok, err, fault, out_of_fuel}
use mykafka.Prelude.Bytes.{int64_of, int64_bytes, overlay}
use mykafka.Env.{Env, sub}
use mykafka.Index
use mykafka.Index.{Index, to_ℕ, entry_width}
use mykafka.Segment.State.{Segment}
use mykafka.Segment.Read.{find_loop, settle, find_up_to, find_entry}
use mykafka.Segment.Search.{search_from, at_middle, done_empty}
use mykafka.Segment.Recover.{
  reconstruct_read, reconstruct_step, go_on, reconstruct_loop, reconstruct,
}

-- How much room an index has left.
abbrev room : Index → ℕ
room s = to_ℕ s.size - to_ℕ s.position

abbrev TakesRoom : Index → Outcome (Unit {0}) × Index → Type 0
TakesRoom s (ok _, s') = room s' < room s
TakesRoom s (out_of_fuel, s') = ⊥
TakesRoom s _ = Unit {0}

write-TakesRoom : (o p : ℤ) (s : Index) → TakesRoom s (Index.write o p s)
unfolding Index.write
write-TakesRoom o p s = ground arith

abbrev StepTakesRoom : Segment → Outcome (Option ℕ) × Segment → Type 0
StepTakesRoom s (ok (some _), s') = room s'.index < room s.index
StepTakesRoom s (out_of_fuel, s') = ⊥
StepTakesRoom s _ = Unit {0}

reconstruct_read-StepTakesRoom :
    (env : Env) (cursor : ℕ) (a b : List ℕ) (s : Segment)
    → StepTakesRoom s (reconstruct_read env cursor a b s)
unfolding reconstruct_read
reconstruct_read-StepTakesRoom env cursor a b s =
    ground
      (arith, write-TakesRoom (int64_of (overlay a (int64_bytes s.next_offset))) s.position s.index)

reconstruct_step-StepTakesRoom :
    (env : Env) (cursor : ℕ) (s : Segment) → StepTakesRoom s (reconstruct_step env cursor s)
unfolding reconstruct_step
reconstruct_step-StepTakesRoom env cursor s = reconstruct_read-StepTakesRoom env cursor _ _ s

go_on-ends :
    (rest : ℕ → Segment → Outcome (Unit {0}) × Segment) (s : Segment)
    (r : Outcome (Option ℕ) × Segment)
    → StepTakesRoom s r
    → ((cursor : ℕ) (t : Segment) → room t.index < room s.index → (rest cursor t).0 ≢ out_of_fuel)
    → (go_on rest r).0 ≢ out_of_fuel
unfolding go_on
go_on-ends rest s (ok none, t) takes ends = λ e. cc
go_on-ends rest s (ok (some cursor), t) takes ends = ends cursor t takes
go_on-ends rest s (err c, t) takes ends = λ e. cc
go_on-ends rest s (fault, t) takes ends = λ e. cc
go_on-ends rest s (out_of_fuel, t) takes ends = absurd takes

reconstruct_loop-ends :
    (fuel : ℕ) (env : Env) (cursor : ℕ) (s : Segment)
    → room s.index < fuel
    → (reconstruct_loop fuel env cursor s).0 ≢ out_of_fuel
unfolding reconstruct_loop
reconstruct_loop-ends zero env cursor s h = absurd (omega arith)
reconstruct_loop-ends (suc fuel) env cursor s h =
    go_on-ends (reconstruct_loop fuel (sub env 4)) s (reconstruct_step env cursor s)
      (reconstruct_step-StepTakesRoom env cursor s)
      (λ next t lt. reconstruct_loop-ends fuel (sub env 4) next t (omega arith))

-- Whatever bytes the log holds, whatever the state of the segment is and whatever calls fail, the
-- rebuilding of the index never runs out of its rounds, of which there is one more than the index
-- has bytes.
pub reconstruct-ends : (env : Env) (s : Segment) → (reconstruct env s).0 ≢ out_of_fuel
unfolding reconstruct
reconstruct-ends env s =
    ground (arith, reconstruct_loop-ends (suc (to_ℕ s.index.size)) (sub env 2) 0 s)

-- One round with the entry that it reads, and one that reads none.
module _ (fuel : ℕ) (index : Index) (target begin end at ro rp : ℤ) where
  round-ends :
      (r : Outcome (ℤ × ℤ))
      → (Index.read (at *ℤ entry_width) index).0 ≡ r
      → r ≢ out_of_fuel
      → ((rel p : ℤ)
          → find_loop fuel index target (at +ℤ pos 1) end (quot_ℤ (at +ℤ pos 1 +ℤ end) 2) rel p
            ≢ out_of_fuel)
      → ((rel p : ℤ)
          → find_loop fuel index target begin
              (at -ℤ pos 1)
              (quot_ℤ (begin +ℤ (at -ℤ pos 1)) 2)
              rel
              p
            ≢ out_of_fuel)
      → find_loop (suc fuel) index target begin end at ro rp ≢ out_of_fuel
  unfolding find_loop
  round-ends (ok (o, p)) e n below above =
      ground (arith, e, below (o -ℤ index.base_offset) p, above (o -ℤ index.base_offset) p)
  round-ends (err c) e n below above = ground (arith, e)
  round-ends fault e n below above = ground (arith, e)
  round-ends out_of_fuel e n below above = absurd (n refl)

read-ne-out_of_fuel : (a : ℤ) (index : Index) → (Index.read a index).0 ≢ out_of_fuel
unfolding Index.read
read-ne-out_of_fuel a index = ground arith

-- The search, for places from `b` on and below `e`, in any index.
find_loop-ends :
    (fuel : ℕ) (index : Index) (target : ℤ) (b e : ℕ) (ro rp : ℤ)
    → e + 1 ≤ fuel + b
    → b ≤ e
    → search_from index fuel target b e ro rp ≢ out_of_fuel
find_loop-ends zero index target b e ro rp f l = absurd (omega arith)
find_loop-ends (suc fuel) index target b e ro rp f l = elim (dec_lt b e) [
  | no empty ↦
      rw
        (done_empty index fuel target (pos b) (pos e -ℤ pos 1)
          (quot_ℤ (pos b +ℤ (pos e -ℤ pos 1)) 2) ro rp (ground arith))
        (λ e. cc)
  | yes range ↦
      let m = (b + (e - 1)) / 2 in
      rw (at_middle index fuel b e m target ro rp range refl) (
        round-ends fuel index target (pos b) (pos e -ℤ pos 1) (pos m) ro rp
          (Index.read (pos m *ℤ entry_width) index).0 refl
          (read-ne-out_of_fuel (pos m *ℤ entry_width) index)
          (λ rel p. find_loop-ends fuel index target (m + 1) e rel p (omega arith) (omega arith))
          (λ rel p. find_loop-ends fuel index target b m rel p (omega arith) (omega arith)))
]

settle-ends : (target : ℤ) (r : Outcome (ℤ × ℤ)) → r ≢ out_of_fuel → settle target r ≢ out_of_fuel
unfolding settle
settle-ends target (ok (o, p)) n = ground arith
settle-ends target (err c) n = λ e. cc
settle-ends target fault n = λ e. cc
settle-ends target out_of_fuel n = absurd (n refl)

find_up_to-ends :
    (s : Segment) (rel_position target end : ℤ) → find_up_to s rel_position target end ≢ out_of_fuel
unfolding find_up_to
find_up_to-ends s rel_position target (pos n) =
    let last : pos n ≡ pos (n + 1) -ℤ pos 1 = ground arith in
    settle-ends target _ (
      subst
        (λ (end : ℤ).
          find_loop (suc (suc (suc n))) s.index target (pos 0) end (quot_ℤ (pos 0 +ℤ end) 2)
            (negsuc 0) rel_position
          ≢ out_of_fuel)
        (sym last)
        (find_loop-ends (suc (suc (suc n))) s.index target 0 (n + 1) (negsuc 0) rel_position
          (omega arith) (omega arith)))
find_up_to-ends s rel_position target (negsuc n) = settle-ends target _ (
    rw
      (done_empty s.index 2 target (pos 0) (negsuc n) (quot_ℤ (pos 0 +ℤ negsuc n) 2) (negsuc 0)
        rel_position refl)
      (λ e. cc))

-- Whatever the index and the offsets of the segment are, the binary search of findEntry never
-- runs out of its rounds.
pub find_entry-ends :
    (s : Segment) (rel_position target : ℤ) → find_entry s rel_position target ≢ out_of_fuel
unfolding find_entry
find_entry-ends s rel_position target = find_up_to-ends s rel_position target _
