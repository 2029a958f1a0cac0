-- ===== src/Partition/Read.antt =====
-- Partition::findSegment, Partition::readAt and the accessors of commitlog/Partition.cc.
use mykafka.Prelude.{
  ℕ, zero, suc, not, ◌&&◌, Option, none, some, List, [], ◌∷◌, if◌then◌else◌, length, get_elem?,
}
use mykafka.Prelude.Int.{ℤ, pos, negsuc, ◌+ℤ◌, ◌-ℤ◌, ltb_ℤ, leb_ℤ, eqb_ℤ, quot_ℤ}
use mykafka.Error.{partition_error, Outcome, ok, err, fault, out_of_fuel}
use mykafka.Env.{Env, sub}
use mykafka.Segment.State.{Segment}
use mykafka.Segment.Read
use mykafka.Partition.State.{Partition}

-- segments_[at]
unfoldable pub segment_at : List Segment → ℤ → Outcome Segment
segment_at segments (pos n) = elim (get_elem? segments n) [ some s ↦ ok s | none ↦ fault ]
segment_at segments (negsuc _) = fault

-- The loop of `findSegment`, for at most the given rounds, from the values of its variables.
unfoldable pub find_loop :
    ℕ → List Segment → ℤ → ℤ → ℤ → ℤ → ℤ → Option Segment → Outcome (Option Segment)
find_loop zero segments target begin end at found_offset found = out_of_fuel
find_loop (suc fuel) segments target begin end at found_offset found =
    let next : Outcome (Option Segment) = (elim (segment_at segments at) [
      | ok s ↦
          let above = ltb_ℤ target (Read.base_offset s) in
          let begin' = (if above then begin else at +ℤ pos 1) in
          let end' = (if above then at -ℤ pos 1 else end) in
          find_loop fuel segments target begin' end' (quot_ℤ (begin' +ℤ end') 2)
            (Read.base_offset s) (if above then found else some s)
      | err c ↦ err c
      | fault ↦ fault
      | out_of_fuel ↦ out_of_fuel
    ]) in
    if leb_ℤ begin end && not (eqb_ℤ found_offset target) then next else ok found

unfoldable pub find_segment : List Segment → ℤ → Outcome (Option Segment)
find_segment [] target = ok none
find_segment (s ∷ rest) target =
    let end = pos (length rest) in
    find_loop (suc (suc (length (s ∷ rest)))) (s ∷ rest) target (pos 0) end
      (quot_ℤ (pos 0 +ℤ end) 2) (negsuc 0) none

-- `readAt` behind the search.
unfoldable pub read_found :
    Env → List ℕ → ℤ → Outcome (Option Segment) → Outcome (Unit {0}) × List ℕ
read_found env payload offset (ok none) = (err partition_error, payload)
read_found env payload offset (ok (some s)) =
    Read.read_at env s payload (offset -ℤ Read.base_offset s)
read_found env payload offset (err c) = (err c, payload)
read_found env payload offset fault = (fault, payload)
read_found env payload offset out_of_fuel = (out_of_fuel, payload)

-- `readAt`: the outcome, and what `payload` holds then.
unfoldable pub read_at : Env → Partition → List ℕ → ℤ → Outcome (Unit {0}) × List ℕ
unfolding read_found
read_at env p payload offset =
    if p.cancel
    then (err partition_error, payload)
    else read_found (sub env 1) payload offset (find_segment p.segments offset)

unfoldable pub last_next : List Segment → Outcome ℤ
last_next [] = fault
last_next (s ∷ []) = ok (Read.next_offset s)
last_next (s ∷ (t ∷ rest)) = last_next (t ∷ rest)

unfoldable pub newest_offset : Partition → Outcome ℤ
unfolding last_next
newest_offset p =
    if p.cancel then ok (negsuc 0) else if p.active then last_next p.segments else fault

unfoldable pub first_base : List Segment → Outcome ℤ
first_base [] = fault
first_base (s ∷ rest) = ok (Read.base_offset s)

unfoldable pub oldest_offset : Partition → Outcome ℤ
unfolding first_base
oldest_offset p = if p.cancel then ok (negsuc 0) else first_base p.segments

abbrev pub physical_size : Partition → ℤ
physical_size p = p.physical_size
