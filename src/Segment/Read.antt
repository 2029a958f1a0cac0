-- ===== src/Segment/Read.antt =====
-- Segment::findEntry, Segment::readAt and the accessors of commitlog/Segment.cc.
use mykafka.Prelude.{
  ℕ, zero, suc, Bool, not, ◌&&◌, ◌||◌, List, [], ◌∷◌, ◌++◌, if◌then◌else◌, length, take, drop,
  replicate,
}
use mykafka.Prelude.Int.{ℤ, pos, negsuc, ◌+ℤ◌, ◌-ℤ◌, ◌*ℤ◌, ltb_ℤ, leb_ℤ, eqb_ℤ, quot_ℤ}
use mykafka.Prelude.Bytes.{int64_of, int32_of, overlay}
use mykafka.Error.{log_error, Outcome, ok, err, fault, out_of_fuel}
use mykafka.Env.{Env, succeeds}
use mykafka.Index
use mykafka.Index.{Index, is_valid, to_ℕ, entry_width}
use mykafka.Segment.State.{Segment, offset_size, header_size}
use mykafka.Segment.Write.{header}

-- The binary search of `findEntry`, for at most the given rounds, from the values of its variables.
unfoldable pub find_loop : ℕ → Index → ℤ → ℤ → ℤ → ℤ → ℤ → ℤ → Outcome (ℤ × ℤ)
find_loop zero index target begin end at rel_offset rel_position = out_of_fuel
find_loop (suc fuel) index target begin end at rel_offset rel_position =
    let found : Outcome (ℤ × ℤ) = (elim ((Index.read (at *ℤ entry_width) index).0) [
      | ok (offset, position) ↦
          let rel = offset -ℤ index.base_offset in
          let above = ltb_ℤ target rel in
          let begin' = (if above then begin else at +ℤ pos 1) in
          let end' = (if above then at -ℤ pos 1 else end) in
          find_loop fuel index target begin' end' (quot_ℤ (begin' +ℤ end') 2) rel position
      | err c ↦ err c
      | fault ↦ fault
      | out_of_fuel ↦ out_of_fuel
    ]) in
    if leb_ℤ begin end && not (eqb_ℤ rel_offset target)
    then found
    else ok (rel_offset, rel_position)

-- What `findEntry` makes of its variables behind the loop.
unfoldable pub settle : ℤ → Outcome (ℤ × ℤ) → Outcome (ℤ × ℤ)
settle target (ok (offset, position)) =
    if eqb_ℤ offset target then ok (offset, position) else ok (negsuc 0, negsuc 0)
settle target (err c) = err c
settle target fault = fault
settle target out_of_fuel = out_of_fuel

-- `findEntry` behind the computation of `end`.
unfoldable pub find_up_to : Segment → ℤ → ℤ → ℤ → Outcome (ℤ × ℤ)
find_up_to s rel_position search_offset end = settle search_offset (
    find_loop (suc (suc (suc (to_ℕ end)))) s.index search_offset (pos 0) end
      (quot_ℤ (pos 0 +ℤ end) 2) (negsuc 0) rel_position)

-- The values of `rel_offset` and `rel_position` after the call; the second is the caller's before.
unfoldable pub find_entry : Segment → ℤ → ℤ → Outcome (ℤ × ℤ)
find_entry s rel_position search_offset =
    find_up_to s rel_position search_offset (s.next_offset -ℤ s.index.base_offset -ℤ pos 1)

-- payload.resize(n)
unfoldable pub resized : ℕ → List ℕ → List ℕ
resized n old = take n (old ++ replicate n 0)

-- The reads of `readAt` behind the search: the outcome and what `payload` holds then.
unfoldable pub read_entry : Env → Segment → ℤ → List ℕ → Outcome (Unit {0}) × List ℕ
unfolding resized
read_entry env s rel_position payload =
    let rest = drop (to_ℕ rel_position) s.log.content in
    let entry = overlay (take header_size rest) (header (negsuc 0) (negsuc 0)) in
    let offset = int64_of (take offset_size entry) in
    let size = int32_of (drop offset_size entry) in
    let data_read = take (to_ℕ size) (drop header_size rest) in
    if not (is_valid s.fd_read && succeeds (env (1 ∷ [])) && leb_ℤ (pos 0) rel_position)
    then (err log_error, payload)
    else if not (succeeds (env (2 ∷ []))) || ltb_ℤ offset (pos 0) || ltb_ℤ size (pos 0)
    then (err log_error, payload)
    else if not (succeeds (env (3 ∷ [])))
    then (err log_error, resized (to_ℕ size) payload)
    else if not (eqb_ℤ (pos (length data_read)) size)
    then (err log_error, overlay data_read (resized (to_ℕ size) payload))
    else (ok tt, data_read)

-- `readAt`: the outcome, and what `payload` holds then.
unfoldable pub read_at : Env → Segment → List ℕ → ℤ → Outcome (Unit {0}) × List ℕ
read_at env s payload relative_offset = elim (find_entry s (negsuc 0) relative_offset) [
  | ok (rel_offset, rel_position) ↦
      if eqb_ℤ rel_offset (negsuc 0) || eqb_ℤ rel_position (negsuc 0)
      then (err log_error, payload)
      else read_entry env s rel_position payload
  | err c ↦ (err c, payload)
  | fault ↦ (fault, payload)
  | out_of_fuel ↦ (out_of_fuel, payload)
]

unfoldable pub is_full : Segment → Bool
is_full s = ltb_ℤ s.max_size s.position

-- nextOffset, baseOffset, size
abbrev pub next_offset : Segment → ℤ
next_offset s = s.next_offset

abbrev pub base_offset : Segment → ℤ
base_offset s = s.index.base_offset

abbrev pub size : Segment → ℤ
size s = s.physical_size
