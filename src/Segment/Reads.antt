-- ===== src/Segment/Reads.antt =====
-- Segment::findEntry and Segment::readAt on a segment that holds a list of messages.
use mykafka.Prelude.{
  ℕ, zero, suc, ◌+◌, ◌^◌, ◌≤◌, ◌<◌, ◌≡◌, refl, ap, ap₂, ◌∙◌, ◌≢◌, inl, inr, some, List, [], ◌∷◌,
  ◌++◌, append-nil, arith, Bool-cases, length, take, drop, take-append, drop-append,
  drop-append_add, drop_all, get_elem?, get_elem?-lt, false,
}
use mykafka.Prelude.Int.{ℤ, pos, negsuc, ◌+ℤ◌, ◌-ℤ◌, eqb_ℤ, eqb_ℤ_ne, quot_ℤ, eqb_ℤ_refl}
use mykafka.Prelude.Bytes.{
  int64_bytes, int32_bytes, int64_of, int32_of, overlay, length-int64_bytes, int64_of-bytes,
  int32_of-bytes,
}
use mykafka.Error.{Outcome, ok, err, fault, out_of_fuel, log_error}
use mykafka.Env.{calm}
use mykafka.Index.{to_ℕ, valid}
use mykafka.Index.Entries.{Entry, HasEntries}
use mykafka.Segment.State.{Segment}
use mykafka.Segment.Write.{header}
use mykafka.Segment.Read.{find_loop, settle, find_up_to, find_entry, read_entry, read_at}
use mykafka.Segment.Layout.{
  Payload, layout, entries, length-header, length-entries, length-le-total_of,
}
use mykafka.Segment.Holds.{Holds, Fits}
use mykafka.Segment.Search.{Misses, done_found, search-hit, search-miss}

-- The entries of a segment have consecutive offsets.
entries-consecutive :
    (r q : ℕ) (ps : List Payload) (i : ℕ) (e : Entry)
    → get_elem? (entries r q ps) i ≡ some e
    → e.0 ≡ r + i
entries-consecutive r q [] i e h = cc
entries-consecutive r q (p ∷ ps) zero (a, b) h = ground arith
entries-consecutive r q (p ∷ ps) (suc i) e h =
    omega (arith, entries-consecutive (r + 1) (q + (12 + length p)) ps i e h)

-- Where the message with relative offset `i` stands in the log, and what stands there.
place_of :
    (o r q : ℕ) (ps : List Payload) (i : ℕ) (p : Payload)
    → get_elem? ps i ≡ some p
    → (place : ℕ) × (rest : List ℕ) × (get_elem? (entries r q ps) i ≡ some (r + i, q + place))
      × (drop place (layout o ps) ≡ header (pos (o + i)) (pos (length p)) ++ (p ++ rest))
place_of o r q [] i p h = cc
place_of o r q (x ∷ ps) zero p h =
    let same : x ≡ p = ground arith in
    (
      0,
      layout (o + 1) ps,
      ap₂ (λ a b. some (a, b)) (omega arith) (omega arith),
      ap (λ k. header (pos k) (pos (length x)) ++ (x ++ layout (o + 1) ps)) {x = o} {y = o + 0}
            (omega arith)
          ∙ ap (λ y. header (pos (o + 0)) (pos (length y)) ++ (y ++ layout (o + 1) ps)) same,
    )
place_of o r q (x ∷ ps) (suc i) p h =
    let (place, rest, entry, bytes) = place_of (o + 1) (r + 1) (q + (12 + length x)) ps i p h in
    (
      12 + length x + place,
      rest,
      entry ∙ ap₂ (λ a b. some (a, b)) (omega arith) (omega arith),
      drop-append_add (header (pos o) (pos (length x))) (x ++ layout (o + 1) ps)
            (12 + length x + place) (length x + place)
            (omega (arith, length-header (pos o) (pos (length x))))
          ∙ drop-append_add x (layout (o + 1) ps) (length x + place) place refl
          ∙ bytes
          ∙ ap (λ k. header (pos k) (pos (length p)) ++ (p ++ rest)) {x = o + 1 + i} {y = o + suc i}
              (omega arith),
    )

settle-found : (target p : ℤ) → settle target (ok (target, p)) ≡ ok (target, p)
unfolding settle
settle-found target p = rw (eqb_ℤ_refl target)

settle-minus : (target : ℤ) → settle target (ok (negsuc 0, negsuc 0)) ≡ ok (negsuc 0, negsuc 0)
unfolding settle
settle-minus target = ground arith

settle-missed :
    (target : ℤ) (r : Outcome (ℤ × ℤ)) → Misses target r → settle target r ≡ ok (negsuc 0, negsuc 0)
unfolding settle
settle-missed target (ok (o, p)) h = rw h
settle-missed target (err c) h = absurd h
settle-missed target fault h = absurd h
settle-missed target out_of_fuel h = absurd h

module _ {base cap : ℕ} (ps : List Payload) (s : Segment)
    (next : s.next_offset ≡ pos (base + length ps))
    (indexed : HasEntries base cap (entries 0 0 ps) s.index) where
  sequential : (i : ℕ) (e : Entry) → get_elem? (entries 0 0 ps) i ≡ some e → e.0 ≡ i
  sequential i e here = omega (arith, entries-consecutive 0 0 ps i e here)

  last_place : s.next_offset -ℤ s.index.base_offset -ℤ pos 1 ≡ pos (length ps) -ℤ pos 1
  last_place = rw (next, indexed.based) (ground arith)

  -- The search finds the messages that are there, and answers -1 and -1 for every other offset.
  pub find_entry-hit :
      (rp : ℤ) (r q : ℕ)
      → get_elem? (entries 0 0 ps) r ≡ some (r, q)
      → find_entry s rp (pos r) ≡ ok (pos r, pos q)
  unfolding find_entry find_up_to
  find_entry-hit rp r q here =
      let n = length-entries 0 0 ps in
      let lt : r < length ps = omega (arith, get_elem?-lt (entries 0 0 ps) r here) in
      let fuel = to_ℕ (pos (length ps) -ℤ pos 1) in
      let enough : length ps ≤ fuel + 1 = ground arith in
      ap (find_up_to s rp (pos r)) last_place
      ∙ ap (settle (pos r)) (
          search-hit indexed sequential r q here (suc (suc (suc fuel))) 0 (length ps) (negsuc 0) rp
            (omega arith) (omega arith) lt (omega arith) refl)
      ∙ settle-found (pos r) (pos q)

  find_entry-miss :
      (target : ℤ)
      → ((m : ℕ) → m < length ps → eqb_ℤ (pos m) target ≡ false)
      → find_entry s (negsuc 0) target ≡ ok (negsuc 0, negsuc 0)
  unfolding find_entry find_up_to
  find_entry-miss target absent =
      let n = length-entries 0 0 ps in
      let fuel = to_ℕ (pos (length ps) -ℤ pos 1) in
      let enough : length ps ≤ fuel + 1 = ground arith in
      ap (find_up_to s (negsuc 0) target) last_place ∙ elim (Bool-cases (eqb_ℤ (negsuc 0) target)) [
        | inl is_minus ↦
            ap (settle target) (
              done_found s.index (suc (suc fuel)) target (pos 0) (pos (length ps) -ℤ pos 1)
                (quot_ℤ (pos 0 +ℤ (pos (length ps) -ℤ pos 1)) 2) (negsuc 0) (negsuc 0) is_minus)
            ∙ settle-minus target
        | inr other ↦
            settle-missed target
              (find_loop (suc (suc (suc fuel))) s.index target (pos 0) (pos (length ps) -ℤ pos 1)
                (quot_ℤ (pos 0 +ℤ (pos (length ps) -ℤ pos 1)) 2) (negsuc 0) (negsuc 0))
              (search-miss indexed sequential target (λ m lt. absent m (omega arith))
                (suc (suc (suc fuel))) 0 (length ps) (negsuc 0) (negsuc 0) (omega arith)
                (omega arith) (omega arith) other)
      ]

-- A well-formed message at a place of the log is read back.
module _ (s : Segment) (place o : ℕ) (p rest payload : List ℕ) (open_read : s.fd_read ≡ valid)
    (here : drop place s.log.content ≡ header (pos o) (pos (length p)) ++ (p ++ rest))
    (small_offset : o < 2 ^ 63) (small : length p < 2 ^ 31) where
  header_read :
      overlay (take 12 (drop place s.log.content)) (header (negsuc 0) (negsuc 0))
      ≡ header (pos o) (pos (length p))
  header_read = rw here (
      rw (take-append 12 (header (pos o) (pos (length p))) (p ++ rest) (length-header _ _)) (
        rw (length-header (pos o) (pos (length p))) (
          rw
            (drop_all 12 (header (negsuc 0) (negsuc 0))
              (omega (arith, length-header (negsuc 0) (negsuc 0))))
            (append-nil _))))

  offset_read : int64_of (take 8 (header (pos o) (pos (length p)))) ≡ pos o
  unfolding header
  offset_read =
      ap int64_of (
        take-append 8 (int64_bytes (pos o)) (int32_bytes (pos (length p)))
          (length-int64_bytes (pos o)))
      ∙ int64_of-bytes o small_offset

  size_read : int32_of (drop 8 (header (pos o) (pos (length p)))) ≡ pos (length p)
  unfolding header
  size_read =
      ap int32_of (
        drop-append 8 (int64_bytes (pos o)) (int32_bytes (pos (length p)))
          (length-int64_bytes (pos o)))
      ∙ int32_of-bytes (length p) small

  data_read : take (length p) (drop 12 (drop place s.log.content)) ≡ p
  data_read = rw here (
      ap (take (length p))
        (drop-append 12 (header (pos o) (pos (length p))) (p ++ rest) (length-header _ _))
      ∙ take-append (length p) p rest refl)

  pub read_entry-message : read_entry calm s (pos place) payload ≡ (ok tt, p)
  unfolding read_entry
  read_entry-message =
      rw (header_read, offset_read, size_read, data_read) (ground (arith, open_read))

-- When no call fails, reading a segment that holds a list of messages which fits the integer
-- types, at the relative offset of one of them, succeeds and hands over exactly that message.
pub read_at-message :
    {base cap : ℕ} {ps : List Payload} {s : Segment} (payload p : Payload) (r : ℕ)
    → Holds base cap ps s
    → Fits base cap ps
    → get_elem? ps r ≡ some p
    → read_at calm s payload (pos r) ≡ (ok tt, p)
unfolding read_at
read_at-message {base = base} {ps = ps} {s = s} payload p r h fits here =
    let (place, rest, entry, bytes) = place_of base 0 0 ps r p here in
    let lt = get_elem?-lt ps r here in
    let small = length-le-total_of ps r p here in
    rw
      (
        find_entry-hit ps s h.next h.indexed (negsuc 0) r place
            (entry ∙ ap₂ (λ a b. some (a, b)) {x = 0 + r} {y = r} (omega arith) (omega arith)),
        read_at,
      )
      (read_entry-message s place (base + r) p rest payload h.readable
        (ap (drop place) h.logged ∙ bytes) (omega (arith, fits.offsets))
        (omega (arith, fits.bytes)))

-- When no call fails, reading a segment that holds a list of messages at any other integer,
-- negative ones included, fails with LOG_ERROR and leaves the payload of the caller as it was.
pub read_at-missing :
    {base cap : ℕ} {ps : List Payload} {s : Segment} (payload : Payload) (target : ℤ)
    → Holds base cap ps s
    → ((m : ℕ) → m < length ps → pos m ≢ target)
    → read_at calm s payload target ≡ (err log_error, payload)
unfolding read_at
read_at-missing {ps = ps} {s = s} payload target h absent = rw (
  find_entry-miss ps s h.next h.indexed target (λ m lt. eqb_ℤ_ne (pos m) target (absent m lt)),
  read_at,
)
