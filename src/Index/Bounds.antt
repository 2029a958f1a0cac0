-- ===== src/Index/Bounds.antt =====
-- The calls on an index between `open` and `close`, and the memory that they touch.
use native.Mathlib.Decide.{dec_lt, dec_le}
use mykafka.Prelude.{
  ℕ, ◌+◌, ◌*◌, ◌%◌, ◌-◌, ◌/◌, ◌≤◌, ◌<◌, ◌≡◌, refl, sym, subst, ap, ◌∙◌, ◌⊎◌, inl, inr, true,
  Bool-cases, List, [], ◌∷◌, arith,
}
use mykafka.Prelude.Int.{ℤ, pos, leb_ℤ, ◌+ℤ◌, ◌-ℤ◌, to_int32}
use mykafka.Prelude.Bytes.{store, int32_bytes, int32_of, load}
use mykafka.Error.{Outcome, ok, err, fault, out_of_fuel, Exec, pure, ◌>>◌, index_error}
use mykafka.Index.{Index, sanity_check, write, read, truncate_entries}

-- A mapping of whole entries, and a position behind some of them.
pub record InBounds (s : Index) : Type 0 where
  pub mapped : s.mapped ≡ true
  pub cap : ℕ
  pub sized : s.size ≡ pos (8 * cap)
  pub count : ℕ
  pub placed : s.position ≡ pos (8 * count)
  pub fits : count ≤ cap

-- A call: an entry is written, one is read at a byte, or the entries from one on are dropped.
pub data Call : Type 0 where
  write_entry : (offset position : ℤ) → Call
  read_at_byte : (byte : ℕ) → Call
  truncate : (nb : ℕ) → Call

abbrev perform : Call → Exec Index Unit
perform (write_entry offset position) = write offset position
perform (read_at_byte byte) = read (pos byte) >> pure tt
perform (truncate nb) = truncate_entries (pos nb)

-- The caller goes on behind an error.
abbrev go_on :
    Outcome (Unit {0}) × Index → (Index → Outcome (Unit {0}) × Index) → Outcome (Unit {0}) × Index
go_on (ok tt, s) rest = rest s
go_on (err c, s) rest = rest s
go_on (fault, s) rest = (fault, s)
go_on (out_of_fuel, s) rest = (out_of_fuel, s)

-- The calls in turn.
unfoldable pub run_calls : List Call → Exec Index Unit
run_calls [] s = (ok tt, s)
run_calls (c ∷ cs) s = go_on (perform c s) (run_calls cs)

-- The memory with the four bytes of an offset and of a position at `a`.
abbrev put_entry : ℕ → ℤ → ℤ → (ℕ → ℕ) → ℕ → ℕ
put_entry a o p m = store (store m a (int32_bytes o)) (a + 4) (int32_bytes p)

-- A call ends, with an error at most, and leaves the index as it should be.
abbrev Stays : Outcome (Unit {0}) × Index → Type 0
Stays (ok tt, s) = InBounds s
Stays (err c, s) = InBounds s
Stays (fault, s) = ⊥
Stays (out_of_fuel, s) = ⊥

module _ (s : Index) (h : InBounds s) where
  abbrev moved : (ℕ → ℕ) → Index
  moved byte = record s {
    position = pos (8 * h.count + 4 + 4);
    file = record s.file { byte = byte };
  }

  moved-InBounds : (byte : ℕ → ℕ) → h.count < h.cap → InBounds (moved byte)
  moved-InBounds byte lt = record {
    mapped = h.mapped;
    cap = h.cap;
    sized = h.sized;
    count = h.count + 1;
    placed = ground arith;
    fits = omega arith;
  }

  write_cases :
      (o p : ℤ)
      → (write o p s ≡ (err index_error, s))
        ⊎ ((byte : ℕ → ℕ) × (h.count < h.cap) × (write o p s ≡ (ok tt, moved byte)))
  unfolding write
  write_cases o p = elim (dec_lt h.count h.cap) [
    | yes lt ↦ inr (
      put_entry (8 * h.count) (to_int32 (o -ℤ s.base_offset)) (to_int32 p) s.file.byte,
      lt,
      simp (h.mapped, h.sized, h.placed) (ground arith),
    )
    | no ge ↦ inl (ground (arith, h.sized, h.placed, h.fits))
  ]

  read_cases :
      (n : ℕ)
      → (((read (pos n) >> pure tt) s) ≡ (err index_error, s))
        ⊎ (((read (pos n) >> pure tt) s) ≡ (ok tt, s))
  unfolding read
  read_cases n = elim (dec_lt (8 * h.cap) (n + 8)) [
    | yes lt ↦ inl (ground (arith, h.mapped, h.sized))
    | no ge ↦ inr (ground (arith, h.mapped, h.sized))
  ]

  truncate_cases :
      (n : ℕ)
      → (truncate_entries (pos n) s ≡ (err index_error, s))
        ⊎ ((n ≤ h.count)
            × (truncate_entries (pos n) s ≡ (ok tt, record s { position = pos (8 * n) })))
  unfolding truncate_entries
  truncate_cases n = elim (dec_lt h.count n) [
    | yes lt ↦ inl (ground (arith, h.placed))
    | no ge ↦ inr (omega arith, ground (arith, h.placed))
  ]

  perform-Stays : (c : Call) → Stays (perform c s)
  perform-Stays (write_entry o p) = elim (write_cases o p) [
    | inl e ↦ subst Stays (sym e) h
    | inr (byte, lt, e) ↦ subst Stays (sym e) (moved-InBounds byte lt)
  ]
  perform-Stays (read_at_byte n) = elim (read_cases n) [
    | inl e ↦ subst Stays (sym e) h
    | inr e ↦ subst Stays (sym e) h
  ]
  perform-Stays (truncate n) = elim (truncate_cases n) [
    | inl e ↦ subst Stays (sym e) h
    | inr (le, e) ↦ subst Stays (sym e) (record {
      mapped = h.mapped;
      cap = h.cap;
      sized = h.sized;
      count = n;
      placed = refl;
      fits = omega arith;
    })
  ]

-- Calls that all end, one behind the other.
abbrev Runs : Outcome (Unit {0}) × Index → Type 0
Runs r = (s : Index) × (r ≡ (ok tt, s)) × InBounds s

go_on-Runs :
    (r : Outcome (Unit {0}) × Index) (rest : Index → Outcome (Unit {0}) × Index)
    → Stays r
    → ((s : Index) → InBounds s → Runs (rest s))
    → Runs (go_on r rest)
go_on-Runs (ok tt, s) rest h next = next s h
go_on-Runs (err c, s) rest h next = next s h
go_on-Runs (fault, s) rest h next = absurd h
go_on-Runs (out_of_fuel, s) rest h next = absurd h

run_calls-InBounds : (calls : List Call) (s : Index) → InBounds s → Runs (run_calls calls s)
unfolding run_calls
run_calls-InBounds [] s h = (s, refl, h)
run_calls-InBounds (c ∷ calls) s h =
    go_on-Runs (perform c s) (run_calls calls) (perform-Stays s h c) (run_calls-InBounds calls)

-- An index that passes the check has whole entries alone, and not more than there is room for.
whole_entries :
    (s : Index) (room n : ℕ)
    → s.mapped ≡ true
    → s.size ≡ pos (8 * room)
    → s.position ≡ pos n
    → ((n % 8 ≡ 0) × (n ≤ 8 * room)) ⊎ (sanity_check s ≡ (err index_error, s))
unfolding sanity_check
whole_entries s room n m z p = elim (dec_le n (8 * room)) [
  | yes le ↦ elim (dec_le (n % 8) 0) [
    | yes e ↦ inl (omega arith, le)
    | no ne ↦ inr (ground (arith, p))
  ]
  | no gt ↦ inr (ground (arith, p, z))
]

sanity_check_cases :
    (s : Index) (room n : ℕ)
    → s.mapped ≡ true
    → s.size ≡ pos (8 * room)
    → s.position ≡ pos n
    → n % 8 ≡ 0
    → n ≤ 8 * room
    → (sanity_check s ≡ (ok tt, s)) ⊎ (sanity_check s ≡ (err index_error, s))
unfolding sanity_check
sanity_check_cases s room n m z p whole le = elim (dec_le n 0) [
  | yes none ↦ inl (ground (arith, p))
  | no some ↦
      elim (Bool-cases
        (leb_ℤ s.base_offset (int32_of (load s.file.byte (n - 8) 4) +ℤ s.base_offset))) [
          | inl fine ↦ inl (ground (arith, m, z, p, fine))
          | inr bad ↦ inr (ground (arith, m, z, p, bad))
        ]
]

sanity_check-InBounds :
    (s s' : Index) (room n : ℕ)
    → s.mapped ≡ true
    → s.size ≡ pos (8 * room)
    → s.position ≡ pos n
    → sanity_check s ≡ (ok tt, s')
    → InBounds s'
sanity_check-InBounds s s' room n m z p e = elim (whole_entries s room n m z p) [
  | inr bad ↦ absurd (ground (arith, e, bad))
  | inl (whole, le) ↦ elim (sanity_check_cases s room n m z p whole le) [
    | inr bad ↦ absurd (ground (arith, e, bad))
    | inl fine ↦ subst InBounds (ap (λ r. r.1) (sym fine ∙ e)) (record {
      mapped = m;
      cap = room;
      sized = z;
      count = n / 8;
      placed = ground arith;
      fits = omega arith;
    })
  ]
]

-- Once sanityCheck accepts an index that is mapped with room for a number of whole entries,
-- whatever its position, which is not negative, and whatever its bytes are, no sequence of calls
-- of write with any values, of read at any place that is not negative and of truncateEntries with
-- a number that is not negative accesses memory outside the mapping, calls that end with an error
-- included, and the position stays at whole entries inside the mapping.
pub run_calls-checked :
    (s s' : Index) (room n : ℕ)
    → s.mapped ≡ true
    → s.size ≡ pos (8 * room)
    → s.position ≡ pos n
    → sanity_check s ≡ (ok tt, s')
    → (calls : List Call) → (t : Index) × (run_calls calls s' ≡ (ok tt, t)) × InBounds t
run_calls-checked s s' room n m z p sane calls =
    run_calls-InBounds calls s' (sanity_check-InBounds s s' room n m z p sane)
