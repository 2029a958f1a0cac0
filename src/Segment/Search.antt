-- ===== src/Segment/Search.antt =====
-- The binary search of Segment::findEntry: on an index whose entries have consecutive offsets it ends
-- and finds exactly the entries that are there.
use native.Mathlib.Decide.{dec_lt, ℕ_discrete}
use mykafka.Prelude.{
  ℕ, zero, suc, ◌+◌, ◌-◌, ◌/◌, ◌≤◌, ◌<◌, ◌≡◌, refl, sym, ap, ◌∙◌, inl, inr, true, false, some, List,
  arith, length, get_elem?, get_elem?-some, Bool-cases,
}
use mykafka.Prelude.Int.{ℤ, pos, ◌+ℤ◌, ◌-ℤ◌, ◌*ℤ◌, ltb_ℤ, leb_ℤ, eqb_ℤ, quot_ℤ}
use mykafka.Error.{Outcome, ok}
use mykafka.Index
use mykafka.Index.{Index, entry_width}
use mykafka.Index.Entries.{Entry, HasEntries, read-HasEntries}
use mykafka.Segment.Read.{find_loop}

-- The loop ends with an offset that is not the target.
abbrev pub Misses : ℤ → Outcome (ℤ × ℤ) → Type 0
Misses target (ok (o, p)) = eqb_ℤ o target ≡ false
Misses target _ = ⊥

module _ (index : Index) where
  -- The loop on the places from `b` on and below `e`.
  abbrev pub search_from : ℕ → ℤ → ℕ → ℕ → ℤ → ℤ → Outcome (ℤ × ℤ)
  search_from fuel target b e ro rp =
      find_loop fuel index target (pos b) (pos e -ℤ pos 1) (quot_ℤ (pos b +ℤ (pos e -ℤ pos 1)) 2) ro
        rp

  pub at_middle :
      (fuel b e m : ℕ) (target ro rp : ℤ)
      → b < e
      → m ≡ (b + (e - 1)) / 2
      → search_from (suc fuel) target b e ro rp
        ≡ find_loop (suc fuel) index target (pos b) (pos e -ℤ pos 1) (pos m) ro rp
  at_middle fuel b e m target ro rp open_range middle =
      ap (λ at. find_loop (suc fuel) index target (pos b) (pos e -ℤ pos 1) at ro rp)
        {x = quot_ℤ (pos b +ℤ (pos e -ℤ pos 1)) 2} {y = pos m} (ground arith)

  pub done_found :
      (fuel : ℕ) (target begin end at ro rp : ℤ)
      → eqb_ℤ ro target ≡ true
      → find_loop (suc fuel) index target begin end at ro rp ≡ ok (ro, rp)
  unfolding find_loop
  done_found fuel target begin end at ro rp e = ground arith

  pub done_empty :
      (fuel : ℕ) (target begin end at ro rp : ℤ)
      → leb_ℤ begin end ≡ false
      → find_loop (suc fuel) index target begin end at ro rp ≡ ok (ro, rp)
  unfolding find_loop
  done_empty fuel target begin end at ro rp e = ground arith

module _ {base cap : ℕ} {es : List Entry} {index : Index} (h : HasEntries base cap es index)
    (consecutive : (i : ℕ) (e : Entry) → get_elem? es i ≡ some e → e.0 ≡ i) where
  read_place :
      (m : ℕ)
      → m < length es
      → (p : ℕ) × (get_elem? es m ≡ some (m, p))
        × ((Index.read (pos m *ℤ entry_width) index).0 ≡ ok (pos (m + base), pos p))
  read_place m lt =
      let (e, here) = get_elem?-some es m lt in
      let same = consecutive m e here in
      (
        e.1,
        here ∙ ap (λ k. some (k, e.1)) same,
        ap (λ k. (Index.read (pos k) index).0) (omega arith)
            ∙ ap (λ r. r.0) (read-HasEntries m e h here)
            ∙ ap (λ k. ok (pos (k + base), pos e.1)) same,
      )

  -- A round where the entry in the middle is not behind the target, and one where it is.
  module _ (fuel m p : ℕ) (target begin end ro rp : ℤ) (open_range : leb_ℤ begin end ≡ true)
      (missed : eqb_ℤ ro target ≡ false)
      (entry : (Index.read (pos m *ℤ entry_width) index).0 ≡ ok (pos (m + base), pos p)) where
    round_below :
        ltb_ℤ target (pos m) ≡ false
        → find_loop (suc fuel) index target begin end (pos m) ro rp
          ≡ find_loop fuel index target
              (pos (m + 1))
              end
              (quot_ℤ (pos (m + 1) +ℤ end) 2)
              (pos m)
              (pos p)
    unfolding find_loop
    round_below below = ground (arith, h.based)

    round_above :
        ltb_ℤ target (pos m) ≡ true
        → find_loop (suc fuel) index target begin end (pos m) ro rp
          ≡ find_loop fuel index target begin
              (pos m -ℤ pos 1)
              (quot_ℤ (begin +ℤ (pos m -ℤ pos 1)) 2)
              (pos m)
              (pos p)
    unfolding find_loop
    round_above above = ground (arith, h.based)

  module _ (fuel b e m p : ℕ) (target ro rp : ℤ) (open_range : b < e)
      (middle : m ≡ (b + (e - 1)) / 2) (missed : eqb_ℤ ro target ≡ false)
      (entry : (Index.read (pos m *ℤ entry_width) index).0 ≡ ok (pos (m + base), pos p)) where
    step_below :
        ltb_ℤ target (pos m) ≡ false
        → search_from index (suc fuel) target b e ro rp
          ≡ search_from index fuel target (m + 1) e (pos m) (pos p)
    step_below below =
        at_middle index fuel b e m target ro rp open_range middle
        ∙ round_below fuel m p target (pos b) (pos e -ℤ pos 1) ro rp (ground arith) missed entry
            below

    step_above :
        ltb_ℤ target (pos m) ≡ true
        → search_from index (suc fuel) target b e ro rp
          ≡ search_from index fuel target b m (pos m) (pos p)
    step_above above =
        at_middle index fuel b e m target ro rp open_range middle
        ∙ round_above fuel m p target (pos b) (pos e -ℤ pos 1) ro rp (ground arith) missed entry
            above

  pub search-hit :
      (r p : ℕ)
      → get_elem? es r ≡ some (r, p)
      → (fuel b e : ℕ) (ro rp : ℤ) → e + 2 ≤ fuel + b
      → b ≤ r
      → r < e
      → e ≤ length es
      → eqb_ℤ ro (pos r) ≡ false
      → search_from index fuel (pos r) b e ro rp ≡ ok (pos r, pos p)
  search-hit r p here zero b e ro rp f l u n miss = absurd (omega arith)
  search-hit r p here (suc zero) b e ro rp f l u n miss = absurd (omega arith)
  search-hit r p here (suc (suc fuel)) b e ro rp f l u n miss =
      let m = (b + (e - 1)) / 2 in
      let (q, at, read) = read_place m (omega arith) in
      elim (dec_lt r m) [
        | yes above ↦
            step_above (suc fuel) b e m q (pos r) ro rp (omega arith) refl miss read (ground arith)
            ∙ search-hit r p here (suc fuel) b m (pos m) (pos q) (omega arith) l (omega arith)
                (omega arith) (ground arith)
        | no not_above ↦
            step_below (suc fuel) b e m q (pos r) ro rp (omega arith) refl miss read (ground arith)
            ∙ elim (ℕ_discrete m r) [
              | yes same ↦
                  done_found index fuel (pos r) (pos (m + 1)) (pos e -ℤ pos 1)
                    (quot_ℤ (pos (m + 1) +ℤ (pos e -ℤ pos 1)) 2) (pos m) (pos q) (ground arith)
                  ∙ (let same' : get_elem? es r ≡ some (m, q) = ap (get_elem? es) (sym same) ∙ at in
                      ground (arith, same', here))
              | no other ↦
                  search-hit r p here (suc fuel) (m + 1) e (pos m) (pos q) (omega arith)
                    (omega arith) u n (ground arith)
            ]
      ]

  pub search-miss :
      (target : ℤ)
      → ((m : ℕ) → m < length es → eqb_ℤ (pos m) target ≡ false)
      → (fuel b e : ℕ) (ro rp : ℤ) → e + 1 ≤ fuel + b
      → b ≤ e
      → e ≤ length es
      → eqb_ℤ ro target ≡ false
      → Misses target (search_from index fuel target b e ro rp)
  search-miss target absent zero b e ro rp f l n miss = absurd (omega arith)
  search-miss target absent (suc fuel) b e ro rp f l n miss = elim (dec_lt b e) [
    | no empty ↦
        rw
          (done_empty index fuel target (pos b) (pos e -ℤ pos 1)
            (quot_ℤ (pos b +ℤ (pos e -ℤ pos 1)) 2) ro rp (ground arith))
          miss
    | yes range ↦
        let m = (b + (e - 1)) / 2 in
        let (q, at, read) = read_place m (omega arith) in
        elim (Bool-cases (ltb_ℤ target (pos m))) [
          | inl above ↦ rw (step_above fuel b e m q target ro rp range refl miss read above) (
              search-miss target absent fuel b m (pos m) (pos q) (omega arith) (omega arith)
                (omega arith) (absent m (omega arith)))
          | inr below ↦ rw (step_below fuel b e m q target ro rp range refl miss read below) (
              search-miss target absent fuel (m + 1) e (pos m) (pos q) (omega arith) (omega arith) n
                (absent m (omega arith)))
        ]
  ]
