-- ===== src/Partition/Closed.antt =====
-- A partition that was closed, and the active segment of one that was cleaned.
use mykafka.Prelude.{ℕ, ◌≡◌, refl, ap, ◌∙◌, ◌⊎◌, Bool, true, false, inl, inr, List, [], ◌∷◌, arith}
use mykafka.Prelude.Int.{ℤ, pos, negsuc, ◌-ℤ◌}
use mykafka.Error.{partition_error, Outcome, ok, err}
use mykafka.Env.{Env, sub}
use mykafka.Segment.State.{Segment}
use mykafka.Partition.State.{Partition, put_back}
use mykafka.Partition.Write.{write}
use mykafka.Partition.Read.{read_at, newest_offset, oldest_offset, last_next}
use mykafka.Partition.Close.{close, close_loop}
use mykafka.Partition.Clean.{Fate, deleted, stuck, spared, fate, clean_loop, clean_old_segments}
use mykafka.Segment.Read
use mykafka.Segment.Close as SegmentClose

-- Every request is turned away, whatever calls fail.
pub record Refuses (p : Partition) : Type 0 where
  pub writes :
      (env : Env) (now : ℤ) (payload : List ℕ) → write env now payload p ≡ (err partition_error, p)
  pub reads :
      (env : Env) (payload : List ℕ) (offset : ℤ)
      → read_at env p payload offset ≡ (err partition_error, payload)
  pub newest : newest_offset p ≡ ok (negsuc 0)
  pub oldest : oldest_offset p ≡ ok (negsuc 0)

cancel-Refuses : (p : Partition) → p.cancel ≡ true → Refuses p
unfolding write read_at newest_offset oldest_offset
cancel-Refuses p cancelled = record {
  writes = λ env now payload. ground (arith, cancelled);
  reads = λ env payload offset. ground (arith, cancelled);
  newest = ground (arith, cancelled);
  oldest = ground (arith, cancelled);
}

close_loop-cancel :
    (env : Env) (segments : List Segment) (b : Bool) (p : Partition)
    → (close_loop env segments b p).1.cancel ≡ p.cancel
unfolding close_loop
close_loop-cancel env [] b p = refl
close_loop-cancel env (s ∷ rest) b p =
    let s' = SegmentClose.destroyed (sub env 3) (SegmentClose.close (sub env 1) s).1 in
    ground (arith, close_loop-cancel (sub env 2) rest true (record p { dir = put_back s' p.dir }))

-- After close, whether it went well or not and whatever calls failed, a partition that holds no
-- deleted segments answers PARTITION_ERROR to each write and read, which change nothing, and -1
-- as its newest and its oldest offset.
pub close-Refuses : (env : Env) (p : Partition) → p.freed ≡ false → Refuses (close env p).1
unfolding close
close-Refuses env p live = cancel-Refuses (close env p).1 (
    ground (
      arith,
      live,
      close_loop-cancel env p.segments false
          (record p { cancel = true; active = false; physical_size = pos 0 }),
    ))

-- What the loop keeps behind a segment that is not the last.
abbrev kept : Env → ℤ → Partition → List Segment → List Segment
kept env now p segments = (clean_loop env now p segments).2

Fate-cases :
    (f : Fate)
    → ((s : Segment) × (f ≡ deleted s))
      ⊎ ((r : Outcome (Unit {0})) × (s : Segment) × (f ≡ stuck r s))
      ⊎ (f ≡ spared)
Fate-cases (deleted s) = inl (s, refl)
Fate-cases (stuck r s) = inr (inl (r, s, refl))
Fate-cases spared = inr (inr refl)

module _ (env : Env) (now : ℤ) (p : Partition) (s t : Segment) (rest : List Segment) where
  kept-deleted :
      (s' : Segment)
      → fate env now p s ≡ deleted s'
      → kept env now p (s ∷ (t ∷ rest))
        ≡ kept
            (sub env 2)
            now
            (record p { physical_size = p.physical_size -ℤ Read.size s; dir = put_back s' p.dir })
            (t ∷ rest)
  unfolding clean_loop
  kept-deleted s' e = ground (arith, e)

  kept-stuck :
      (r : Outcome (Unit {0})) (s' : Segment)
      → fate env now p s ≡ stuck r s'
      → kept env now p (s ∷ (t ∷ rest)) ≡ s' ∷ kept (sub env 2) now p (t ∷ rest)
  unfolding clean_loop
  kept-stuck r s' e = ground (arith, e)

  kept-spared :
      fate env now p s ≡ spared
      → kept env now p (s ∷ (t ∷ rest)) ≡ s ∷ kept (sub env 2) now p (t ∷ rest)
  unfolding clean_loop
  kept-spared e = ground (arith, e)

kept_behind :
    (env : Env) (now : ℤ) (p : Partition) (x : Segment) (segments : List Segment)
    → last_next (x ∷ kept env now p segments) ≡ last_next (x ∷ segments)
unfolding clean_loop last_next
kept_behind env now p x [] = refl
kept_behind env now p x (s ∷ []) = refl
kept_behind env now p x (s ∷ (t ∷ rest)) = elim (Fate-cases (fate env now p s)) [
  | inl (s', e) ↦
      ap (λ l. last_next (x ∷ l)) (kept-deleted env now p s t rest s' e)
      ∙ kept_behind (sub env 2) now _ x (t ∷ rest)
  | inr (inl (r, s', e)) ↦
      ap (λ l. last_next (x ∷ l)) (kept-stuck env now p s t rest r s' e)
      ∙ kept_behind (sub env 2) now p s' (t ∷ rest)
  | inr (inr e) ↦
      ap (λ l. last_next (x ∷ l)) (kept-spared env now p s t rest e)
      ∙ kept_behind (sub env 2) now p s (t ∷ rest)
]

kept_last :
    (env : Env) (now : ℤ) (p : Partition) (segments : List Segment)
    → last_next (kept env now p segments) ≡ last_next segments
unfolding clean_loop last_next
kept_last env now p [] = refl
kept_last env now p (s ∷ []) = refl
kept_last env now p (s ∷ (t ∷ rest)) = elim (Fate-cases (fate env now p s)) [
  | inl (s', e) ↦
      ap last_next (kept-deleted env now p s t rest s' e) ∙ kept_last (sub env 2) now _ (t ∷ rest)
  | inr (inl (r, s', e)) ↦
      ap last_next (kept-stuck env now p s t rest r s' e)
      ∙ kept_behind (sub env 2) now p s' (t ∷ rest)
  | inr (inr e) ↦
      ap last_next (kept-spared env now p s t rest e) ∙ kept_behind (sub env 2) now p s (t ∷ rest)
]

-- The partition that the loop leaves is as before, but for its size and its directory.
loop_flags :
    (env : Env) (now : ℤ) (p : Partition) (segments : List Segment)
    → ((clean_loop env now p segments).1.cancel ≡ p.cancel)
      × ((clean_loop env now p segments).1.active ≡ p.active)
unfolding clean_loop
loop_flags env now p [] = (refl, refl)
loop_flags env now p (s ∷ []) = (refl, refl)
loop_flags env now p (s ∷ (t ∷ rest)) = elim (Fate-cases (fate env now p s)) [
  | inl (s', e) ↦
      let (c, a) =
        loop_flags (sub env 2) now
          (record p { physical_size = p.physical_size -ℤ Read.size s; dir = put_back s' p.dir })
          (t ∷ rest) in
      (ground (arith, e, c), ground (arith, e, a))
  | inr (inl (r, s', e)) ↦
      let (c, a) = loop_flags (sub env 2) now p (t ∷ rest) in
      (ground (arith, e, c), ground (arith, e, a))
  | inr (inr e) ↦
      let (c, a) = loop_flags (sub env 2) now p (t ∷ rest) in
      (ground (arith, e, c), ground (arith, e, a))
]

-- Cleaning old segments leaves the newest offset of a partition as it was, whatever its limits,
-- its segments and the time are and whatever calls fail.
pub clean-newest_offset :
    (env : Env) (now : ℤ) (p : Partition)
    → newest_offset (clean_old_segments env now p).1 ≡ newest_offset p
unfolding clean_old_segments newest_offset
clean-newest_offset env now p =
    let (c, a) = loop_flags env now p p.segments in
    ground (arith, c, a, kept_last env now p p.segments)
