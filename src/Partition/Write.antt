-- ===== src/Partition/Write.antt =====
-- Partition::write of commitlog/Partition.cc.
use mykafka.Prelude.{ℕ, Bool, not, ◌||◌, List, [], ◌∷◌, if◌then◌else◌, length}
use mykafka.Prelude.Int.{ℤ, pos, ◌+ℤ◌, eqb_ℤ}
use mykafka.Error.{partition_error, Outcome, fault, Exec, pure, gets, guard, modify, ◌>>=◌, ◌>>◌}
use mykafka.Env.{Env, sub}
use mykafka.Segment.State.{Segment, header_size}
use mykafka.Segment.Read
use mykafka.Segment.Write
use mykafka.Partition.State.{Partition}
use mykafka.Partition.Open.{open_new, clean_silently}

-- A call of a method of the active segment; the assertion and the access fail without one.
unfoldable pub on_last : {A : Type 0} → Exec Segment A → List Segment → Outcome A × List Segment
on_last m [] = (fault, [])
on_last m (s ∷ []) = let (r, s') = m s in (r, s' ∷ [])
on_last m (s ∷ (t ∷ rest)) = let (r, kept) = on_last m (t ∷ rest) in (r, s ∷ kept)

unfoldable pub on_active : {A : Type 0} → Exec Segment A → Exec Partition A
unfolding on_last
on_active m p =
    if p.active
    then (let (r, segments) = on_last m p.segments in (r, record p { segments = segments }))
    else (fault, p)

-- The start of a new segment behind a full one.
unfoldable pub roll : Env → ℤ → Bool → Exec Partition Unit
roll env now full =
    if full
    then (do
      base_offset ← on_active (gets (λ s. Read.next_offset s))
      open_new (sub env 1) now base_offset
      limited ←
          gets (λ p. not (eqb_ℤ p.segment_ttl (pos 0)) || not (eqb_ℤ p.max_partition_size (pos 0)))
      if limited then clean_silently (sub env 2) now else pure tt)
    else pure tt

unfoldable pub write : Env → ℤ → List ℕ → Exec Partition ℤ
unfolding roll
write env now payload = do
  open_still ← gets (λ p. not p.cancel)
  guard open_still partition_error
  full ← on_active (gets (λ s. Read.is_full s))
  roll (sub env 1) now full
  offset ← on_active (Write.write (sub env 2) now payload)
  modify
      (λ p. record p { physical_size = p.physical_size +ℤ pos (length payload) +ℤ pos header_size })
  pure offset
