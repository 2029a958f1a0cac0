-- ===== src/Partition/Clean.antt =====
-- Partition::cleanOldSegments of commitlog/Partition.cc.
use mykafka.Prelude.{Bool, not, ◌&&◌, ◌||◌, List, [], ◌∷◌, if◌then◌else◌}
use mykafka.Prelude.Int.{ℤ, pos, ◌-ℤ◌, ltb_ℤ, eqb_ℤ}
use mykafka.Error.{Outcome, ok, Exec}
use mykafka.Env.{Env, sub}
use mykafka.Segment.State.{Segment}
use mykafka.Segment.Read
use mykafka.Segment.Close.{delete_segment}
use mykafka.Partition.State.{Partition, put_back}

-- Is a segment that is not the active one to be deleted?
unfoldable pub is_doomed : ℤ → Partition → Segment → Bool
is_doomed now p s =
    let too_old = not (eqb_ℤ p.segment_ttl (pos 0)) && ltb_ℤ p.segment_ttl (now -ℤ s.mtime) in
    let partition_too_large =
      not (eqb_ℤ p.max_partition_size (pos 0)) && ltb_ℤ p.max_partition_size p.physical_size in
    too_old || partition_too_large

-- The answer of the whole call: the last error, if there is one.
unfoldable pub later : Outcome (Unit {0}) → Outcome (Unit {0}) → Outcome (Unit {0})
later first (ok _) = first
later first r = r

-- What becomes of a segment: it is deleted, it stays behind with an error, or it is kept.
pub data Fate : Type 0 where
  deleted : Segment → Fate
  stuck : Outcome (Unit {0}) → Segment → Fate
  spared : Fate

unfoldable pub fate_of : Outcome (Unit {0}) × Segment → Fate
fate_of (ok _, s) = deleted s
fate_of (r, s) = stuck r s

unfoldable pub fate : Env → ℤ → Partition → Segment → Fate
unfolding is_doomed fate_of
fate env now p s = if is_doomed now p s then fate_of (delete_segment (sub env 1) s) else spared

-- What std::remove_if and erase leave of the segments; the last one is the active one.
unfoldable pub clean_loop :
    Env → ℤ → Partition → List Segment → Outcome (Unit {0}) × Partition × List Segment
unfolding fate later
clean_loop env now p [] = (ok tt, p, [])
clean_loop env now p (s ∷ []) = (ok tt, p, s ∷ [])
clean_loop env now p (s ∷ (t ∷ rest)) = elim (fate env now p s) [
  | deleted s' ↦
      clean_loop (sub env 2) now
        (record p { physical_size = p.physical_size -ℤ Read.size s; dir = put_back s' p.dir })
        (t ∷ rest)
  | stuck r s' ↦
      let (r', p', kept) = clean_loop (sub env 2) now p (t ∷ rest) in (later r r', p', s' ∷ kept)
  | spared ↦ let (r', p', kept) = clean_loop (sub env 2) now p (t ∷ rest) in (r', p', s ∷ kept)
]

unfoldable pub clean_old_segments : Env → ℤ → Exec Partition Unit
clean_old_segments env now p =
    let (r, p', kept) = clean_loop env now p p.segments in (r, record p' { segments = kept })
