-- ===== src/Partition/Cleaning.antt =====
-- What cleanOldSegments leaves of the messages of a partition.
use mykafka.Prelude.{
  ◌≡◌, refl, sym, ap, subst, ◌⊎◌, inl, inr, true, false, Option, none, some, List, [], ◌∷◌, length,
  arith,
}
use mykafka.Prelude.Int.{ℤ, pos, negsuc, ◌+ℤ◌, leb_ℤ}
use mykafka.Error.{Outcome, ErrCode, ok, err, partition_error, log_error}
use mykafka.Env.{calm}
use mykafka.Segment.State.{Segment}
use mykafka.Segment.Layout.{Payload}
use mykafka.Partition.State.{Partition}
use mykafka.Partition.Read.{read_at}
use mykafka.Partition.Clean.{clean_loop, clean_old_segments}
use mykafka.Partition.Chunks.{Chunk, AllHold, Ascending, message_at, home}
use mykafka.Partition.Reads.{HoldsAll, answer, answer_of, read_at-answer}
use mykafka.Partition.Thinned.{Thinned, Thinned-Ascending, Thinned-scan}
use mykafka.Partition.Deletes.{
  too_old, too_large, Deletes, active, keep, delete, left_chunks, resized, segments-Runs,
}

-- No more bytes are left than there were.
Deletes-le :
    {now ttl limit left bytes : ℤ} {segments rest : List Segment}
    → Deletes now ttl limit left bytes segments rest
    → (cs : List Chunk) → AllHold cs segments
    → leb_ℤ (pos 0) bytes ≡ true
Deletes-le (active s) cs all = refl
Deletes-le (keep s young small d) [] all = absurd all
Deletes-le (keep s young small d) (c ∷ cs) (h, all) = Deletes-le d cs all
Deletes-le (delete s why d) [] all = absurd all
Deletes-le (delete s why d) (c ∷ cs) (h, all) =
    ground (arith, Deletes-le d cs all, h.holds.physical)

-- All segments but the last are young enough.
abbrev pub AllYoung : ℤ → ℤ → List Segment → Type 0
AllYoung now ttl [] = Unit {0}
AllYoung now ttl (s ∷ []) = Unit {0}
AllYoung now ttl (s ∷ (t ∷ rest)) = (too_old now ttl s ≡ false) × AllYoung now ttl (t ∷ rest)

AllYoung-cons :
    (now ttl : ℤ) (s : Segment) (rest : List Segment)
    → too_old now ttl s ≡ false
    → AllYoung now ttl rest
    → AllYoung now ttl (s ∷ rest)
AllYoung-cons now ttl s [] young all = tt
AllYoung-cons now ttl s (t ∷ rest) young all = (young, all)

Deletes-AllYoung :
    {now ttl limit left bytes : ℤ} {segments rest : List Segment}
    → Deletes now ttl limit left bytes segments rest
    → AllYoung now ttl rest
Deletes-AllYoung (active s) = tt
Deletes-AllYoung {now} {ttl} (keep {rest = rest} s young small d) =
    AllYoung-cons now ttl s rest young (Deletes-AllYoung d)
Deletes-AllYoung (delete s why d) = Deletes-AllYoung d

not_larger :
    (limit left bytes : ℤ)
    → leb_ℤ (pos 0) bytes ≡ true
    → too_large limit (left +ℤ bytes) ≡ false
    → too_large limit left ≡ false
not_larger limit left bytes le small = ground (arith, le, small)

-- The partition is small enough, or the last segment alone is left.
Deletes-small :
    {now ttl limit left bytes : ℤ} {segments rest : List Segment}
    → Deletes now ttl limit left bytes segments rest
    → (cs : List Chunk) → AllHold cs segments
    → (too_large limit left ≡ false) ⊎ (length rest ≡ 1)
Deletes-small (active s) cs all = inr refl
Deletes-small (keep s young small d) [] all = absurd all
Deletes-small {limit = limit} {left = left} (keep {bytes = bytes} s young small d) (c ∷ cs)
      (h, all) =
    inl (not_larger limit left bytes (Deletes-le d cs all) small)
Deletes-small (delete s why d) [] all = absurd all
Deletes-small (delete s why d) (c ∷ cs) (h, all) = Deletes-small d cs all

clean_old_segments-run :
    (now : ℤ) (p p' : Partition) (r : Outcome (Unit {0})) (rest : List Segment)
    → clean_loop calm now p p.segments ≡ (r, p', rest)
    → clean_old_segments calm now p ≡ (r, record p' { segments = rest })
unfolding clean_old_segments
clean_old_segments-run now p p' r rest e = ap (λ x. (x.0, record x.1 { segments = x.2 })) e

-- A read behind the cleaning hands over the message that it did before, or fails.
abbrev Kept : Outcome (Unit {0}) × Payload → Outcome (Unit {0}) × Payload → Payload → Type 0
Kept new old buffer = (new ≡ old) ⊎ ((code : ErrCode) × (new ≡ (err code, buffer)))

answers-Kept :
    (buffer : Payload) (h h' : Option Chunk) (m m' : Option Payload)
    → ((x : Payload) → m' ≡ some x → m ≡ some x)
    → Kept (answer_of buffer h' m') (answer_of buffer h m) buffer
answers-Kept buffer h none m none back = inr (partition_error, refl)
answers-Kept buffer h (some c) m none back = inr (log_error, refl)
answers-Kept buffer h none m (some x) back = inl (ap (answer_of buffer h) (sym (back x refl)))
answers-Kept buffer h (some c) m (some x) back = inl (ap (answer_of buffer h) (sym (back x refl)))

Thinned-message_at :
    (cs ds : List Chunk) (target : ℤ) (m : Payload)
    → Thinned cs ds
    → Ascending cs
    → message_at ds target ≡ some m
    → message_at cs target ≡ some m
unfolding message_at
Thinned-message_at cs ds (pos o) m t up here = Thinned-scan cs ds o m t up here
Thinned-message_at cs ds (negsuc o) m t up here = here

-- What cleaning makes of a partition.
pub record Cleaned (now : ℤ) (p p' : Partition) : Type 0 where
  pub bytes : ℤ
  pub deletes :
      Deletes now p.segment_ttl p.max_partition_size p'.physical_size bytes p.segments p'.segments
  pub sum : p.physical_size ≡ p'.physical_size +ℤ bytes
  pub young : AllYoung now p.segment_ttl p'.segments
  pub small : (too_large p.max_partition_size p'.physical_size ≡ false) ⊎ (length p'.segments ≡ 1)
  pub reads :
      (buffer : Payload) (target : ℤ)
      → (read_at calm p' buffer target ≡ read_at calm p buffer target)
        ⊎ ((code : ErrCode) × (read_at calm p' buffer target ≡ (err code, buffer)))

-- When no call fails, cleanOldSegments on an open partition whose segments hold at least one
-- chunk of messages, in ascending order, succeeds: the last segment stays, and another one is
-- deleted exactly if it is older than the time to live or if the bytes of it, of those deleted
-- behind it and of what is left in the end exceed the limit of the size (0 is no limit); the size
-- falls by the bytes of those deleted and is then within the limit unless the last segment alone
-- is left; what is left holds the chunks that are left, in ascending order, and each read hands
-- over what it did before, or fails with an error and the payload of the caller.
pub clean-Cleaned :
    (now : ℤ) (c : Chunk) (cs : List Chunk) (p : Partition)
    → HoldsAll (c ∷ cs) p
    → (ds : List Chunk) × (p' : Partition) × (clean_old_segments calm now p ≡ (ok tt, p'))
      × HoldsAll ds p'
      × Cleaned now p p'
clean-Cleaned now c cs p h =
    let (left, bytes, dir, rest, run, d, sum) = segments-Runs now c cs p.segments p h.all in
    let (ds, all, t) = left_chunks d (c ∷ cs) h.all in
    let p' : Partition = record (resized p left dir) { segments = rest } in
    let h' : HoldsAll ds p' = record {
      open_still = h.open_still;
      active = h.active;
      all = all;
      ascending = Thinned-Ascending (c ∷ cs) ds t h.ascending;
    } in
    (
      ds,
      p',
      clean_old_segments-run now p (resized p left dir) (ok tt) rest run,
      h',
      record {
        bytes = bytes;
        deletes = d;
        sum = sum;
        young = Deletes-AllYoung d;
        small = Deletes-small d (c ∷ cs) h.all;
        reads = λ buffer target.
            subst (λ r. Kept r (read_at calm p buffer target) buffer)
              (sym (read_at-answer ds p' buffer target h'))
              (subst (λ r. Kept (answer ds buffer target) r buffer)
                (sym (read_at-answer (c ∷ cs) p buffer target h))
                (answers-Kept buffer (home (c ∷ cs) target) (home ds target)
                  (message_at (c ∷ cs) target) (message_at ds target)
                  (λ m here. Thinned-message_at (c ∷ cs) ds target m t h.ascending here)));
      },
    )
