-- ===== src/Partition/Reads.antt =====
-- Partition::readAt against the messages of the chunks.
use mykafka.Prelude.{
  ℕ, ◌-◌, ◌≤◌, ◌≡◌, refl, subst, sym, ap, ◌∙◌, inl, inr, true, false, Option, none, some, List, [],
  ◌∷◌, arith, get_elem?, get_elem?-some, Option-cases,
}
use mykafka.Prelude.Int.{ℤ, pos, ◌-ℤ◌, negsuc}
use mykafka.Error.{Outcome, ok, err, log_error, partition_error}
use mykafka.Env.{calm}
use mykafka.Segment.State.{Segment}
use mykafka.Segment.Layout.{Payload}
use mykafka.Segment.Read
use mykafka.Segment.Reads.{read_at-message, read_at-missing}
use mykafka.Partition.State.{Partition}
use mykafka.Partition.Read.{read_found, read_at}
use mykafka.Partition.Chunks.{
  Chunk, HoldsChunk, AllHold, Ascending, home, at_home, message_at, scan-eq-at_home,
}
use mykafka.Partition.Lookup.{Found, find_segment-home}

-- An open partition, with an active segment, holds chunks.
pub record HoldsAll (cs : List Chunk) (p : Partition) : Type 0 where
  pub open_still : p.cancel ≡ false
  pub active : p.active ≡ true
  pub all : AllHold cs p.segments
  pub ascending : Ascending cs

-- What reading hands over, for the chunk that should have the offset and the message there.
abbrev pub answer_of : Payload → Option Chunk → Option Payload → Outcome (Unit {0}) × Payload
answer_of payload h (some m) = (ok tt, m)
answer_of payload none none = (err partition_error, payload)
answer_of payload (some c) none = (err log_error, payload)

-- The answer that the chunks specify.
abbrev pub answer : List Chunk → Payload → ℤ → Outcome (Unit {0}) × Payload
answer cs payload target = answer_of payload (home cs target) (message_at cs target)

home-le : (cs : List Chunk) (o : ℕ) (c : Chunk) → home cs (pos o) ≡ some c → c.base ≤ o
unfolding home
home-le [] o c e = absurd (ground arith)
home-le (d ∷ cs) o c e = elim (Option-cases (home cs (pos o))) [
  | inl last ↦ ground (arith, last)
  | inr (x, later) ↦ ground (arith, later, home-le cs o x later)
]

read_segment :
    (payload : Payload) (o : ℕ) (c : Chunk) (s : Segment)
    → HoldsChunk c s
    → c.base ≤ o
    → Read.read_at calm s payload (pos o -ℤ Read.base_offset s)
      ≡ answer_of payload (some c) (at_home (some c) o)
read_segment payload o c s h le =
    ap (Read.read_at calm s payload) {x = pos o -ℤ Read.base_offset s} {y = pos (o - c.base)}
      (ground (arith, h.holds.indexed.based))
    ∙ elim (Option-cases (get_elem? c.messages (o - c.base))) [
      | inl missing ↦ rw missing (
          read_at-missing payload (pos (o - c.base)) h.holds (λ m lt same.
            let (q, here) = get_elem?-some c.messages m lt in
            ground (
              arith,
              subst (λ k. get_elem? c.messages k ≡ some q) {x = m} {y = o - c.base}
                  (ground (arith, same)) here,
              missing,
            )))
      | inr (m, here) ↦ rw here (read_at-message payload m (o - c.base) h.holds h.fits here)
    ]

home_negative : (cs : List Chunk) (n : ℕ) → home cs (negsuc n) ≡ none
unfolding home
home_negative [] n = refl
home_negative (c ∷ cs) n = refl

-- The answer of what the search found.
read_found-answer :
    (payload : Payload) (o : ℕ) (h : Option Chunk) (found : Option Segment)
    → Found h found
    → ((c : Chunk) → h ≡ some c → c.base ≤ o)
    → read_found calm payload (pos o) (ok found) ≡ answer_of payload h (at_home h o)
unfolding read_found
read_found-answer payload o none none f le = refl
read_found-answer payload o none (some s) f le = absurd f
read_found-answer payload o (some c) none f le = absurd f
read_found-answer payload o (some c) (some s) f le = read_segment payload o c s f (le c refl)

-- The answer to an offset below zero.
negative-answer :
    (payload : Payload) (n : ℕ) (h : Option Chunk) (found : Option Segment)
    → Found h found
    → h ≡ none
    → read_found calm payload (negsuc n) (ok found) ≡ answer_of payload h none
unfolding read_found
negative-answer payload n none none f e = refl
negative-answer payload n none (some s) f e = absurd f
negative-answer payload n (some c) found f e = absurd (ground (arith, e))

-- When no call fails, reading an open partition whose segments hold ascending chunks of messages
-- gives, at every integer offset, the answer that the list of chunks specifies: the message with
-- this offset if there is one, else PARTITION_ERROR if the offset lies before the first chunk and
-- LOG_ERROR if it does not, with the payload of the caller as it was.
pub read_at-answer :
    (cs : List Chunk) (p : Partition) (payload : Payload) (target : ℤ)
    → HoldsAll cs p
    → read_at calm p payload target ≡ answer cs payload target
unfolding read_at message_at
read_at-answer cs p payload (pos o) h =
    let (found, e, f) = find_segment-home cs p.segments (pos o) h.ascending h.all in
    rw (h.open_still, e)
      (read_found-answer payload o (home cs (pos o)) found f (home-le cs o)
        ∙ ap (answer_of payload (home cs (pos o))) (sym (scan-eq-at_home cs o h.ascending)))
read_at-answer cs p payload (negsuc n) h =
    let (found, e, f) = find_segment-home cs p.segments (negsuc n) h.ascending h.all in
    rw (h.open_still, e)
      (negative-answer payload n (home cs (negsuc n)) found f (home_negative cs n))
