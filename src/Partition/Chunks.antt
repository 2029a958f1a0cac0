-- ===== src/Partition/Chunks.antt =====
-- A partition as a list of chunks of messages, one for each segment.
use mykafka.Prelude.{
  ℕ, ◌+◌, ◌-◌, ◌≤◌, ◌<◌, ◌≡◌, refl, ◌&&◌, Option, none, some, List, [], ◌∷◌, arith, ltb, leb,
  if◌then◌else◌, length, get_elem?, get_elem?-ge,
}
use mykafka.Prelude.Int.{ℤ, pos, negsuc, ltb_ℤ}
use mykafka.Index.Opening.{default_entries}
use mykafka.Segment.State.{Segment}
use mykafka.Segment.Layout.{Payload}
use mykafka.Segment.Holds.{Holds, Fits}

-- The offset of the first message, and the messages.
pub record Chunk : Type 0 where
  pub base : ℕ
  pub messages : List Payload

abbrev pub next_base : Chunk → ℕ
next_base c = c.base + length c.messages

-- A segment holds the messages of a chunk, and they fit.
pub record HoldsChunk (c : Chunk) (s : Segment) : Type 0 where
  pub holds : Holds c.base default_entries c.messages s
  pub fits : Fits c.base default_entries c.messages

abbrev pub AllHold : List Chunk → List Segment → Type 0
AllHold [] [] = Unit {0}
AllHold [] (s ∷ ss) = ⊥
AllHold (c ∷ cs) [] = ⊥
AllHold (c ∷ cs) (s ∷ ss) = HoldsChunk c s × AllHold cs ss

-- The chunks follow one another: each starts behind the start and behind the end of the one before.
abbrev pub Ascending : List Chunk → Type 0
Ascending [] = Unit {0}
Ascending (c ∷ []) = Unit {0}
Ascending (c ∷ (d ∷ cs)) = (c.base < d.base) × (next_base c ≤ d.base) × Ascending (d ∷ cs)

-- The specification of reading: the message with an offset, if a chunk has it.
unfoldable pub scan : List Chunk → ℕ → Option Payload
scan [] o = none
scan (c ∷ cs) o =
    if leb c.base o && ltb o (next_base c) then get_elem? c.messages (o - c.base) else scan cs o

unfoldable pub message_at : List Chunk → ℤ → Option Payload
unfolding scan
message_at cs (pos o) = scan cs o
message_at cs (negsuc _) = none

-- The last chunk that does not start behind an offset.
unfoldable pub home : List Chunk → ℤ → Option Chunk
home [] o = none
home (c ∷ cs) o =
    let rest = elim (home cs o) as (λ _. Option Chunk) [ none ↦ some c | some d ↦ some d ] in
    if ltb_ℤ o (pos c.base) then none else rest

abbrev pub at_home : Option Chunk → ℕ → Option Payload
at_home none o = none
at_home (some c) o = get_elem? c.messages (o - c.base)

-- Every chunk behind the first starts behind it.
pub Ascending-tail : (c : Chunk) (cs : List Chunk) → Ascending (c ∷ cs) → Ascending cs
Ascending-tail c [] up = tt
Ascending-tail c (d ∷ cs) (a, b, up) = up

pub scan-before :
    (c : Chunk) (cs : List Chunk) (o : ℕ) → Ascending (c ∷ cs) → o < c.base → scan (c ∷ cs) o ≡ none
unfolding scan
scan-before c [] o up lt = ground arith
scan-before c (d ∷ cs) o (a, b, up) lt = ground (arith, scan-before d cs o up)

home-before : (c : Chunk) (cs : List Chunk) (o : ℕ) → o < c.base → home (c ∷ cs) (pos o) ≡ none
unfolding home
home-before c cs o lt = ground arith

-- In ascending chunks a message is at home, or nowhere.
pub scan-eq-at_home :
    (cs : List Chunk) (o : ℕ) → Ascending cs → scan cs o ≡ at_home (home cs (pos o)) o
unfolding scan home
scan-eq-at_home [] o up = refl
scan-eq-at_home (c ∷ []) o up = ground (arith, get_elem?-ge c.messages (o - c.base))
scan-eq-at_home (c ∷ (d ∷ cs)) o (a, b, up) = ground (
  arith,
  get_elem?-ge c.messages (o - c.base),
  scan-eq-at_home (d ∷ cs) o up,
  scan-before d cs o up,
  home-before d cs o,
)
