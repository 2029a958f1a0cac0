-- ===== src/Partition/History.antt =====
-- Reading a partition behind a write: the new message is there, and all else reads as before.
use mykafka.Prelude.{
  ℕ, zero, suc, ◌-◌, ◌≤◌, ◌≡◌, refl, sym, ap, ◌∙◌, inl, inr, Option, none, some, List, [], ◌∷◌,
  ◌++◌, arith, length, length-append, get_elem?, Bool-cases, Option-cases, ◌==◌, if◌then◌else◌,
}
use mykafka.Prelude.Int.{ℤ, pos, negsuc, ltb_ℤ, eqb_ℤ}
use mykafka.Error.{Outcome, ok}
use mykafka.Segment.Layout.{Payload}
use mykafka.Partition.Chunks.{Chunk, next_base, Ascending, home, scan, message_at}
use mykafka.Partition.Reads.{answer, answer_of}
use mykafka.Partition.Writes.{extended, following}

abbrev EndBefore : List Chunk → ℕ → Type 0
EndBefore [] n = Unit {0}
EndBefore (c ∷ cs) n = (next_base c ≤ n) × EndBefore cs n

first-le :
    (b : Chunk) (cs : List Chunk) (c : Chunk) → Ascending (b ∷ (cs ++ c ∷ [])) → b.base ≤ c.base
first-le b [] c (l, n, up) = omega arith
first-le b (d ∷ cs) c (l, n, up) = omega (arith, first-le d cs c up)

ends_before : (cs : List Chunk) (c : Chunk) → Ascending (cs ++ c ∷ []) → EndBefore cs c.base
ends_before [] c up = tt
ends_before (b ∷ []) c (l, n, up) = (n, tt)
ends_before (a ∷ (b ∷ cs)) c (l, n, up) =
    (omega (arith, first-le b cs c up), ends_before (b ∷ cs) c up)

ends_later : (cs : List Chunk) (n k : ℕ) → n ≤ k → EndBefore cs n → EndBefore cs k
ends_later [] n k le ends = tt
ends_later (c ∷ cs) n k le (l, ends) = (omega arith, ends_later cs n k le ends)

-- A list of chunks that reads as another one but for one offset.
scan-append :
    (cs : List Chunk) (n : ℕ) (xs ys : List Chunk) (o : ℕ) (payload : Payload)
    → EndBefore cs n
    → scan xs o ≡ (if o == n then some payload else scan ys o)
    → scan (cs ++ xs) o ≡ (if o == n then some payload else scan (cs ++ ys) o)
unfolding scan
scan-append [] n xs ys o payload ends e = e
scan-append (c ∷ cs) n xs ys o payload (le, ends) e =
    ground (arith, scan-append cs n xs ys o payload ends e)

get_elem?-last :
    (ps : List Payload) (p : Payload) (i : ℕ)
    → get_elem? (ps ++ p ∷ []) i ≡ (if i == length ps then some p else get_elem? ps i)
get_elem?-last [] p zero = refl
get_elem?-last [] p (suc i) = ground arith
get_elem?-last (q ∷ ps) p zero = ground arith
get_elem?-last (q ∷ ps) p (suc i) = ground (arith, get_elem?-last ps p i)

pub scan-extended :
    (c : Chunk) (o : ℕ) (payload : Payload)
    → scan (extended c payload ∷ []) o
      ≡ (if o == next_base c then some payload else scan (c ∷ []) o)
unfolding scan
scan-extended c o payload =
    ground (
      arith,
      length-append c.messages (payload ∷ []),
      get_elem?-last c.messages payload (o - c.base),
    )

pub scan-following :
    (c : Chunk) (o : ℕ) (payload : Payload)
    → scan (c ∷ (following c payload ∷ [])) o
      ≡ (if o == next_base c then some payload else scan (c ∷ []) o)
unfolding scan
scan-following c o payload = ground (arith, get_elem?-last [] payload (o - next_base c))

-- One message more than before, at the offset `n`.
abbrev pub with_message : ℤ → ℕ → Payload → Option Payload → Option Payload
with_message target n payload old = if eqb_ℤ target (pos n) then some payload else old

message_at-append :
    (cs : List Chunk) (c : Chunk) (xs : List Chunk) (target : ℤ) (payload : Payload)
    → Ascending (cs ++ c ∷ [])
    → ((o : ℕ) → scan xs o ≡ (if o == next_base c then some payload else scan (c ∷ []) o))
    → message_at (cs ++ xs) target
      ≡ with_message target (next_base c) payload (message_at (cs ++ c ∷ []) target)
unfolding message_at
message_at-append cs c xs (pos o) payload up e = ground (
  arith,
  scan-append cs (next_base c) xs (c ∷ []) o payload
      (ends_later cs c.base (next_base c) (omega arith) (ends_before cs c up)) (e o),
)
message_at-append cs c xs (negsuc n) payload up e = refl

-- Whether an offset has a home depends on the start of the first chunk alone.
home-start :
    (buffer : Payload) (c : Chunk) (cs : List Chunk) (o : ℤ) (m : Option Payload)
    → answer_of buffer (home (c ∷ cs) o) m
      ≡ answer_of buffer (if ltb_ℤ o (pos c.base) then none else some c) m
unfolding home
home-start buffer c cs o none = elim (Option-cases (home cs o)) [
  | inl e ↦ ground (arith, e)
  | inr (d, e) ↦ ground (arith, e)
]
home-start buffer c cs o (some m) = refl

start-same :
    (buffer : Payload) (c d : Chunk) (a b o : ℤ)
    → a ≡ b
    → answer_of buffer (if ltb_ℤ o a then none else some c) none
      ≡ answer_of buffer (if ltb_ℤ o b then none else some d) none
start-same buffer c d a b o e = elim (Bool-cases (ltb_ℤ o b)) [
  | inl t ↦ rw (e, t) refl
  | inr f ↦ rw (e, f) refl
]

home-same :
    (buffer : Payload) (c d : Chunk) (xs ys : List Chunk) (o : ℤ) (m : Option Payload)
    → c.base ≡ d.base
    → answer_of buffer (home (c ∷ xs) o) m ≡ answer_of buffer (home (d ∷ ys) o) m
home-same buffer c d xs ys o (some m) e = refl
home-same buffer c d xs ys o none e =
    home-start buffer c xs o none
    ∙ start-same buffer c d (pos c.base) (pos d.base) o (ap pos e)
    ∙ sym (home-start buffer d ys o none)

-- What a reader is told behind a write of `payload` at `n`, by what it was told before.
abbrev pub answer_behind :
    ℕ → Payload → ℤ → Outcome (Unit {0}) × Payload → Outcome (Unit {0}) × Payload
answer_behind n payload target old = if eqb_ℤ target (pos n) then (ok tt, payload) else old

answer_of-with_message :
    (buffer : Payload) (h : Option Chunk) (target : ℤ) (n : ℕ) (payload : Payload)
    (old : Option Payload)
    → answer_of buffer h (with_message target n payload old)
      ≡ answer_behind n payload target (answer_of buffer h old)
answer_of-with_message buffer h target n payload old = elim (Bool-cases (eqb_ℤ target (pos n))) [
  | inl e ↦ rw e refl
  | inr e ↦ rw e refl
]

homes-same :
    (cs : List Chunk) (c x : Chunk) (xs : List Chunk) (buffer : Payload) (target : ℤ)
    → x.base ≡ c.base
    → (m : Option Payload)
    → answer_of buffer (home (cs ++ x ∷ xs) target) m
      ≡ answer_of buffer (home (cs ++ c ∷ []) target) m
homes-same [] c x xs buffer target same m = home-same buffer x c xs [] target m same
homes-same (b ∷ cs) c x xs buffer target same m =
    home-same buffer b b (cs ++ x ∷ xs) (cs ++ c ∷ []) target m refl

pub answer-append :
    (cs : List Chunk) (c x : Chunk) (xs : List Chunk) (buffer payload : Payload) (target : ℤ)
    → Ascending (cs ++ c ∷ [])
    → x.base ≡ c.base
    → ((o : ℕ) → scan (x ∷ xs) o ≡ (if o == next_base c then some payload else scan (c ∷ []) o))
    → answer (cs ++ x ∷ xs) buffer target
      ≡ answer_behind (next_base c) payload target (answer (cs ++ c ∷ []) buffer target)
answer-append cs c x xs buffer payload target up same e =
    homes-same cs c x xs buffer target same (message_at (cs ++ x ∷ xs) target)
    ∙ ap (answer_of buffer (home (cs ++ c ∷ []) target))
        (message_at-append cs c (x ∷ xs) target payload up e)
    ∙ answer_of-with_message buffer (home (cs ++ c ∷ []) target) target (next_base c) payload
        (message_at (cs ++ c ∷ []) target)
