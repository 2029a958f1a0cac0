-- ===== src/Tools/Orders.antt =====
-- The order of the messages that the lines of a producer leave.
use mykafka.Prelude.{
  ℕ, suc, ◌+◌, ◌≤◌, ◌≡◌, sym, subst, inl, inr, List, [], ◌∷◌, ◌++◌, append_assoc, append-nil, arith,
  length,
}
use mykafka.Prelude.Int.{pos}
use mykafka.Segment.Layout.{Payload}
use mykafka.Network.Late.{In, AllIn}
use mykafka.Tools.Within.{AllWithin}
use mykafka.Tools.Lines.{Line, written_line}

-- The messages behind `n` others that the sending of lines leaves, when those of `seen` were sent
-- before, and what is told: of each line in its order one copy, the offset of which is told, and
-- other copies of lines, none in front of the line's turn.
pub data Sent : List Payload → ℕ → List Payload → List Payload → List Line → Type 0 where
  all_sent : {seen : List Payload} {n : ℕ} → Sent seen n [] [] []
  again :
      {seen input messages : List Payload} {n : ℕ} {lines : List Line} (x : Payload)
      → In x seen
      → Sent seen (suc n) input messages lines
      → Sent seen n input (x ∷ messages) lines
  early :
      {seen input messages : List Payload} {n : ℕ} {lines : List Line} (x : Payload)
      → Sent seen (suc n) (x ∷ input) messages lines
      → Sent seen n (x ∷ input) (x ∷ messages) lines
  told :
      {seen input messages : List Payload} {n : ℕ} {lines : List Line} (x : Payload)
      → Sent (x ∷ seen) (suc n) input messages lines
      → Sent seen n (x ∷ input) (x ∷ messages) (written_line (pos n) ∷ lines)

-- What was sent in the end.
abbrev pub all_of : List Payload → List Payload → List Payload
all_of [] seen = seen
all_of (x ∷ input) seen = all_of input (x ∷ seen)

pub Sent-at :
    {seen input messages : List Payload} {m n : ℕ} {lines : List Line}
    → m ≡ n
    → Sent seen m input messages lines
    → Sent seen n input messages lines
Sent-at {seen} {input} {messages} {m} {n} {lines} e h =
    subst (λ k. Sent seen k input messages lines) e h

Sent-behind :
    (behind : List Payload) {seen input messages : List Payload} (n : ℕ) {lines : List Line}
    → AllIn seen behind
    → Sent seen (n + length behind) input messages lines
    → Sent seen n input (behind ++ messages) lines
Sent-behind [] n known h = Sent-at (omega arith) h
Sent-behind (x ∷ behind) n (this, known) h =
    again x this (Sent-behind behind (suc n) known (Sent-at (omega arith) h))

Sent-before :
    (before : List Payload) {seen input messages : List Payload} (x : Payload) (n : ℕ)
    {lines : List Line}
    → AllIn (x ∷ seen) before
    → Sent seen (n + length before) (x ∷ input) messages lines
    → Sent seen n (x ∷ input) (before ++ messages) lines
Sent-before [] x n known h = Sent-at (omega arith) h
Sent-before (y ∷ before) {seen} {input} {messages} x n {lines} (inl same, known) h =
    subst (λ z. Sent seen n (x ∷ input) (z ∷ (before ++ messages)) lines) (sym same)
      (early x (Sent-before before x (suc n) known (Sent-at (omega arith) h)))
Sent-before (y ∷ before) x n (inr this, known) h =
    again y this (Sent-before before x (suc n) known (Sent-at (omega arith) h))

-- A line, with copies in front of the one that is told, and behind it.
pub Sent-copies :
    (before behind : List Payload) {seen input messages : List Payload} (n : ℕ) {lines : List Line}
    (x : Payload)
    → AllIn (x ∷ seen) before
    → AllIn (x ∷ seen) behind
    → Sent (x ∷ seen) (n + length before + suc (length behind)) input messages lines
    → Sent seen n
        (x ∷ input)
        ((before ++ x ∷ behind) ++ messages)
        (written_line (pos (n + length before)) ∷ lines)
Sent-copies before behind {seen} {input} {messages} n {lines} x first later h =
    subst (λ l. Sent seen n (x ∷ input) l (written_line (pos (n + length before)) ∷ lines))
      (sym (append_assoc before (x ∷ behind) messages))
      (Sent-before before x n first
        (told x (Sent-behind behind (suc (n + length before)) later (Sent-at (omega arith) h))))

-- Late copies behind all.
pub Sent-end :
    {seen input messages : List Payload} {n : ℕ} {lines : List Line} (more : List Payload)
    → Sent seen n input messages lines
    → AllIn (all_of input seen) more
    → Sent seen n input (messages ++ more) lines
Sent-end {seen} {n = n} more all_sent known =
    subst (λ l. Sent seen n [] l []) (append-nil more) (Sent-behind more n known all_sent)
Sent-end more (again x this h) known = again x this (Sent-end more h known)
Sent-end more (early x h) known = early x (Sent-end more h known)
Sent-end more (told x h) known = told x (Sent-end more h known)

AllWithin-In :
    (limit : ℕ) (xs : List Payload) (x : Payload) → AllWithin limit xs → In x xs → length x ≤ limit
AllWithin-In limit [] x all h = absurd h
AllWithin-In limit (y ∷ ys) x (this, all) (inl e) = subst (λ z. length z ≤ limit) (sym e) this
AllWithin-In limit (y ∷ ys) x (this, all) (inr h) = AllWithin-In limit ys x all h

pub Sent-AllWithin :
    {seen input messages : List Payload} {n : ℕ} {lines : List Line} (limit : ℕ)
    → Sent seen n input messages lines
    → AllWithin limit seen
    → AllWithin limit input
    → AllWithin limit messages
Sent-AllWithin limit all_sent hs hi = tt
Sent-AllWithin {seen} limit (again x this h) hs hi =
    (AllWithin-In limit seen x hs this, Sent-AllWithin limit h hs hi)
Sent-AllWithin limit (early x h) hs hi = (hi.0, Sent-AllWithin limit h hs hi)
Sent-AllWithin limit (told x h) hs hi = (hi.0, Sent-AllWithin limit h (hi.0, hs) hi.1)
