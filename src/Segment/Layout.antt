-- ===== src/Segment/Layout.antt =====
-- A segment as a list of messages: the bytes of its log and the entries of its index.
use mykafka.Prelude.{
  ℕ, zero, suc, ◌+◌, ◌≤◌, ◌≡◌, refl, ap, ap₂, ◌∙◌, false, List, [], ◌∷◌, ◌++◌, append_assoc,
  append-nil, arith, length, length-append, some, get_elem?, get_elem?-append_last, subst,
}
use mykafka.Prelude.Int.{ℤ, pos}
use mykafka.Prelude.Bytes.{
  length-int64_bytes, length-int32_bytes, int64_bytes, int32_bytes, le_bytes,
}
use mykafka.Index.Entries.{Entry}
use mykafka.Segment.State.{header_size, is_empty}
use mykafka.Segment.Write.{header}

abbrev pub Payload : Type 0
Payload = List ℕ

-- The log of the messages `ps`, the first of which has offset `o`.
abbrev pub layout : ℕ → List Payload → List ℕ
layout o [] = []
layout o (p ∷ ps) = header (pos o) (pos (length p)) ++ (p ++ layout (o + 1) ps)

-- How many bytes the messages take.
abbrev pub total : List Payload → ℕ
total [] = 0
total (p ∷ ps) = header_size + length p + total ps

-- Their index entries, the first of which has relative offset `r` and stands at `q` in the log.
abbrev pub entries : ℕ → ℕ → List Payload → List Entry
entries r q [] = []
entries r q (p ∷ ps) = (r, q) ∷ entries (r + 1) (q + (header_size + length p)) ps

pub length-header : (o n : ℤ) → length (header o n) ≡ 12
unfolding header
length-header o n = omega (
  arith,
  length-append (int64_bytes o) (int32_bytes n),
  length-int64_bytes o,
  length-int32_bytes n,
)

pub layout-append :
    (o : ℕ) (ps : List Payload) (p : Payload)
    → layout o (ps ++ p ∷ []) ≡ (layout o ps ++ header (pos (o + length ps)) (pos (length p))) ++ p
layout-append o [] p = rw append-nil (ap (λ k. header (pos k) (pos (length p)) ++ p) (omega arith))
layout-append o (x ∷ ps) p =
    ap (λ l. header (pos o) (pos (length x)) ++ (x ++ l))
      (layout-append (o + 1) ps p
        ∙ ap (λ k. (layout (o + 1) ps ++ header (pos k) (pos (length p))) ++ p)
            {x = o + 1 + length ps} {y = o + length (x ∷ ps)} (omega arith))
    ∙ simp append_assoc

pub length-layout : (o : ℕ) (ps : List Payload) → length (layout o ps) ≡ total ps
length-layout o [] = refl
length-layout o (p ∷ ps) = omega (
  arith,
  length-append (header (pos o) (pos (length p))) (p ++ layout (o + 1) ps),
  length-append p (layout (o + 1) ps),
  length-header (pos o) (pos (length p)),
  length-layout (o + 1) ps,
)

pub total-append :
    (ps : List Payload) (p : Payload) → total (ps ++ p ∷ []) ≡ total ps + (12 + length p)
total-append [] p = omega arith
total-append (x ∷ ps) p = omega (arith, total-append ps p)

pub length-entries : (r q : ℕ) (ps : List Payload) → length (entries r q ps) ≡ length ps
length-entries r q [] = refl
length-entries r q (p ∷ ps) = ap suc (length-entries (r + 1) (q + (header_size + length p)) ps)

entries-append :
    (r q : ℕ) (ps : List Payload) (p : Payload)
    → entries r q (ps ++ p ∷ []) ≡ entries r q ps ++ (r + length ps, q + total ps) ∷ []
entries-append r q [] p = ap₂ (λ a b. (a, b) ∷ []) (omega arith) (omega arith)
entries-append r q (x ∷ ps) p =
    ap (λ l. (r, q) ∷ l)
      (entries-append (r + 1) (q + (12 + length x)) ps p
        ∙ ap₂ (λ a b. entries (r + 1) (q + (12 + length x)) ps ++ (a, b) ∷ []) (omega arith)
            (omega arith))

pub is_empty-header : (o n : ℤ) → is_empty (header o n) ≡ false
unfolding header int64_bytes le_bytes
is_empty-header o n = refl

pub length-le-total_of :
    (ps : List Payload) (i : ℕ) (p : Payload) → get_elem? ps i ≡ some p → length p ≤ total ps
length-le-total_of [] i p h = cc
length-le-total_of (x ∷ ps) zero p h =
    let same : x ≡ p = ground arith in omega (arith, ap length same)
length-le-total_of (x ∷ ps) (suc i) p h = omega (arith, length-le-total_of ps i p h)

pub is_empty-int64_bytes : (o : ℤ) → is_empty (int64_bytes o) ≡ false
unfolding int64_bytes le_bytes
is_empty-int64_bytes o = refl

pub is_empty-int32_bytes : (n : ℤ) → is_empty (int32_bytes n) ≡ false
unfolding int32_bytes le_bytes
is_empty-int32_bytes n = refl

pub total-le : (ps qs : List Payload) → total ps ≤ total (ps ++ qs)
total-le [] qs = omega arith
total-le (p ∷ ps) qs = omega (arith, total-le ps qs)

pub entries-append_first :
    (ps : List Payload) (p : Payload)
    → entries 0 0 (ps ++ p ∷ []) ≡ entries 0 0 ps ++ (length ps, total ps) ∷ []
entries-append_first ps p =
    entries-append 0 0 ps p
    ∙ ap₂ (λ a b. entries 0 0 ps ++ (a, b) ∷ []) {x = 0 + length ps} {y = length ps}
        {u = 0 + total ps} {v = total ps} (omega arith) (omega arith)

-- The entry of a message that is appended.
pub entries-last :
    (ps : List Payload) (p : Payload)
    → get_elem? (entries 0 0 (ps ++ p ∷ [])) (length ps) ≡ some (length ps, total ps)
entries-last ps p = rw (entries-append_first ps p) (
    subst
      (λ n. get_elem? (entries 0 0 ps ++ (length ps, total ps) ∷ []) n ≡ some (length ps, total ps))
      (length-entries 0 0 ps) (get_elem?-append_last (entries 0 0 ps) (length ps, total ps) []))
