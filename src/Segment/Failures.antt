-- ===== src/Segment/Failures.antt =====
-- What a failed Segment::write leaves behind.
use mykafka.Prelude.{
  ℕ, zero, suc, ◌+◌, ◌^◌, ◌≤◌, ◌<◌, ◌≡◌, refl, ap, ap₂, sym, ◌∙◌, subst, Bool, true, false,
  if◌then◌else◌, List, [], ◌∷◌, ◌++◌, append-nil, append_assoc, arith, length, length-append,
  length-take, take, take_all, take-append, take-append-drop, drop, drop-append,
}
use mykafka.Prelude.Int.{ℤ, pos, negsuc, to_int32}
use mykafka.Error.{ErrCode, ok, err, log_error}
use mykafka.Env.{Env, calm, written}
use mykafka.Index
use mykafka.Index.{Index, to_ℕ}
use mykafka.Index.Entries.{HasEntries, write-HasEntries}
use mykafka.Segment.State.{Segment}
use mykafka.Segment.Write.{write, header}
use mykafka.Segment.Read.{read_at}
use mykafka.Segment.Layout.{
  Payload, total, length-header, length-layout, length-entries, entries-append_first, entries-last,
  total-append, is_empty-header,
}
use mykafka.Segment.Holds
use mykafka.Segment.Holds.{Holds, Fits, write-written, length-le-total}
use mykafka.Segment.Reads.{find_entry-hit, read_entry-message}

abbrev is_second : List ℕ → Bool
is_second (suc (suc zero) ∷ []) = true
is_second _ = false

-- The variables of a segment that its callers see.
pub record SameCounters (s t : Segment) : Type 0 where
  pub next_offset : t.next_offset ≡ s.next_offset
  pub position : t.position ≡ s.position
  pub physical_size : t.physical_size ≡ s.physical_size
  pub index_position : t.index.position ≡ s.index.position

-- The log still begins with the bytes that it had.
abbrev pub IsGrown : Segment → Segment → Type 0
IsGrown s t = take (length s.log.content) t.log.content ≡ s.log.content

grown : (c a : List ℕ) → take (length c) (c ++ a) ≡ c
grown c a = take-append (length c) c a refl

grown_twice : (c a b : List ℕ) → take (length c) ((c ++ a) ++ b) ≡ c
grown_twice c a b = ap (take (length c)) (append_assoc c a b) ∙ grown c (a ++ b)

index_write-error : (o p : ℤ) (i j : Index) (c : ErrCode) → Index.write o p i ≡ (err c, j) → i ≡ j
unfolding Index.write
index_write-error o p i j c h = ground arith

write-error_counters :
    (env : Env) (now : ℤ) (p : Payload) (s t : Segment) (c : ErrCode)
    → write env now p s ≡ (err c, t)
    → SameCounters s t
unfolding write
write-error_counters env now p s t c h =
    ground (arith, index_write-error s.next_offset s.position s.index t.index c)

write-IsGrown : (env : Env) (now : ℤ) (p : Payload) (s : Segment) → IsGrown s (write env now p s).1
unfolding write
write-IsGrown env now p s =
    let c = s.log.content in
    let size = to_int32 (pos (length p)) in
    let a = written (env (1 ∷ [])) (header s.next_offset size) in
    let b = written (env (2 ∷ [])) (take (to_ℕ size) p) in
    ground (arith, take_all (length c) c, grown c a, grown_twice c a b)

-- A write that fails, for whatever reason, changes neither the next offset, the position and the
-- size of the segment nor the position of its index, and the log still begins with all the bytes
-- that it had.
pub write-error :
    (env : Env) (now : ℤ) (p : Payload) (s t : Segment) (c : ErrCode)
    → write env now p s ≡ (err c, t)
    → SameCounters s t × IsGrown s t
write-error env now p s t c h = (
  write-error_counters env now p s t c h,
  subst (IsGrown s) (ap (λ r. r.1) h) (write-IsGrown env now p s),
)

-- The second call of ::write fails before it writes a byte of the payload.
abbrev pub torn : Env
torn path = if is_second path then 1 else 0

-- The segment behind a torn write of `p`.
abbrev after_torn : ℕ → List Payload → Segment → ℤ → Payload → Segment
after_torn base ps s now p = record s {
  log = record s.log {
    content = (s.log.content ++ header (pos (base + length ps)) (pos (length p))) ++ [];
    modified = now;
  };
}

write-torn :
    {base cap : ℕ} {ps : List Payload} {s : Segment} (now : ℤ) (p : Payload)
    → Holds base cap ps s
    → length p < 2 ^ 31
    → write torn now p s ≡ (err log_error, after_torn base ps s now p)
unfolding write
write-torn {base} {cap} {ps} {s} now p h small = ground (
  arith,
  h.next,
  h.writable,
  take_all (length p) p,
  is_empty-header (pos (base + length ps)) (pos (length p)),
)

torn_bytes :
    (n : ℕ) (c hp hq q : List ℕ)
    → length c ≡ n
    → drop n ((((c ++ hp) ++ []) ++ hq) ++ q) ≡ hp ++ (hq ++ q)
torn_bytes n c hp hq q e =
    ap (drop n) {x = (((c ++ hp) ++ []) ++ hq) ++ q} {y = c ++ (hp ++ (hq ++ q))}
      (simp (append-nil, append_assoc))
    ∙ drop-append n c (hp ++ (hq ++ q)) e

-- If a write to a segment that holds messages fails behind the header of its message, before any
-- byte of the payload is written, and the next write, of a message that is at most 12 bytes
-- shorter and fits, goes well, then reading the offset that this write handed over succeeds with
-- other bytes: those of the header and the payload of the new message, cut to the length of the
-- message that failed.
pub read_at-write-torn :
    {base cap : ℕ} {ps : List Payload} {s : Segment} (now : ℤ) (p q payload : Payload)
    → Holds base cap ps s
    → Fits base cap (ps ++ q ∷ [])
    → length p ≤ 12 + length q
    → (t u : Segment) × (write torn now p s ≡ (err log_error, t))
      × (write calm now q t ≡ (ok (pos (base + length ps)), u))
      × (read_at calm u payload (pos (length ps))
          ≡ (ok tt, take (length p) (header (pos (base + length ps)) (pos (length q)) ++ q)))
unfolding read_at
read_at-write-torn {base} {cap} {ps} {s} now p q payload h fits shorter =
    let n = length-append ps (q ∷ []) in
    let b = total-append ps q in
    let t = after_torn base ps s now p in
    let lt = length-le-total ps in
    let o = pos (base + length ps) in
    let tail = header o (pos (length q)) ++ q in
    let x = take (length p) tail in
    let (index, e, has) =
      write-HasEntries (length ps) (total ps) h.indexed (omega (arith, fits.bytes))
        (omega (arith, fits.bytes)) (omega (arith, length-entries 0 0 ps, fits.room)) in
    let u = Holds.written base ps t now q index in
    let same : length x ≡ length p = omega (
      arith,
      length-take (length p) tail,
      length-append (header o (pos (length q))) q,
      length-header o (pos (length q)),
    ) in
    (
      t,
      u,
      write-torn now p h (omega (arith, fits.bytes)),
      write-written base ps t now q h.next h.placed h.physical h.writable index
          (omega (arith, fits.bytes)) e,
      rw
          (
            find_entry-hit (ps ++ q ∷ []) u (ap pos (omega arith))
                (subst (λ es. HasEntries base cap es index) (sym (entries-append_first ps q)) has)
                (negsuc 0) (length ps) (total ps) (entries-last ps q),
            read_at,
          )
          (read_entry-message u (total ps) (base + length ps) x (drop (length p) tail) payload
            h.readable
            (torn_bytes (total ps) s.log.content (header o (pos (length p)))
                (header o (pos (length q))) q (ap length h.logged ∙ length-layout base ps)
              ∙ ap₂ (λ k l. header o (pos k) ++ l) (sym same)
                  (sym (take-append-drop (length p) tail)))
            (omega (arith, fits.offsets)) (omega (arith, fits.bytes, same))),
    )
