-- ===== src/Index/Entries.antt =====
-- What the index of a segment holds: the pairs that were written, in order, each at its place.
use mykafka.Prelude.{
  ℕ, ◌+◌, ◌*◌, ◌^◌, ◌≤◌, ◌<◌, ◌≡◌, ap, subst, ◌∙◌, inl, inr, true, some, List, [], ◌∷◌, ◌++◌, arith,
  length, length-append, get_elem?, get_elem?-lt, get_elem?-append_cases,
}
use mykafka.Prelude.Int.{ℤ, pos, to_int32}
use mykafka.Prelude.Bytes.{
  int32_bytes, int32_of, load, store, length-int32_bytes, int32_of-bytes, load-store_self,
  load-store_below,
}
use mykafka.Error.{ok, err, index_error}
use mykafka.Index.{valid, Index, write, read}

-- An offset relative to the base, and a position in the log.
abbrev pub Entry : Type 0
Entry = ℕ × ℕ

-- The entry at place `i` of the memory.
abbrev pub Stored : (ℕ → ℕ) → ℕ → Entry → Type 0
Stored m i e = (int32_of (load m (8 * i) 4) ≡ pos e.0) × (int32_of (load m (8 * i + 4) 4) ≡ pos e.1)

-- The mapped index of a segment at `base`, with room for `cap` entries, holds `es`.
pub record HasEntries (base cap : ℕ) (es : List Entry) (s : Index) : Type 0 where
  pub opened : s.fd ≡ valid
  pub on_disk : s.file.exists ≡ true
  pub whole : s.file.len ≡ 8 * cap
  pub mapped : s.mapped ≡ true
  pub sized : s.size ≡ pos (8 * cap)
  pub based : s.base_offset ≡ pos base
  pub placed : s.position ≡ pos (8 * length es)
  pub fits : length es ≤ cap
  pub entry : (i : ℕ) (e : Entry) → get_elem? es i ≡ some e → Stored s.file.byte i e

to_int32_small : (n : ℕ) → n < 2 ^ 31 → to_int32 (pos n) ≡ pos n
to_int32_small n h = ground arith

-- The memory after an entry was written at address `a`.
abbrev pub put_entry : ℕ → Entry → (ℕ → ℕ) → ℕ → ℕ
put_entry a (r, p) m = store (store m a (int32_bytes (pos r))) (a + 4) (int32_bytes (pos p))

module _ {base cap : ℕ} {es : List Entry} {s : Index} (h : HasEntries base cap es s) where
  abbrev pub after_write : ℕ → ℕ → Index
  after_write r p = record s {
    position = pos (8 * length es + 4 + 4);
    file = record s.file { byte = put_entry (8 * length es) (r, p) s.file.byte };
  }

  write_room :
      (r p : ℕ)
      → r < 2 ^ 31
      → p < 2 ^ 31
      → length es < cap
      → write (pos (base + r)) (pos p) s ≡ (ok tt, after_write r p)
  unfolding write
  write_room r p hr hp room = simp (h.mapped, h.sized, h.based, h.placed) (ground arith)

  write_full : (o p : ℤ) → length es ≡ cap → write o p s ≡ (err index_error, s)
  unfolding write
  write_full o p full = ground (arith, h.sized, h.placed)

  read_entry :
      (i : ℕ) (e : Entry)
      → get_elem? es i ≡ some e
      → i < cap
      → read (pos (8 * i)) s ≡ (ok (pos (e.0 + base), pos e.1), s)
  unfolding read
  read_entry i e here lt = ground (arith, h.mapped, h.sized, h.based, h.entry i e here)

load_int32 : (m : ℕ → ℕ) (a : ℕ) (z : ℤ) → load (store m a (int32_bytes z)) a 4 ≡ int32_bytes z
load_int32 m a z =
    subst (λ n. load (store m a (int32_bytes z)) a n ≡ int32_bytes z) (length-int32_bytes z)
      (load-store_self m a (int32_bytes z))

put_entry-Stored :
    (m : ℕ → ℕ) (n r p : ℕ) → r < 2 ^ 31 → p < 2 ^ 31 → Stored (put_entry (8 * n) (r, p) m) n (r, p)
put_entry-Stored m n r p hr hp = (
  ap int32_of (
        load-store_below (store m (8 * n) (int32_bytes (pos r))) (8 * n + 4) (int32_bytes (pos p))
          (8 * n) 4 (omega arith)
        ∙ load_int32 m (8 * n) (pos r))
      ∙ int32_of-bytes r hr,
  ap int32_of (load_int32 (store m (8 * n) (int32_bytes (pos r))) (8 * n + 4) (pos p))
      ∙ int32_of-bytes p hp,
)

load-put_entry :
    (m : ℕ → ℕ) (a : ℕ) (e : Entry) (q : ℕ) → q + 4 ≤ a → load (put_entry a e m) q 4 ≡ load m q 4
load-put_entry m a (r, p) q h =
    load-store_below (store m a (int32_bytes (pos r))) (a + 4) (int32_bytes (pos p)) q 4
      (omega arith)
    ∙ load-store_below m a (int32_bytes (pos r)) q 4 h

put_entry-Stored_before :
    (m : ℕ → ℕ) (n i : ℕ) (x e : Entry) → i < n → Stored m i e → Stored (put_entry (8 * n) x m) i e
put_entry-Stored_before m n i x e lt (o, p) = (
  ap int32_of (load-put_entry m (8 * n) x (8 * i) (omega arith)) ∙ o,
  ap int32_of (load-put_entry m (8 * n) x (8 * i + 4) (omega arith)) ∙ p,
)

module _ {base cap : ℕ} {es : List Entry} {s : Index} (h : HasEntries base cap es s) where
  after_write-HasEntries :
      (r p : ℕ)
      → r < 2 ^ 31
      → p < 2 ^ 31
      → length es < cap
      → HasEntries base cap (es ++ (r, p) ∷ []) (after_write h r p)
  after_write-HasEntries r p hr hp room = record {
    opened = h.opened;
    on_disk = h.on_disk;
    whole = h.whole;
    mapped = h.mapped;
    sized = h.sized;
    based = h.based;
    placed = ap pos (omega (arith, length-append es ((r, p) ∷ [])));
    fits = omega (arith, length-append es ((r, p) ∷ []));
    entry = λ i e x. elim (get_elem?-append_cases es (r, p) i e x) [
      | inl (lt, old) ↦
          put_entry-Stored_before s.file.byte (length es) i (r, p) e lt (h.entry i e old)
      | inr (at, new) ↦ rw at (
          subst (Stored (put_entry (8 * length es) (r, p) s.file.byte) (length es)) new
            (put_entry-Stored s.file.byte (length es) r p hr hp))
    ];
  }

-- Writing an offset and a position below 2^31 into a mapped index that holds a list of entries
-- and has room for one more succeeds, and the index then holds the old entries and the new one
-- behind them, each at its place.
pub write-HasEntries :
    {base cap : ℕ} {es : List Entry} {s : Index} (r p : ℕ)
    → HasEntries base cap es s
    → r < 2 ^ 31
    → p < 2 ^ 31
    → length es < cap
    → (s' : Index) × (write (pos (base + r)) (pos p) s ≡ (ok tt, s'))
      × HasEntries base cap (es ++ (r, p) ∷ []) s'
write-HasEntries r p h hr hp room =
    (after_write h r p, write_room h r p hr hp room, after_write-HasEntries h r p hr hp room)

-- Reading the place of an entry that a mapped index holds hands over its position and its offset
-- with the base offset added, and changes nothing.
pub read-HasEntries :
    {base cap : ℕ} {es : List Entry} {s : Index} (i : ℕ) (e : Entry)
    → HasEntries base cap es s
    → get_elem? es i ≡ some e
    → read (pos (8 * i)) s ≡ (ok (pos (e.0 + base), pos e.1), s)
read-HasEntries {es = es} i e h here =
    let lt = get_elem?-lt es i here in read_entry h i e here (omega (arith, h.fits))

-- A full index refuses every write and is unchanged.
pub write-HasEntries_full :
    {base cap : ℕ} {es : List Entry} {s : Index} (o p : ℤ)
    → HasEntries base cap es s
    → length es ≡ cap
    → write o p s ≡ (err index_error, s)
write-HasEntries_full o p h full = write_full h o p full
