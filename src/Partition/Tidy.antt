-- ===== src/Partition/Tidy.antt =====
-- A directory that has the files of chunks, in their order, and no others.
use mykafka.Prelude.{
  ℕ, ◌≤◌, ◌<◌, ◌^◌, ◌≡◌, refl, ap, ◌∙◌, true, false, inl, List, [], ◌∷◌, ◌++◌, arith,
}
use mykafka.Prelude.Int.{pos}
use mykafka.Names.{print_offset, detect_base_offset, same_text, same_text_refl}
use mykafka.Names.Offsets.{detect_base_offset-print_offset, print_offset_apart}
use mykafka.Index.{create_file}
use mykafka.Index.Opening.{default_entries, IsSane}
use mykafka.Segment.State.{Segment}
use mykafka.Segment.Layout.{layout}
use mykafka.Segment.Holds.{Fits}
use mykafka.Partition.State.{
  Stored, put_back, listed, sort, insert_sorted, fill_files_list, stored_log, stored_index,
  take_out,
}
use mykafka.Partition.Chunks.{Chunk, next_base, Ascending, Ascending-tail}
use mykafka.Partition.Opens.{StoresChunk, StoresAll, bases, left_over}

-- The files of a chunk.
pub record Has (c : Chunk) (e : Stored) : Type 0 where
  pub named : e.stem ≡ print_offset (pos c.base)
  pub regular : e.is_log ≡ true
  pub there : e.log.exists ≡ true
  pub content : e.log.content ≡ layout c.base c.messages
  pub sane : IsSane (create_file e.index)
  pub fits : Fits c.base default_entries c.messages

abbrev pub Tidy : List Chunk → List Stored → Type 0
Tidy [] [] = Unit {0}
Tidy [] (e ∷ dir) = ⊥
Tidy (c ∷ cs) [] = ⊥
Tidy (c ∷ cs) (e ∷ dir) = Has c e × Tidy cs dir

-- All chunks start below an offset.
abbrev pub Below : List Chunk → ℕ → Type 0
Below [] n = Unit {0}
Below (c ∷ cs) n = (c.base < n) × Below cs n

Has-base : (c : Chunk) (e : Stored) → Has c e → c.base < 2 ^ 63
Has-base c e h = omega (arith, h.fits.offsets)

-- Another name, by the order of the offsets.
stem_apart :
    (c : Chunk) (e : Stored) (n : ℕ)
    → Has c e
    → c.base < n
    → n < 2 ^ 63
    → same_text e.stem (print_offset (pos n)) ≡ false
stem_apart c e n h lt bound =
    ap (λ t. same_text t (print_offset (pos n))) h.named
    ∙ print_offset_apart c.base n (Has-base c e h) bound lt

-- A closed segment behind the others.
abbrev pub entry_of : ℕ → Segment → Stored
entry_of n s = record {
  stem = print_offset (pos n);
  is_log = true;
  log = s.log;
  index = s.index.file;
}

pub put_back-Tidy :
    (cs : List Chunk) (dir : List Stored) (c : Chunk) (s : Segment)
    → Tidy cs dir
    → Below cs c.base
    → s.index.base_offset ≡ pos c.base
    → Has c (entry_of c.base s)
    → Tidy (cs ++ c ∷ []) (put_back s dir)
unfolding put_back
put_back-Tidy [] [] c s tidy below based h = (
  record {
    named = ap print_offset based;
    regular = refl;
    there = h.there;
    content = h.content;
    sane = h.sane;
    fits = h.fits;
  },
  tt,
)
put_back-Tidy [] (e ∷ dir) c s tidy below based h = absurd tidy
put_back-Tidy (d ∷ cs) [] c s tidy below based h = absurd tidy
put_back-Tidy (d ∷ cs) (e ∷ dir) c s (has, tidy) (lt, below) based h =
    let apart : same_text e.stem (print_offset s.index.base_offset) ≡ false =
      rw based (stem_apart d e c.base has lt (omega (arith, h.fits.offsets))) in
    rw apart (has, put_back-Tidy cs dir c s tidy below based h)

Tidy-listed : (cs : List Chunk) (dir : List Stored) → Tidy cs dir → listed dir ≡ bases cs
unfolding listed
Tidy-listed [] [] tidy = refl
Tidy-listed [] (e ∷ dir) tidy = absurd tidy
Tidy-listed (c ∷ cs) [] tidy = absurd tidy
Tidy-listed (c ∷ cs) (e ∷ dir) (h, tidy) =
    let base : detect_base_offset e.stem ≡ pos c.base =
      ap detect_base_offset h.named ∙ detect_base_offset-print_offset c.base (Has-base c e h) in
    ground (arith, h.regular, h.there, base, Tidy-listed cs dir tidy)

sort-bases : (cs : List Chunk) → Ascending cs → sort (bases cs) ≡ bases cs
unfolding sort
sort-bases [] up = refl
sort-bases (c ∷ []) up = refl
sort-bases (c ∷ (d ∷ cs)) (lt, le, up) =
    ap (insert_sorted (pos c.base)) (sort-bases (d ∷ cs) up) ∙ ground arith

pub Tidy-fill_files_list :
    (cs : List Chunk) (dir : List Stored)
    → Tidy cs dir
    → Ascending cs
    → fill_files_list dir ≡ bases cs
unfolding fill_files_list
Tidy-fill_files_list cs dir tidy up = ap sort (Tidy-listed cs dir tidy) ∙ sort-bases cs up

StoresChunk-first : (c : Chunk) (e : Stored) (dir : List Stored) → Has c e → StoresChunk (e ∷ dir) c
unfolding stored_log stored_index
StoresChunk-first c e dir h =
    let same : same_text e.stem (print_offset (pos c.base)) ≡ true =
      ap (λ t. same_text t (print_offset (pos c.base))) h.named
      ∙ same_text_refl (print_offset (pos c.base)) in
    record { logged = rw same (inl (h.there, h.content)); sane = rw same h.sane; fits = h.fits }

Ascending-skip :
    (b c : Chunk) (cs : List Chunk)
    → b.base < c.base
    → next_base b ≤ c.base
    → Ascending (c ∷ cs)
    → Ascending (b ∷ cs)
Ascending-skip b c [] lt le up = tt
Ascending-skip b c (d ∷ cs) lt le (l, n, up) = (omega arith, omega arith, up)

StoresAll-behind :
    (b : Chunk) (e : Stored) (cs : List Chunk) (dir : List Stored)
    → Has b e
    → Ascending (b ∷ cs)
    → StoresAll dir cs
    → StoresAll (e ∷ dir) cs
unfolding stored_log stored_index
StoresAll-behind b e [] dir h up stored = tt
StoresAll-behind b e (c ∷ cs) dir h (lt, le, up) (this, stored) =
    let apart = stem_apart b e c.base h lt (omega (arith, this.fits.offsets)) in
    (
      record { logged = rw apart this.logged; sane = rw apart this.sane; fits = this.fits },
      StoresAll-behind b e cs dir h (Ascending-skip b c cs lt le up) stored,
    )

pub Tidy-StoresAll :
    (cs : List Chunk) (dir : List Stored) → Tidy cs dir → Ascending cs → StoresAll dir cs
Tidy-StoresAll [] dir tidy up = tt
Tidy-StoresAll (c ∷ cs) [] tidy up = absurd tidy
Tidy-StoresAll (c ∷ cs) (e ∷ dir) (h, tidy) up = (
  StoresChunk-first c e dir h,
  StoresAll-behind c e cs dir h up (Tidy-StoresAll cs dir tidy (Ascending-tail c cs up)),
)

-- All files of the chunks are taken by their segments.
pub Tidy-left_over : (cs : List Chunk) (dir : List Stored) → Tidy cs dir → left_over cs dir ≡ []
unfolding left_over take_out
Tidy-left_over [] [] tidy = refl
Tidy-left_over [] (e ∷ dir) tidy = absurd tidy
Tidy-left_over (c ∷ cs) [] tidy = absurd tidy
Tidy-left_over (c ∷ cs) (e ∷ dir) (h, tidy) =
    let same : same_text e.stem (print_offset (pos c.base)) ≡ true =
      ap (λ t. same_text t (print_offset (pos c.base))) h.named
      ∙ same_text_refl (print_offset (pos c.base)) in
    rw same (Tidy-left_over cs dir tidy)
