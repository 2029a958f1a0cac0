-- ===== src/Config/Bytes.antt =====
-- The bytes of a configuration.
use mykafka.Prelude.{
  ℕ, ◌+◌, ◌-◌, append_assoc, append-nil, take_all, drop_all, drop-append_add, ◌^◌, ◌<◌, ◌≡◌, ap,
  ap₂, sym, ◌∙◌, List, [], ◌++◌, arith, length, length-append, take, drop, take-append, drop-append,
  replicate,
}
use mykafka.Prelude.Int.{ℤ, pos, negsuc}
use mykafka.Prelude.Bytes.{
  int64_bytes, int64_of, int64_of-bytes, length-int64_bytes, of_le-le_bytes,
}
use mykafka.Config.State.{RawInfo, raw_size, raw_bytes, raw_of, mapped_bytes, store_bytes}

-- The numbers of an int64_t.
abbrev pub IsInt64 : ℤ → Type 0
IsInt64 (pos n) = n < 2 ^ 63
IsInt64 (negsuc n) = n < 2 ^ 63

pub record InRange (info : RawInfo) : Type 0 where
  pub max_segment_size : IsInt64 info.max_segment_size
  pub max_partition_size : IsInt64 info.max_partition_size
  pub segment_ttl : IsInt64 info.segment_ttl
  pub commit_offset : IsInt64 info.commit_offset

int64_of-bytes_ℤ : (z : ℤ) → IsInt64 z → int64_of (int64_bytes z) ≡ z
unfolding int64_of int64_bytes
int64_of-bytes_ℤ (pos n) h = int64_of-bytes n h
int64_of-bytes_ℤ (negsuc n) h = ground (arith, of_le-le_bytes 8 (2 ^ 64 - 1 - n) (omega arith))

pub length-raw_bytes : (info : RawInfo) → length (raw_bytes info) ≡ 32
unfolding raw_bytes
length-raw_bytes info = omega (
  arith,
  length-append (int64_bytes info.max_segment_size) (
      int64_bytes info.max_partition_size
      ++ (int64_bytes info.segment_ttl ++ int64_bytes info.commit_offset)),
  length-append (int64_bytes info.max_partition_size)
      (int64_bytes info.segment_ttl ++ int64_bytes info.commit_offset),
  length-append (int64_bytes info.segment_ttl) (int64_bytes info.commit_offset),
  length-int64_bytes info.max_segment_size,
  length-int64_bytes info.max_partition_size,
  length-int64_bytes info.segment_ttl,
  length-int64_bytes info.commit_offset,
)

-- The fields of four blocks of eight bytes.
module _ (a b c d : List ℕ) (la : length a ≡ 8) (lb : length b ≡ 8) (lc : length c ≡ 8)
    (ld : length d ≡ 8) where
  block_second : take 8 (drop 8 (a ++ (b ++ (c ++ d)))) ≡ b
  block_second = ap (take 8) (drop-append 8 a (b ++ (c ++ d)) la) ∙ take-append 8 b (c ++ d) lb

  block_third : take 8 (drop 16 (a ++ (b ++ (c ++ d)))) ≡ c
  block_third =
      ap (take 8)
        (drop-append_add a (b ++ (c ++ d)) 16 8 (omega (arith, la)) ∙ drop-append 8 b (c ++ d) lb)
      ∙ take-append 8 c d lc

  block_fourth : take 8 (drop 24 (a ++ (b ++ (c ++ d)))) ≡ d
  block_fourth =
      ap (take 8) (
        drop-append_add a (b ++ (c ++ d)) 24 16 (omega (arith, la))
        ∙ drop-append_add b (c ++ d) 16 8 (omega (arith, lb))
        ∙ drop-append 8 c d lc)
      ∙ take_all 8 d (omega (arith, ld))

  length-blocks : length (a ++ (b ++ (c ++ d))) ≡ 32
  length-blocks = omega (
    arith,
    la,
    lb,
    lc,
    ld,
    length-append a (b ++ (c ++ d)),
    length-append b (c ++ d),
    length-append c d,
  )

  front : length (a ++ (b ++ c)) ≡ 24
  front = omega (arith, la, lb, lc, length-append a (b ++ c), length-append b c)

  regroup : (x : List ℕ) → a ++ (b ++ (c ++ x)) ≡ (a ++ (b ++ c)) ++ x
  regroup x = simp append_assoc

  store_bytes-fourth :
      (e : List ℕ) → length e ≡ 8 → store_bytes 24 e (a ++ (b ++ (c ++ d))) ≡ a ++ (b ++ (c ++ e))
  store_bytes-fourth e le =
      ap₂ (λ n l. take n l) length-blocks
        (ap₂ (λ x y. x ++ (e ++ y))
          (ap (take 24) (regroup d) ∙ take-append 24 (a ++ (b ++ c)) d front)
          (drop_all (24 + length e) (a ++ (b ++ (c ++ d))) (omega (arith, length-blocks, le))))
      ∙ take_all 32 ((a ++ (b ++ c)) ++ (e ++ []))
          (omega (arith, front, le, length-append (a ++ (b ++ c)) (e ++ []), length-append e []))
      ∙ ap (λ x. (a ++ (b ++ c)) ++ x) (append-nil e)
      ∙ sym (regroup e)

abbrev info_of : ℤ → ℤ → ℤ → ℤ → RawInfo
info_of a b c d = record {
  max_segment_size = a;
  max_partition_size = b;
  segment_ttl = c;
  commit_offset = d;
}

same_info :
    {a b c d a' b' c' d' : ℤ}
    → a ≡ a'
    → b ≡ b'
    → c ≡ c'
    → d ≡ d'
    → info_of a b c d ≡ info_of a' b' c' d'
same_info {c = c} {d = d} {a' = a'} {b' = b'} ea eb ec ed =
    ap₂ (λ x y. info_of x y c d) ea eb ∙ ap₂ (λ x y. info_of a' b' x y) ec ed

raw_of-fields : (info : RawInfo) → InRange info → raw_of (raw_bytes info) ≡ info
unfolding raw_of raw_bytes
raw_of-fields info h =
    let a = int64_bytes info.max_segment_size in
    let b = int64_bytes info.max_partition_size in
    let c = int64_bytes info.segment_ttl in
    let d = int64_bytes info.commit_offset in
    let la = length-int64_bytes info.max_segment_size in
    let lb = length-int64_bytes info.max_partition_size in
    let lc = length-int64_bytes info.segment_ttl in
    let ld = length-int64_bytes info.commit_offset in
    same_info
      (ap int64_of (take-append 8 a (b ++ (c ++ d)) la)
        ∙ int64_of-bytes_ℤ info.max_segment_size h.max_segment_size)
      (ap int64_of (block_second a b c d la lb lc ld)
        ∙ int64_of-bytes_ℤ info.max_partition_size h.max_partition_size)
      (ap int64_of (block_third a b c d la lb lc ld)
        ∙ int64_of-bytes_ℤ info.segment_ttl h.segment_ttl)
      (ap int64_of (block_fourth a b c d la lb lc ld)
        ∙ int64_of-bytes_ℤ info.commit_offset h.commit_offset)

module _ (info : RawInfo) where
  -- A load of the whole struct gives back what was stored.
  pub raw_of-raw_bytes : InRange info → raw_of (mapped_bytes (raw_bytes info)) ≡ info
  raw_of-raw_bytes h =
      ap raw_of (take-append 32 (raw_bytes info) (replicate raw_size 0) (length-raw_bytes info))
      ∙ raw_of-fields info h

  pub store_bytes-whole :
      (content : List ℕ)
      → length content ≡ 32
      → store_bytes 0 (raw_bytes info) content ≡ raw_bytes info
  store_bytes-whole content l =
      ap₂ (λ n x. take n (raw_bytes info ++ x)) l
        (drop_all (0 + length (raw_bytes info)) content (omega (arith, l, length-raw_bytes info)))
      ∙ take-append 32 (raw_bytes info) [] (length-raw_bytes info)

  pub store_bytes-commit_offset :
      (o : ℤ)
      → store_bytes 24 (int64_bytes o) (raw_bytes info)
        ≡ raw_bytes (record info { commit_offset = o })
  unfolding raw_bytes
  store_bytes-commit_offset o =
      store_bytes-fourth (int64_bytes info.max_segment_size) (int64_bytes info.max_partition_size)
        (int64_bytes info.segment_ttl) (int64_bytes info.commit_offset)
        (length-int64_bytes info.max_segment_size) (length-int64_bytes info.max_partition_size)
        (length-int64_bytes info.segment_ttl) (length-int64_bytes info.commit_offset)
        (int64_bytes o) (length-int64_bytes o)
