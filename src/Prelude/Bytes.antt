-- ===== src/Prelude/Bytes.antt =====
-- Bytes: little-endian integers, as the program's target writes them from a struct or through a
-- pointer, and a byte memory, as the program sees a mapped file.
use Prim.Native.Nat.{ℕ, zero, suc, ◌+◌, ◌*◌, ◌/◌, ◌%◌, ◌^◌, ◌≤◌, ◌<◌}
use mathlib.Core.Path.{◌≡◌, refl, ap, ap₂, ◌∙◌}
use mathlib.Core.List.{List, [], ◌∷◌, ◌++◌, append-nil}
use native.Mathlib.Nat.{pow-suc}
use native.Mathlib.Omega.{arith}
use mykafka.Prelude.Tests.{◌==◌, ==_refl, if◌then◌else◌}
use mykafka.Prelude.Lists.{length, drop, drop_all}
use mykafka.Prelude.Int.{ℤ, pos, to_word, of_word, two32, two64}

unfoldable pub le_bytes : ℕ → ℕ → List ℕ
le_bytes zero v = []
le_bytes (suc k) v = (v % 256) ∷ le_bytes k (v / 256)

unfoldable pub of_le : List ℕ → ℕ
of_le [] = 0
of_le (b ∷ bs) = b + 256 * of_le bs

pub length-le_bytes : (k v : ℕ) → length (le_bytes k v) ≡ k
unfolding le_bytes
length-le_bytes zero v = refl
length-le_bytes (suc k) v = ap suc (length-le_bytes k (v / 256))

pub of_le-le_bytes : (k v : ℕ) → v < 256 ^ k → of_le (le_bytes k v) ≡ v
unfolding le_bytes of_le
of_le-le_bytes zero v h = omega arith
of_le-le_bytes (suc k) v h =
    omega (arith, of_le-le_bytes k (v / 256) (omega (arith, pow-suc 256 k)))

-- An int64_t and an int32_t as bytes, and back.
unfoldable pub int64_bytes : ℤ → List ℕ
int64_bytes z = le_bytes 8 (to_word two64 z)

unfoldable pub int32_bytes : ℤ → List ℕ
int32_bytes z = le_bytes 4 (to_word two32 z)

unfoldable pub int64_of : List ℕ → ℤ
int64_of bs = of_word two64 (of_le bs)

unfoldable pub int32_of : List ℕ → ℤ
int32_of bs = of_word two32 (of_le bs)

pub length-int64_bytes : (z : ℤ) → length (int64_bytes z) ≡ 8
unfolding int64_bytes
length-int64_bytes z = length-le_bytes 8 (to_word two64 z)

pub length-int32_bytes : (z : ℤ) → length (int32_bytes z) ≡ 4
unfolding int32_bytes
length-int32_bytes z = length-le_bytes 4 (to_word two32 z)

pub int64_of-bytes : (n : ℕ) → n < 2 ^ 63 → int64_of (int64_bytes (pos n)) ≡ pos n
unfolding int64_of int64_bytes
int64_of-bytes n h = ground (arith, of_le-le_bytes 8 (n % two64) (omega arith))

pub int32_of-bytes : (n : ℕ) → n < 2 ^ 31 → int32_of (int32_bytes (pos n)) ≡ pos n
unfolding int32_of int32_bytes
int32_of-bytes n h = ground (arith, of_le-le_bytes 4 (n % two32) (omega arith))

-- What a buffer of `old` bytes holds after the first bytes were read into it.
abbrev pub overlay : List ℕ → List ℕ → List ℕ
overlay chunk old = chunk ++ drop (length chunk) old

unfoldable pub load : (ℕ → ℕ) → ℕ → ℕ → List ℕ
load m p zero = []
load m p (suc n) = m p ∷ load m (p + 1) n

unfoldable pub store : (ℕ → ℕ) → ℕ → List ℕ → ℕ → ℕ
store m p [] = m
store m p (b ∷ bs) = λ q. if q == p then b else store m (p + 1) bs q

pub store_below : (m : ℕ → ℕ) (p : ℕ) (bs : List ℕ) (q : ℕ) → q < p → store m p bs q ≡ m q
unfolding store
store_below m p [] q h = refl
store_below m p (b ∷ bs) q h = ground (arith, store_below m (p + 1) bs q)

pub store_above :
    (m : ℕ → ℕ) (p : ℕ) (bs : List ℕ) (q : ℕ) → p + length bs ≤ q → store m p bs q ≡ m q
unfolding store
store_above m p [] q h = refl
store_above m p (b ∷ bs) q h = ground (arith, store_above m (p + 1) bs q)

pub load_ext :
    (f g : ℕ → ℕ) (p n : ℕ) → ((q : ℕ) → p ≤ q → q < p + n → f q ≡ g q) → load f p n ≡ load g p n
unfolding load
load_ext f g p zero h = refl
load_ext f g p (suc n) h =
    ap₂ ◌∷◌ (h p (omega arith) (omega arith))
      (load_ext f g (p + 1) n (λ q l u. h q (omega arith) (omega arith)))

pub load-store_self : (m : ℕ → ℕ) (p : ℕ) (bs : List ℕ) → load (store m p bs) p (length bs) ≡ bs
unfolding load store
load-store_self m p [] = refl
load-store_self m p (b ∷ bs) = ap₂ ◌∷◌ (rw (==_refl p)) (
    load_ext (store m p (b ∷ bs)) (store m (p + 1) bs) (p + 1) (length bs) (λ q l u. ground arith)
    ∙ load-store_self m (p + 1) bs)

pub load-store_below :
    (m : ℕ → ℕ) (p : ℕ) (bs : List ℕ) (q n : ℕ) → q + n ≤ p → load (store m p bs) q n ≡ load m q n
load-store_below m p bs q n h =
    load_ext (store m p bs) m q n (λ k l u. store_below m p bs k (omega arith))

pub load-store_above :
    (m : ℕ → ℕ) (p : ℕ) (bs : List ℕ) (q n : ℕ)
    → p + length bs ≤ q
    → load (store m p bs) q n ≡ load m q n
load-store_above m p bs q n h =
    load_ext (store m p bs) m q n (λ k l u. store_above m p bs k (omega arith))

pub overlay_whole : (chunk old : List ℕ) → length old ≤ length chunk → overlay chunk old ≡ chunk
overlay_whole chunk old h = rw (drop_all (length chunk) old h) (append-nil chunk)
