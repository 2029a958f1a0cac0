-- ===== src/Names/Offsets.antt =====
-- detectBaseOffset reads back the offset in the name of a file.
use mykafka.Prelude.{
  ℕ, zero, suc, ◌+◌, ◌/◌, ◌%◌, ◌^◌, ◌<◌, ◌≡◌, ◌≢◌, refl, sym, ap, ◌∙◌, Bool-cases, inl, inr, true,
  false, [], ◌∷◌, ◌++◌, arith,
}
use mykafka.Prelude.Int.{pos}
use mykafka.Names.{
  Text, fixed_digits, print_offset, read_digits, strtoll, only_zeros, detect_base_offset, same_text,
  same_text→eq,
}
use mykafka.Names.Numbers.{IsNumber, read_digits-append, strtoll-read_digits}
use native.Mathlib.Nat.{pow-suc}

IsNumber-append : (s : Text) (d : ℕ) → IsNumber s → d < 10 → IsNumber (s ++ (48 + d) ∷ [])
IsNumber-append [] d h lt = (omega arith, omega arith, tt)
IsNumber-append (c ∷ s) d (l, u, h) lt = (l, u, IsNumber-append s d h lt)

fixed_digits-IsNumber : (k n : ℕ) → IsNumber (fixed_digits k n)
unfolding fixed_digits
fixed_digits-IsNumber zero n = tt
fixed_digits-IsNumber (suc k) n =
    IsNumber-append (fixed_digits k (n / 10)) (n % 10) (fixed_digits-IsNumber k (n / 10))
      (omega arith)

read_digits-fixed_digits : (k n : ℕ) → n < 10 ^ k → read_digits 0 (fixed_digits k n) ≡ n
unfolding fixed_digits read_digits
read_digits-fixed_digits zero n lt = omega arith
read_digits-fixed_digits (suc k) n lt =
    read_digits-append (fixed_digits k (n / 10)) 0 (n % 10) (fixed_digits-IsNumber k (n / 10))
      (omega arith)
    ∙ omega (arith, read_digits-fixed_digits k (n / 10) (omega (arith, pow-suc 10 k)))

strtoll_number :
    (s : Text) (n : ℕ) → s ≢ [] → IsNumber s → read_digits 0 s ≡ n → n < 2 ^ 63 → strtoll s ≡ pos n
strtoll_number [] n ne h e lt = absurd (ne refl)
strtoll_number (c ∷ s) n ne h e lt = strtoll-read_digits c s n h e lt

append-ne : (s : Text) (c : ℕ) → s ++ c ∷ [] ≢ []
append-ne [] c e = cc
append-ne (d ∷ s) c e = cc

strtoll-print_offset : (n : ℕ) → n < 2 ^ 63 → strtoll (print_offset (pos n)) ≡ pos n
unfolding print_offset fixed_digits
strtoll-print_offset n lt =
    strtoll_number (print_offset (pos n)) n (append-ne (fixed_digits 19 (n / 10)) (48 + n % 10))
      (fixed_digits-IsNumber 20 n) (read_digits-fixed_digits 20 n (omega arith)) lt

zeros : only_zeros (print_offset (pos 0)) ≡ true
unfolding print_offset only_zeros
zeros = refl

-- The offset in the name that printOffset makes.
pub detect_base_offset-print_offset :
    (n : ℕ) → n < 2 ^ 63 → detect_base_offset (print_offset (pos n)) ≡ pos n
unfolding detect_base_offset
detect_base_offset-print_offset zero lt =
    rw (strtoll-print_offset 0 lt, detect_base_offset) (rw zeros refl)
detect_base_offset-print_offset (suc n) lt = ground (arith, strtoll-print_offset (suc n) lt)

-- Two offsets have two names.
pub print_offset_apart :
    (m n : ℕ)
    → m < 2 ^ 63
    → n < 2 ^ 63
    → m < n
    → same_text (print_offset (pos m)) (print_offset (pos n)) ≡ false
print_offset_apart m n hm hn lt =
    elim (Bool-cases (same_text (print_offset (pos m)) (print_offset (pos n)))) [
      | inl same ↦
          let e =
            sym (detect_base_offset-print_offset m hm)
            ∙ ap detect_base_offset
                (same_text→eq (print_offset (pos m)) (print_offset (pos n)) same)
            ∙ detect_base_offset-print_offset n hn in
          absurd (ground (arith, e))
      | inr other ↦ other
    ]
