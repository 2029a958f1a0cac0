-- ===== src/Names/Numbers.antt =====
-- strtoll on the digits of a number.
use mykafka.Prelude.{ℕ, ◌+◌, ◌-◌, ◌*◌, ◌^◌, ◌≤◌, ◌<◌, ◌≡◌, ap, ◌∙◌, [], ◌∷◌, ◌++◌, arith}
use mykafka.Prelude.Int.{pos}
use mykafka.Names.{
  Text, is_space, is_digit, skip_spaces, read_digits, clamp, strtoll_signed, strtoll,
}

-- A text of digits.
abbrev pub IsNumber : Text → Type 0
IsNumber [] = Unit {0}
IsNumber (c ∷ s) = (48 ≤ c) × (c ≤ 57) × IsNumber s

pub read_digits-append :
    (s : Text) (a d : ℕ)
    → IsNumber s
    → d < 10
    → read_digits a (s ++ (48 + d) ∷ []) ≡ read_digits a s * 10 + d
unfolding read_digits is_digit
read_digits-append [] a d h lt = ground arith
read_digits-append (c ∷ s) a d (l, u, h) lt =
    ground (arith, read_digits-append s (a * 10 + (c - 48)) d h lt)

skip_spaces_digit : (c : ℕ) (s : Text) → 48 ≤ c → c ≤ 57 → skip_spaces (c ∷ s) ≡ c ∷ s
unfolding skip_spaces is_space
skip_spaces_digit c s l u = ground arith

strtoll_signed_digit :
    (c : ℕ) (s : Text) (n : ℕ)
    → 48 ≤ c
    → c ≤ 57
    → read_digits 0 (c ∷ s) ≡ n
    → n < 2 ^ 63
    → strtoll_signed (c ∷ s) ≡ pos n
unfolding strtoll_signed clamp
strtoll_signed_digit c s n l u e lt = ground (arith, e)

pub strtoll-read_digits :
    (c : ℕ) (s : Text) (n : ℕ)
    → IsNumber (c ∷ s)
    → read_digits 0 (c ∷ s) ≡ n
    → n < 2 ^ 63
    → strtoll (c ∷ s) ≡ pos n
unfolding strtoll
strtoll-read_digits c s n (l, u, h) e lt =
    ap strtoll_signed (skip_spaces_digit c s l u) ∙ strtoll_signed_digit c s n l u e lt
