-- ===== src/Names.antt =====
-- The names of the files of a segment: getIndexFilename and getLogFilename of
-- commitlog/Segment.cc, and detectBaseOffset of commitlog/Partition.cc. Texts are lists of code
-- points.
pub mod Numbers
pub mod Offsets
use mykafka.Prelude.{
  ℕ, zero, suc, ◌+◌, ◌-◌, ◌*◌, ◌/◌, ◌%◌, ◌^◌, ◌≡◌, refl, Bool, true, false, not, ◌&&◌, ◌||◌, List,
  [], ◌∷◌, ◌++◌, arith, ltb, leb, ◌==◌, if◌then◌else◌,
}
use mykafka.Prelude.Int.{ℤ, pos, negsuc, sub_ℕ, eqb_ℤ}

abbrev pub Text : Type 0
Text = List ℕ

-- The last `k` decimal digits, with leading zeros.
unfoldable pub fixed_digits : ℕ → ℕ → Text
fixed_digits zero n = []
fixed_digits (suc k) n = fixed_digits k (n / 10) ++ (48 + n % 10) ∷ []

-- `%020` PRId64; an int64_t has at most 19 digits
unfoldable pub print_offset : ℤ → Text
unfolding fixed_digits
print_offset (pos n) = fixed_digits 20 n
print_offset (negsuc n) = b'-' ∷ fixed_digits 19 (suc n)

-- sprintf(buffer, "%s/%020" PRId64 ".index", ...)
unfoldable pub get_index_filename : Text → ℤ → Text
unfolding print_offset
get_index_filename path base_offset =
    path ++ b'/' ∷ (print_offset base_offset ++ b'.' ∷ b'i' ∷ b'n' ∷ b'd' ∷ b'e' ∷ b'x' ∷ [])

unfoldable pub get_log_filename : Text → ℤ → Text
unfolding print_offset
get_log_filename path base_offset =
    path ++ b'/' ∷ (print_offset base_offset ++ b'.' ∷ b'l' ∷ b'o' ∷ b'g' ∷ [])

-- isspace in the C locale
is_space : ℕ → Bool
is_space c = c == 32 || (leb 9 c && leb c 13)

is_digit : ℕ → Bool
is_digit c = leb 48 c && leb c 57

skip_spaces : Text → Text
unfolding is_space
skip_spaces [] = []
skip_spaces (c ∷ s) = let rest = skip_spaces s in if is_space c then rest else c ∷ s

-- The number that the leading digits of a text make, behind the digits that were read before it.
unfoldable pub read_digits : ℕ → Text → ℕ
unfolding is_digit
read_digits n [] = n
read_digits n (c ∷ s) =
    let rest = read_digits (n * 10 + (c - 48)) s in if is_digit c then rest else n

-- The value of a sign and a number, cut to the range of int64_t.
clamp : ℕ → ℤ
clamp n = if ltb n (2 ^ 63) then pos n else pos (2 ^ 63 - 1)

clamp_negative : ℕ → ℤ
clamp_negative n = if ltb n (2 ^ 63) then sub_ℕ 0 n else negsuc (2 ^ 63 - 1)

strtoll_signed : Text → ℤ
unfolding read_digits clamp clamp_negative
strtoll_signed [] = pos 0
strtoll_signed (c ∷ s) =
    if c == b'-'
    then clamp_negative (read_digits 0 s)
    else if c == b'+'
    then clamp (read_digits 0 s)
    else clamp (read_digits 0 (c ∷ s))

-- strtoll(s, 0, 10)
unfoldable pub strtoll : Text → ℤ
unfolding skip_spaces strtoll_signed
strtoll s = strtoll_signed (skip_spaces s)

-- s.find_first_not_of("0") == npos
unfoldable pub only_zeros : Text → Bool
only_zeros [] = true
only_zeros (c ∷ s) = c == 48 && only_zeros s

-- detectBaseOffset of commitlog/Partition.cc
unfoldable pub detect_base_offset : Text → ℤ
unfolding strtoll only_zeros
detect_base_offset s =
    let res = strtoll s in if eqb_ℤ res (pos 0) && not (only_zeros s) then negsuc 0 else res

-- operator== of std::string
unfoldable pub same_text : Text → Text → Bool
same_text [] [] = true
same_text [] (_ ∷ _) = false
same_text (_ ∷ _) [] = false
same_text (a ∷ s) (b ∷ t) = a == b && same_text s t

pub same_text_refl : (s : Text) → same_text s s ≡ true
unfolding same_text
same_text_refl [] = refl
same_text_refl (c ∷ s) = ground (arith, same_text_refl s)

pub same_text→eq : (s t : Text) → same_text s t ≡ true → s ≡ t
unfolding same_text
same_text→eq [] [] h = refl
same_text→eq [] (b ∷ t) h = absurd (ground arith)
same_text→eq (a ∷ s) [] h = absurd (ground arith)
same_text→eq (a ∷ s) (b ∷ t) h = ground (arith, same_text→eq s t)
