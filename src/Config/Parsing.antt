-- ===== src/Config/Parsing.antt =====
-- The key that `load` reads from the name of a file is the key that named it.
use native.Mathlib.Nat.{pow-suc}
use mykafka.Prelude.{
  ℕ, zero, suc, ◌+◌, ◌*◌, ◌/◌, ◌%◌, ◌^◌, ◌<◌, ◌≡◌, ◌≢◌, refl, ap, ◌∙◌, true, false, Bool, not, ◌&&◌,
  none, some, [], ◌∷◌, ◌++◌, arith, ◌==◌, if◌then◌else◌,
}
use mykafka.Prelude.Int.{pos, eqb_ℤ, to_int32}
use mykafka.Names.{Text, read_digits, strtoll, only_zeros, same_text}
use mykafka.Names.Numbers.{IsNumber, read_digits-append, strtoll-read_digits}
use mykafka.Config.Keys.{
  digits, print_int32, key_name, split_at_dash, parse_key, up_to_nul, has_slash, last_part,
  strip_cfg, entry_stem, read_key,
}

IsNumber-append : (s : Text) (d : ℕ) → IsNumber s → d < 10 → IsNumber (s ++ (48 + d) ∷ [])
IsNumber-append [] d h lt = (omega arith, omega arith, tt)
IsNumber-append (c ∷ s) d (l, u, h) lt = (l, u, IsNumber-append s d h lt)

IsNumber-front : (b : Bool) (s : Text) → IsNumber s → IsNumber (if b then [] else s)
IsNumber-front true s h = tt
IsNumber-front false s h = h

IsNumber-digits : (k n : ℕ) → IsNumber (digits k n)
unfolding digits
IsNumber-digits zero n = tt
IsNumber-digits (suc k) n =
    IsNumber-append (if n / 10 == 0 then [] else digits k (n / 10)) (n % 10)
      (IsNumber-front (n / 10 == 0) (digits k (n / 10)) (IsNumber-digits k (n / 10))) (omega arith)

read_digits-front :
    (b : Bool) (s : Text) (m : ℕ)
    → (b ≡ true → m ≡ 0)
    → read_digits 0 s ≡ m
    → read_digits 0 (if b then [] else s) ≡ m
unfolding read_digits
read_digits-front true s m z e = ground (arith, z refl)
read_digits-front false s m z e = e

read_digits-digits : (k n : ℕ) → n < 10 ^ k → read_digits 0 (digits k n) ≡ n
unfolding digits read_digits
read_digits-digits zero n lt = omega arith
read_digits-digits (suc k) n lt =
    read_digits-append (if n / 10 == 0 then [] else digits k (n / 10)) 0 (n % 10)
      (IsNumber-front (n / 10 == 0) (digits k (n / 10)) (IsNumber-digits k (n / 10))) (omega arith)
    ∙ ap (λ m. m * 10 + n % 10)
        (read_digits-front (n / 10 == 0) (digits k (n / 10)) (n / 10) (λ z. ground (arith, z))
          (read_digits-digits k (n / 10) (omega (arith, pow-suc 10 k))))
    ∙ omega arith

strtoll-append :
    (s : Text) (d n : ℕ)
    → IsNumber (s ++ (48 + d) ∷ [])
    → read_digits 0 (s ++ (48 + d) ∷ []) ≡ n
    → n < 2 ^ 63
    → strtoll (s ++ (48 + d) ∷ []) ≡ pos n
strtoll-append [] d n h e lt = strtoll-read_digits (48 + d) [] n h e lt
strtoll-append (c ∷ s) d n h e lt = strtoll-read_digits c (s ++ (48 + d) ∷ []) n h e lt

strtoll-digits : (k n : ℕ) → n < 10 ^ suc k → n < 2 ^ 63 → strtoll (digits (suc k) n) ≡ pos n
unfolding digits
strtoll-digits k n small lt =
    strtoll-append (if n / 10 == 0 then [] else digits k (n / 10)) (n % 10) n
      (IsNumber-digits (suc k) n) (read_digits-digits (suc k) n small) lt

-- Digits are no dash.
split_at_dash-IsNumber : (s : Text) → IsNumber s → split_at_dash s ≡ none
unfolding split_at_dash
split_at_dash-IsNumber [] h = refl
split_at_dash-IsNumber (c ∷ s) (l, u, h) = ground (arith, split_at_dash-IsNumber s h)

split_at_dash-append : (t s : Text) → IsNumber s → split_at_dash (t ++ b'-' ∷ s) ≡ some (t, s)
unfolding split_at_dash
split_at_dash-append [] s h = rw (split_at_dash-IsNumber s h) refl
split_at_dash-append (c ∷ t) s h = rw (split_at_dash-append t s h) refl

-- The test of a partition that reads as zero.
is_skipped : (n : ℕ) → (eqb_ℤ (pos n) (pos 0) && not (only_zeros (digits 10 n))) ≡ false
unfolding digits only_zeros
is_skipped zero = refl
is_skipped (suc n) = ground arith

-- The key in the name of its file.
pub parse_key-key_name :
    (topic : Text) (n : ℕ)
    → n < 2 ^ 31
    → parse_key (key_name (record { topic = topic; partition = pos n }))
      ≡ some (record { topic = topic; partition = pos n })
unfolding parse_key key_name print_int32
parse_key-key_name topic n small =
    let e = split_at_dash-append topic (digits 10 n) (IsNumber-digits 10 n) in
    let z = strtoll-digits 9 n (omega arith) (omega arith) in
    let w : to_int32 (pos n) ≡ pos n = ground arith in ground (arith, e, z, w, is_skipped n)

-- A text without NUL and slash.
abbrev pub IsFileName : Text → Type 0
IsFileName [] = Unit {0}
IsFileName (c ∷ s) = (c ≢ 0) × (c ≢ b'/') × IsFileName s

IsFileName-IsNumber : (s : Text) → IsNumber s → IsFileName s
IsFileName-IsNumber [] h = tt
IsFileName-IsNumber (c ∷ s) (l, u, h) =
    (λ e. omega arith, λ e. omega arith, IsFileName-IsNumber s h)

IsFileName-append : (s t : Text) → IsFileName s → IsFileName t → IsFileName (s ++ t)
IsFileName-append [] t hs ht = ht
IsFileName-append (c ∷ s) t (n, d, hs) ht = (n, d, IsFileName-append s t hs ht)

up_to_nul-IsFileName : (s : Text) → IsFileName s → up_to_nul s ≡ s
unfolding up_to_nul
up_to_nul-IsFileName [] h = refl
up_to_nul-IsFileName (c ∷ s) (n, d, h) = ground (arith, n, up_to_nul-IsFileName s h)

has_slash-IsFileName : (s : Text) → IsFileName s → has_slash s ≡ false
unfolding has_slash
has_slash-IsFileName [] h = refl
has_slash-IsFileName (c ∷ s) (n, d, h) = ground (arith, d, has_slash-IsFileName s h)

last_part-IsFileName : (s : Text) → IsFileName s → last_part s ≡ s
unfolding last_part
last_part-IsFileName [] h = refl
last_part-IsFileName (c ∷ s) h = rw (has_slash-IsFileName (c ∷ s) h) refl

abbrev extension : Text
extension = b'.' ∷ b'c' ∷ b'f' ∷ b'g' ∷ []

strip_cfg-extension : (s : Text) → strip_cfg (s ++ extension) ≡ some s
unfolding strip_cfg same_text
strip_cfg-extension [] = refl
strip_cfg-extension (c ∷ s) = rw (strip_cfg-extension s) refl

entry_stem-IsFileName : (s : Text) → IsFileName s → entry_stem s ≡ some s
unfolding entry_stem
entry_stem-IsFileName s h =
    let whole = IsFileName-append s extension h (
      λ e. omega arith,
      λ e. omega arith,
      (
        λ e. omega arith,
        λ e. omega arith,
        (λ e. omega arith, λ e. omega arith, (λ e. omega arith, λ e. omega arith, tt)),
      ),
    ) in
    ap (λ t. strip_cfg (last_part t)) (up_to_nul-IsFileName (s ++ extension) whole)
    ∙ ap strip_cfg (last_part-IsFileName (s ++ extension) whole)
    ∙ strip_cfg-extension s

key_name-IsFileName :
    (topic : Text) (n : ℕ)
    → IsFileName topic
    → IsFileName (key_name (record { topic = topic; partition = pos n }))
unfolding key_name print_int32
key_name-IsFileName topic n h =
    IsFileName-append topic (b'-' ∷ digits 10 n) h
      (λ e. omega arith, λ e. omega arith, IsFileName-IsNumber (digits 10 n) (IsNumber-digits 10 n))

-- From the entry of the directory for the configuration file of a key, the path of which is cut
-- at its first NUL and of which the part behind the last slash counts without .cfg, load reads
-- the same key, if the topic has no slash and no NUL, dashes included, and the partition is a
-- number from 0 to 2^31 - 1.
pub read_key-key_name :
    (topic : Text) (n : ℕ)
    → IsFileName topic
    → n < 2 ^ 31
    → read_key (key_name (record { topic = topic; partition = pos n }))
      ≡ some (record { topic = topic; partition = pos n })
unfolding read_key
read_key-key_name topic n plain small =
    let name = key_name (record { topic = topic; partition = pos n }) in
    rw (entry_stem-IsFileName name (key_name-IsFileName topic n plain), read_key)
      (parse_key-key_name topic n small)
