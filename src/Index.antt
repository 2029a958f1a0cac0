-- ===== src/Index.antt =====
-- commitlog/Index.cc: the index of a segment, a mapped file of pairs of an offset and a position.
-- An object owns the file that it names, so the file's content is a field of it.
pub mod Bounds
pub mod Entries
pub mod Opening
use mykafka.Prelude.{ℕ, ◌+◌, ◌-◌, min, Bool, true, false, not, ◌&&◌, [], ◌∷◌, ltb, if◌then◌else◌}
use mykafka.Prelude.Int.{ℤ, pos, negsuc, ◌+ℤ◌, ◌-ℤ◌, ◌*ℤ◌, ltb_ℤ, leb_ℤ, eqb_ℤ, rem_ℤ, to_int32}
use mykafka.Prelude.Bytes.{int32_bytes, int32_of, load, store}
use mykafka.Error.{
  invalid_filename, file_error, index_error, Exec, ok, err, fault, pure, gets, guard, modify, ◌>>=◌,
  ◌>>◌,
}
use mykafka.Env.{Env, succeeds, sys}
use mykafka.Utils.{round_down_to_multiple}
use mykafka.Names.{Text}

abbrev pub default_size : ℕ
default_size = 10485760

abbrev pub offset_width : ℕ
offset_width = 4

abbrev pub position_width : ℕ
position_width = 4

abbrev pub entry_width : ℕ
entry_width = offset_width + position_width

-- `fd_`: -1, a descriptor, or the number of a descriptor that was closed after an error.
pub data Fd : Type 0 where
  unset valid dangling : Fd

abbrev pub is_valid : Fd → Bool
is_valid valid = true
is_valid _ = false

-- A file on disk; while it is mapped, the bytes are the memory as well.
pub record File : Type 0 where
  pub exists : Bool
  pub len : ℕ
  pub byte : ℕ → ℕ

abbrev pub absent : File
absent = record { exists = false; len = 0; byte = λ _. 0 }

-- class Index; `mapped` says that `addr_` is a live mapping of `size` bytes
pub record Index : Type 0 where
  pub size : ℤ
  pub base_offset : ℤ
  pub position : ℤ
  pub fd : Fd
  pub mapped : Bool
  pub filename : Text
  pub file : File

-- Index::Index, over what the disk holds under the name
unfoldable pub new : Text → ℤ → ℤ → File → Index
new filename base_offset size file = record {
  size = if not (eqb_ℤ size (pos 0)) then size else pos default_size;
  base_offset = base_offset;
  position = pos 0;
  fd = unset;
  mapped = false;
  filename = filename;
  file = file;
}

abbrev pub is_empty : Text → Bool
is_empty [] = true
is_empty (_ ∷ _) = false

-- ::open with O_CREAT
abbrev pub create_file : File → File
create_file f = if f.exists then f else record { exists = true; len = 0; byte = λ _. 0 }

abbrev pub to_ℕ : ℤ → ℕ
to_ℕ (pos n) = n
to_ℕ (negsuc _) = 0

-- ::ftruncate, to more or fewer bytes
abbrev resize : ℕ → File → File
resize n f = record f { len = n; byte = λ q. if ltb q (min f.len n) then f.byte q else 0 }

-- A call on a descriptor, which fails too where the call's own condition does not hold.
abbrev fd_sys : Env → ℕ → Bool → Exec Index Unit
fd_sys env k legal s =
    if is_valid s.fd && legal && succeeds (env (k ∷ [])) then (ok tt, s) else (err file_error, s)

-- The same in `open`, which closes the descriptor after an error; whether that works only changes
-- the message.
abbrev closing_sys : Env → ℕ → Bool → Exec Index Unit
closing_sys env k legal s =
    if is_valid s.fd && legal && succeeds (env (k ∷ []))
    then (ok tt, s)
    else (err file_error, record s { fd = dangling })

open_fd : Env → Exec Index Unit
open_fd env s =
    if succeeds (env (1 ∷ []))
    then (ok tt, record s { fd = valid; file = create_file s.file })
    else (err file_error, record s { fd = unset })

unfoldable pub open_file : Env → Exec Index Unit
unfolding open_fd round_down_to_multiple
open_file env = do
  empty ← gets (λ s. is_empty s.filename)
  guard (not empty) invalid_filename
  open_fd env
  closing_sys env 2 true
  modify (λ s. record s { position = pos s.file.len })
  rounded_size ← gets (λ s. round_down_to_multiple s.size entry_width)
  closing_sys env 3 (leb_ℤ (pos 0) rounded_size)
  modify (λ s. record s { file = resize (to_ℕ rounded_size) s.file })
  closing_sys env 4 (leb_ℤ (pos 1) rounded_size)
  closing_sys env 5 true
  modify (λ s. record s {
    file = record s.file { byte = store s.file.byte (to_ℕ rounded_size - 1) (0 ∷ []) };
  })
  closing_sys env 6 true
  modify (λ s. record s { mapped = true })

-- Does the mapping hold the four bytes at `addr_ + p`?
abbrev in_mapping : ℤ → Index → Bool
in_mapping p s = s.mapped && leb_ℤ (pos 0) p && leb_ℤ (p +ℤ pos 4) s.size

-- *reinterpret_cast<int32_t*>(addr_ + p) = v
unfoldable poke : ℤ → ℤ → Exec Index Unit
poke p v s =
    if in_mapping p s
    then (
      ok tt,
      record s { file = record s.file { byte = store s.file.byte (to_ℕ p) (int32_bytes v) } },
    )
    else (fault, s)

-- *reinterpret_cast<int32_t*>(addr_ + p)
unfoldable peek : ℤ → Exec Index ℤ
peek p s = if in_mapping p s then (ok (int32_of (load s.file.byte (to_ℕ p) 4)), s) else (fault, s)

unfoldable pub write : ℤ → ℤ → Exec Index Unit
unfolding poke
write absolute_offset position = do
  start ← gets (λ s. s.position)
  rel_offset ← gets (λ s. to_int32 (absolute_offset -ℤ s.base_offset))
  room ← gets (λ s. ltb_ℤ s.position s.size)
  guard room index_error
  poke start rel_offset
  modify (λ s. record s { position = s.position +ℤ pos offset_width })
  next ← gets (λ s. s.position)
  poke next (to_int32 position)
  modify (λ s. record s { position = s.position +ℤ pos position_width })

-- The absolute offset and the position of the entry at a byte of the index.
unfoldable pub read : ℤ → Exec Index (ℤ × ℤ)
unfolding peek
read relative_offset = do
  within ← gets (λ s. leb_ℤ relative_offset (s.size -ℤ pos entry_width))
  guard within index_error
  rel_offset ← peek relative_offset
  rel_position ← peek (relative_offset +ℤ pos offset_width)
  base ← gets (λ s. s.base_offset)
  pure (rel_offset +ℤ base, rel_position)

unfoldable pub sync : Env → Exec Index Unit
sync env = do sys env 1 file_error; fd_sys env 2 true

unfoldable pub close : Env → Exec Index Unit
close env s = elim s.fd [
  | unset ↦ (ok tt, s)
  | _ ↦
      (do
        sys env 1 file_error
        modify (λ t. record t { mapped = false })
        fd_sys env 2 (leb_ℤ (pos 0) s.position)
        modify (λ t. record t { file = resize (to_ℕ s.position) t.file })
        fd_sys env 3 true
        modify (λ t. record t { fd = unset }))
        s
]

unfoldable pub sanity_check : Exec Index Unit
unfolding read
sanity_check s =
    if eqb_ℤ s.position (pos 0)
    then (ok tt, s)
    else if not (eqb_ℤ (rem_ℤ s.position entry_width) (pos 0))
    then (err index_error, s)
    else (do
      (rel_offset, rel_position) ← read (s.position -ℤ pos entry_width)
      guard (leb_ℤ s.base_offset rel_offset) index_error)
        s

unfoldable pub truncate_entries : ℤ → Exec Index Unit
truncate_entries nb s =
    if ltb_ℤ s.position (nb *ℤ entry_width)
    then (err index_error, s)
    else (ok tt, record s { position = nb *ℤ entry_width })

-- ::unlink
unfoldable pub delete_index : Env → Exec Index Unit
delete_index env s =
    if s.file.exists && succeeds (env (1 ∷ []))
    then (ok tt, record s { file = record s.file { exists = false } })
    else (err file_error, s)
