-- ===== src/Segment/State.antt =====
-- commitlog/Segment.hh: the state of a segment, which owns its log file and its index.
use mykafka.Prelude.{ℕ, ◌+◌, Bool, false, List, [], ◌∷◌, true}
use mykafka.Prelude.Int.{ℤ, pos}
use mykafka.Error.{Exec}
use mykafka.Names.{Text, get_index_filename, get_log_filename}
use mykafka.Index
use mykafka.Index.{Index, File, Fd, unset}

abbrev pub offset_size : ℕ
offset_size = 8

abbrev pub size_size : ℕ
size_size = 4

abbrev pub header_size : ℕ
header_size = offset_size + size_size

-- The log file on disk.
pub record LogFile : Type 0 where
  pub exists : Bool
  pub content : List ℕ
  pub modified : ℤ

abbrev pub no_log : LogFile
no_log = record { exists = false; content = []; modified = pos 0 }

-- class Segment
pub record Segment : Type 0 where
  pub fd : Fd
  pub fd_read : Fd
  pub next_offset : ℤ
  pub position : ℤ
  pub physical_size : ℤ
  pub mtime : ℤ
  pub max_size : ℤ
  pub filename : Text
  pub index : Index
  pub log : LogFile

-- Segment::Segment, over what the disk holds under its two names
unfoldable pub new : Text → ℤ → ℤ → LogFile → File → Segment
unfolding Index.new get_index_filename get_log_filename
new path base_offset max_size log index_file = record {
  fd = unset;
  fd_read = unset;
  next_offset = base_offset;
  position = pos 0;
  physical_size = pos 0;
  mtime = pos 0;
  max_size = max_size;
  filename = get_log_filename path base_offset;
  index = Index.new (get_index_filename path base_offset) base_offset (pos 0) index_file;
  log = log;
}

-- A call of a method of the index.
abbrev pub on_index : {A : Type 0} → Exec Index A → Exec Segment A
on_index m s = let (r, index) = m s.index in (r, record s { index = index })

abbrev pub is_empty : List ℕ → Bool
is_empty [] = true
is_empty (_ ∷ _) = false
