-- ===== src/Partition/State.antt =====
-- commitlog/Partition.hh: the state of a partition, which owns its directory.
use mykafka.Prelude.{Bool, true, false, ◌&&◌, List, [], ◌∷◌, if◌then◌else◌}
use mykafka.Prelude.Int.{ℤ, pos, leb_ℤ}
use mykafka.Names.{Text, print_offset, detect_base_offset, same_text}
use mykafka.Index.{File, absent}
use mykafka.Segment.State.{Segment, LogFile, no_log}
use mykafka.Segment.State
use mykafka.Segment.Read

-- What the directory has under one name: a log file and an index file. `is_log` says that the first
-- is a regular file with the extension ".log".
pub record Stored : Type 0 where
  pub stem : Text
  pub is_log : Bool
  pub log : LogFile
  pub index : File

-- class Partition. `active` says that `active_segment_` is not null; it is `segments_.back()` then,
-- since `open` and `write` set it so and `cleanOldSegments` keeps it. `freed` says that a `close`
-- that failed left pointers to deleted segments in `segments_`. The files of the segments are theirs
-- while they live; `dir` has the others.
pub record Partition : Type 0 where
  pub cancel : Bool
  pub max_segment_size : ℤ
  pub max_partition_size : ℤ
  pub segment_ttl : ℤ
  pub physical_size : ℤ
  pub active : Bool
  pub path : Text
  pub segments : List Segment
  pub freed : Bool
  pub dir : List Stored

-- Partition::Partition, over what the disk holds under the path
unfoldable pub new : Text → ℤ → ℤ → ℤ → List Stored → Partition
new path max_segment_size max_partition_size segment_ttl dir = record {
  cancel = false;
  max_segment_size = max_segment_size;
  max_partition_size = max_partition_size;
  segment_ttl = segment_ttl;
  physical_size = pos 0;
  active = false;
  path = path;
  segments = [];
  freed = false;
  dir = dir;
}

unfoldable pub stored_log : Text → List Stored → LogFile
stored_log name [] = no_log
stored_log name (e ∷ dir) = if same_text e.stem name then e.log else stored_log name dir

unfoldable pub stored_index : Text → List Stored → File
stored_index name [] = absent
stored_index name (e ∷ dir) = if same_text e.stem name then e.index else stored_index name dir

-- new Segment(path_, base_offset, max_segment_size_), over the files of that name
unfoldable pub new_segment : Partition → ℤ → Segment
new_segment p base_offset =
    State.new p.path base_offset p.max_segment_size (stored_log (print_offset base_offset) p.dir)
      (stored_index (print_offset base_offset) p.dir)

-- The files of a segment that is no more belong to the directory.
unfoldable pub put_back : Segment → List Stored → List Stored
put_back s [] =
    record {
      stem = print_offset (Read.base_offset s);
      is_log = true;
      log = s.log;
      index = s.index.file;
    }
    ∷ []
put_back s (e ∷ dir) =
    if same_text e.stem (print_offset (Read.base_offset s))
    then record e { log = s.log; index = s.index.file } ∷ dir
    else e ∷ put_back s dir

-- The files of a segment that opens are its own.
unfoldable pub take_out : Text → List Stored → List Stored
take_out name [] = []
take_out name (e ∷ dir) =
    let rest = take_out name dir in if same_text e.stem name then dir else e ∷ rest

-- std::sort
unfoldable pub insert_sorted : ℤ → List ℤ → List ℤ
insert_sorted a [] = a ∷ []
insert_sorted a (b ∷ l) = if leb_ℤ a b then a ∷ b ∷ l else b ∷ insert_sorted a l

unfoldable pub sort : List ℤ → List ℤ
unfolding insert_sorted
sort [] = []
sort (a ∷ l) = insert_sorted a (sort l)

-- The offsets that the names in the directory tell, in the order of the directory.
unfoldable pub listed : List Stored → List ℤ
listed [] = []
listed (e ∷ dir) =
    let base_offset = detect_base_offset e.stem in
    if e.is_log && e.log.exists && leb_ℤ (pos 0) base_offset
    then base_offset ∷ listed dir
    else listed dir

unfoldable pub fill_files_list : List Stored → List ℤ
unfolding sort listed
fill_files_list dir = sort (listed dir)
