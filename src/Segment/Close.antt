-- ===== src/Segment/Close.antt =====
-- Segment::close and Segment::deleteSegment of commitlog/Segment.cc.
use mykafka.Prelude.{false, ◌&&◌, [], if◌then◌else◌}
use mykafka.Prelude.Int.{pos}
use mykafka.Error.{file_error, ok, err, Exec, modify, ◌>>◌}
use mykafka.Env.{Env, succeeds, sub}
use mykafka.Index
use mykafka.Index.{Fd, unset, valid, dangling, is_valid}
use mykafka.Segment.State.{Segment, on_index}

-- ::close of a descriptor
abbrev close_fd : Env → Fd → Exec Segment Unit
close_fd env fd s = if is_valid fd && succeeds (env []) then (ok tt, s) else (err file_error, s)

unfoldable pub close : Env → Exec Segment Unit
close env s = elim s.fd [
  | unset ↦ (ok tt, s)
  | _ ↦
      (do
        close_fd (sub env 1) s.fd
        modify (λ t. record t { fd = dangling })
        close_fd (sub env 2) s.fd_read
        modify (λ t. record t {
          fd = unset;
          fd_read = unset;
          position = pos 0;
          mtime = pos 0;
          physical_size = pos 0;
        })
        on_index (Index.close (sub env 3)))
        s
]

-- ::unlink of the log
abbrev unlink_log : Env → Exec Segment Unit
unlink_log env s =
    if s.log.exists && succeeds (env [])
    then (ok tt, record s { log = record s.log { exists = false } })
    else (err file_error, s)

-- What `close` answers is dropped.
unfoldable pub delete_segment : Env → Exec Segment Unit
unfolding close
delete_segment env s =
    (do unlink_log (sub env 2); on_index (Index.delete_index (sub env 3))) (close (sub env 1) s).1

-- The destructors of the segment, which closes it, and of its index, which closes that.
unfoldable pub destroyed : Env → Segment → Segment
unfolding close
destroyed env s =
    let s' = (close (sub env 1) s).1 in record s' { index = (Index.close (sub env 2) s'.index).1 }
