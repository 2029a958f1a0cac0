-- ===== src/Segment/Recover.antt =====
-- Segment::open and Segment::reconstructIndexAndGetLastOffset of commitlog/Segment.cc: the index is
-- rebuilt from the log.
use mykafka.Prelude.{
  ℕ, zero, suc, ◌+◌, not, ◌&&◌, Option, none, some, List, [], ◌∷◌, if◌then◌else◌, length, take,
  drop, true,
}
use mykafka.Prelude.Int.{ℤ, pos, negsuc, ◌+ℤ◌, leb_ℤ}
use mykafka.Prelude.Bytes.{int64_bytes, int32_bytes, int64_of, int32_of, overlay}
use mykafka.Error.{
  file_error, log_error, Outcome, ok, err, fault, out_of_fuel, Exec, pure, gets, guard, modify,
  ◌>>=◌, ◌>>◌,
}
use mykafka.Env.{Env, succeeds, sub, sys}
use mykafka.Index
use mykafka.Index.{unset, valid, dangling, to_ℕ}
use mykafka.Segment.State.{Segment, offset_size, size_size, header_size, on_index, is_empty}

-- One round of the loop of `reconstructIndexAndGetLastOffset`, with the bytes that its two calls of
-- ::read find at a place of the log: the place where the next round starts, or `none` at a `break`.
unfoldable pub reconstruct_read : Env → ℕ → List ℕ → List ℕ → Exec Segment (Option ℕ)
reconstruct_read env cursor offset_read size_read s =
    let offset = int64_of (overlay offset_read (int64_bytes s.next_offset)) in
    let size = int32_of (overlay size_read (int32_bytes (negsuc 0))) in
    let after = pos (cursor + length offset_read + length size_read) +ℤ size in
    if not (succeeds (env (1 ∷ [])))
    then (err log_error, s)
    else if is_empty offset_read
    then (ok none, s)
    else (do
      modify (λ t. record t { next_offset = offset })
      guard (succeeds (env (2 ∷ [])) && not (is_empty size_read)) log_error
      on_index (Index.write offset s.position)
      modify (λ t. record t {
        position = t.position +ℤ (size +ℤ pos header_size);
        next_offset = t.next_offset +ℤ pos 1;
      })
      pure (if succeeds (env (3 ∷ [])) && leb_ℤ (pos 0) after then some (to_ℕ after) else none))
        s

unfoldable pub reconstruct_step : Env → ℕ → Exec Segment (Option ℕ)
unfolding reconstruct_read
reconstruct_step env cursor s =
    let offset_read = take offset_size (drop cursor s.log.content) in
    reconstruct_read env cursor offset_read
      (take size_size (drop (cursor + length offset_read) s.log.content)) s

-- What follows a round: the end of the loop, or the rounds behind it.
unfoldable pub go_on :
    (ℕ → Exec Segment Unit) → Outcome (Option ℕ) × Segment → Outcome (Unit {0}) × Segment
go_on rest (ok none, s) = (ok tt, s)
go_on rest (ok (some next), s) = rest next s
go_on rest (err c, s) = (err c, s)
go_on rest (fault, s) = (fault, s)
go_on rest (out_of_fuel, s) = (out_of_fuel, s)

-- The loop, for at most the given rounds.
unfoldable pub reconstruct_loop : ℕ → Env → ℕ → Exec Segment Unit
unfolding go_on
reconstruct_loop zero env cursor s = (out_of_fuel, s)
reconstruct_loop (suc fuel) env cursor s =
    go_on (reconstruct_loop fuel (sub env 4)) (reconstruct_step env cursor s)

-- Each round adds an entry to the index, so its size bounds the rounds.
unfoldable pub reconstruct : Env → Exec Segment Unit
reconstruct env = do
  sys env 1 log_error
  fuel ← gets (λ s. suc (to_ℕ s.index.size))
  reconstruct_loop fuel (sub env 2) 0

-- ::open of the log for appending, with O_CREAT
unfoldable pub open_log : Env → ℤ → Exec Segment Unit
open_log env now s =
    if succeeds (env (2 ∷ []))
    then (
      ok tt,
      record s {
        fd = valid;
        log =
            if s.log.exists then s.log else record { exists = true; content = []; modified = now };
      },
    )
    else (err file_error, record s { fd = unset })

-- ::open of the log for reading
unfoldable pub open_log_read : Env → Exec Segment Unit
open_log_read env s =
    if succeeds (env (4 ∷ []))
    then (ok tt, record s { fd_read = valid })
    else (err file_error, record s { fd = dangling; fd_read = unset })

-- What `open` does when the reconstruction failed: it closes both descriptors.
unfoldable pub close_both : Env → Exec Segment Unit → Exec Segment Unit
close_both env m s =
    let (r, s') = m s in
    let closed =
      (if not (succeeds (env (6 ∷ [])))
        then (err file_error, record s' { fd = dangling })
        else if not (succeeds (env (7 ∷ [])))
        then (err file_error, record s' { fd = dangling; fd_read = dangling })
        else (r, record s' { fd = dangling; fd_read = dangling })) in
    elim r [ ok _ ↦ (ok tt, s') | _ ↦ closed ]

unfoldable pub open_segment : Env → ℤ → Exec Segment Unit
unfolding open_log open_log_read close_both
open_segment env now = do
  on_index (Index.open_file (sub env 1))
  on_index Index.sanity_check
  on_index (Index.truncate_entries (pos 0))
  open_log env now
  sys env 3 file_error
  modify (λ s. record s { physical_size = pos (length s.log.content); mtime = s.log.modified })
  open_log_read env
  close_both env (reconstruct (sub env 5))
