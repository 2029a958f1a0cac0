-- ===== src/Segment/Write.antt =====
-- Segment::write of commitlog/Segment.cc.
use mykafka.Prelude.{ℕ, Bool, true, ◌&&◌, List, [], ◌∷◌, ◌++◌, if◌then◌else◌, length, take}
use mykafka.Prelude.Int.{ℤ, pos, negsuc, ◌+ℤ◌, leb_ℤ, eqb_ℤ, to_int32}
use mykafka.Prelude.Bytes.{int64_bytes, int32_bytes}
use mykafka.Error.{log_error, ok, err, Exec, pure, gets, modify, ◌>>=◌, ◌>>◌}
use mykafka.Env.{Env, succeeds, written}
use mykafka.Index
use mykafka.Index.{is_valid, to_ℕ}
use mykafka.Segment.State.{Segment, header_size, on_index, is_empty}

-- ::write to the log, opened with O_APPEND: it may write less, and then it is an error.
unfoldable pub append : Env → ℕ → ℤ → Bool → List ℕ → Exec Segment Unit
append env k now legal bytes s =
    let r = env (k ∷ []) in
    let added = written r bytes in
    if is_valid s.fd && legal
    then (
      if succeeds r then ok tt else err log_error,
      record s {
        log = record s.log {
          content = s.log.content ++ added;
          modified = if is_empty added then s.log.modified else now;
        };
      },
    )
    else (err log_error, s)

-- ::write of the payload: with the size -1, which it refuses, it answers what the code compares with.
unfoldable pub append_payload : Env → ℤ → ℤ → List ℕ → Exec Segment Unit
unfolding append
append_payload env now payload_size payload s =
    if eqb_ℤ payload_size (negsuc 0)
    then (ok tt, s)
    else append env 2 now (leb_ℤ (pos 0) payload_size) (take (to_ℕ payload_size) payload) s

-- The header of a message: struct Entry.
unfoldable pub header : ℤ → ℤ → List ℕ
unfolding int64_bytes int32_bytes
header offset size = int64_bytes offset ++ int32_bytes size

-- Both overloads of `write`; the offset of the message is handed over.
unfoldable pub write : Env → ℤ → List ℕ → Exec Segment ℤ
unfolding append append_payload
write env now payload = do
  let payload_size = to_int32 (pos (length payload))
  offset ← gets (λ s. s.next_offset)
  append env 1 now true (header offset payload_size)
  append_payload env now payload_size payload
  position ← gets (λ s. s.position)
  on_index (Index.write offset position)
  modify (λ s. record s {
    next_offset = s.next_offset +ℤ pos 1;
    position = s.position +ℤ (pos header_size +ℤ payload_size);
    physical_size = s.physical_size +ℤ (pos header_size +ℤ payload_size);
  })
  pure offset
