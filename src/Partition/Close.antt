-- ===== src/Partition/Close.antt =====
-- Partition::close and Partition::deletePartition of commitlog/Partition.cc.
use mykafka.Prelude.{Bool, true, false, List, [], ◌∷◌, if◌then◌else◌}
use mykafka.Prelude.Int.{pos}
use mykafka.Error.{ok, fault, Exec, ◌>>◌}
use mykafka.Env.{Env, succeeds, sub}
use mykafka.Segment.State.{Segment}
use mykafka.Segment.Close
use mykafka.Segment.Close.{destroyed}
use mykafka.Partition.State.{Partition, put_back}

-- The loop of `close`: each segment that closes is deleted. At an error the rest stays, with pointers
-- to the deleted ones in front of it.
unfoldable pub close_loop : Env → List Segment → Bool → Exec Partition Unit
close_loop env [] some_freed p = (ok tt, record p { segments = []; freed = false })
close_loop env (s ∷ rest) some_freed p =
    let (r, s') = Close.close (sub env 1) s in
    let next =
      close_loop (sub env 2) rest true
        (record p { dir = put_back (destroyed (sub env 3) s') p.dir }) in
    elim r [ ok _ ↦ next | bad ↦ (bad, record p { segments = s' ∷ rest; freed = some_freed }) ]

unfoldable pub close : Env → Exec Partition Unit
unfolding close_loop
close env p =
    if p.freed
    then (fault, p)
    else close_loop env p.segments false
        (record p { cancel = true; active = false; physical_size = pos 0 })

-- fs::remove_all; nothing catches its exception
unfoldable pub remove_all : Env → Exec Partition Unit
remove_all env p = if succeeds (env []) then (ok tt, record p { dir = [] }) else (fault, p)

unfoldable pub delete_partition : Env → Exec Partition Unit
unfolding close remove_all
delete_partition env = do close (sub env 1); remove_all (sub env 2)
