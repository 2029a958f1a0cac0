-- ===== src/Segment/Sizes.antt =====
-- No method of a segment changes its maximal size.
use mykafka.Prelude.{
  ℕ, zero, suc, ◌≡◌, refl, ◌∙◌, true, Option, none, some, List, [], length, if◌then◌else◌, arith,
}
use mykafka.Prelude.Int.{ℤ, pos}
use mykafka.Error.{Outcome, ok, err, fault, out_of_fuel, Exec}
use mykafka.Env.{Env, sub}
use mykafka.Index.{to_ℕ, open_file, sanity_check, truncate_entries, valid}
use mykafka.Segment.State.{Segment}
use mykafka.Segment.Write.{write}
use mykafka.Segment.Recover.{
  reconstruct_step, go_on, reconstruct_loop, reconstruct, close_both, open_segment,
}

abbrev pub Keeps : {A : Type 0} → Exec Segment A → Type 0
Keeps m = (s : Segment) → (m s).1.max_size ≡ s.max_size

pub write-Keeps : (env : Env) (now : ℤ) (payload : List ℕ) → Keeps (write env now payload)
unfolding write
write-Keeps env now payload s = ground arith

reconstruct_step-Keeps : (env : Env) (cursor : ℕ) → Keeps (reconstruct_step env cursor)
unfolding reconstruct_step
reconstruct_step-Keeps env cursor s = ground arith

go_on-Keeps :
    (rest : ℕ → Exec Segment Unit) (r : Outcome (Option ℕ)) (s t : Segment)
    → t.max_size ≡ s.max_size
    → ((next : ℕ) → Keeps (rest next))
    → (go_on rest (r, t)).1.max_size ≡ s.max_size
unfolding go_on
go_on-Keeps rest (ok none) s t e keeps = e
go_on-Keeps rest (ok (some next)) s t e keeps = keeps next t ∙ e
go_on-Keeps rest (err c) s t e keeps = e
go_on-Keeps rest fault s t e keeps = e
go_on-Keeps rest out_of_fuel s t e keeps = e

reconstruct_loop-Keeps :
    (fuel : ℕ) (env : Env) (cursor : ℕ) → Keeps (reconstruct_loop fuel env cursor)
unfolding reconstruct_loop
reconstruct_loop-Keeps zero env cursor s = refl
reconstruct_loop-Keeps (suc fuel) env cursor s =
    go_on-Keeps (reconstruct_loop fuel (sub env 4)) (reconstruct_step env cursor s).0 s
      (reconstruct_step env cursor s).1 (reconstruct_step-Keeps env cursor s)
      (reconstruct_loop-Keeps fuel (sub env 4))

reconstruct-Keeps : (env : Env) → Keeps (reconstruct env)
unfolding reconstruct
reconstruct-Keeps env s =
    ground (arith, reconstruct_loop-Keeps (suc (to_ℕ s.index.size)) (sub env 2) 0 s)

close_both-Keeps : (env : Env) (m : Exec Segment Unit) → Keeps m → Keeps (close_both env m)
unfolding close_both
close_both-Keeps env m keeps s = ground (arith, keeps s)

pub open_segment-Keeps : (env : Env) (now : ℤ) → Keeps (open_segment env now)
unfolding open_segment
open_segment-Keeps env now s =
    let index = (truncate_entries (pos 0) (sanity_check (open_file (sub env 1) s.index).1).1).1 in
    let log =
      if s.log.exists then s.log else record { exists = true; content = []; modified = now } in
    let t = record s {
      index = index;
      fd = valid;
      log = log;
      physical_size = pos (length log.content);
      mtime = log.modified;
      fd_read = valid;
    } in
    ground (arith, close_both-Keeps env (reconstruct (sub env 5)) (reconstruct-Keeps (sub env 5)) t)
