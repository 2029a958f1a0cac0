-- ===== src/Config/Sessions.antt =====
-- Configurations that outlive the manager that wrote them.
use mykafka.Prelude.{◌≡◌, refl, none, []}
use mykafka.Prelude.Int.{ℤ}
use mykafka.Error.{ok}
use mykafka.Env.{calm}
use mykafka.Config.Keys.{Key, key_name}
use mykafka.Config.State.{ConfigManager, find_file, find_config}
use mykafka.Config.Open.{create, open_key, new_info}
use mykafka.Config.Table.{get, update_commit_offset}
use mykafka.Config.Bytes.{IsInt64}
use mykafka.Config.Holds.{create-Holds, update_commit_offset-Holds, open_key-Holds, get-Holds}

-- Another manager over the directory, before it loads.
abbrev pub restarted : ConfigManager → ConfigManager
restarted m = record { configs = []; dir = m.dir }

nothing_yet : (key : Key) → find_config key [] ≡ none
unfolding find_config
nothing_yet key = refl

module _ (key : Key) (seg_size part_size ttl o : ℤ) (m : ConfigManager)
    (no_file : find_file (key_name key) m.dir ≡ none) (absent : find_config key m.configs ≡ none)
    (seg : IsInt64 seg_size) (part : IsInt64 part_size) (time : IsInt64 ttl)
    (commit : IsInt64 o) where
  -- When no call fails, a configuration that neither the directory nor the table has can be
  -- created and its commit offset updated, and another manager over the directory can then open
  -- it and hands over the numbers that it was created with and the new commit offset, if all of
  -- them are int64_t values.
  pub commit-restarted :
      (m1 m2 m3 : ConfigManager) × (create calm key seg_size part_size ttl m ≡ (ok tt, m1))
      × (update_commit_offset key o m1 ≡ (ok tt, m2))
      × (open_key calm key (restarted m2) ≡ (ok tt, m3))
      × (get key m3 ≡ (ok (record (new_info seg_size part_size ttl) { commit_offset = o }), m3))
  unfolding new_info
  commit-restarted =
      let (m1, created, h1) = create-Holds key seg_size part_size ttl m no_file absent in
      let (m2, committed, h2) =
        update_commit_offset-Holds key (new_info seg_size part_size ttl) m1 h1 o in
      let info = record (new_info seg_size part_size ttl) { commit_offset = o } in
      let (m3, opened, h3) =
        open_key-Holds key info (restarted m2) h2.stored
          (record {
            max_segment_size = seg;
            max_partition_size = part;
            segment_ttl = time;
            commit_offset = commit;
          })
          (nothing_yet key) in
      (m1, m2, m3, created, committed, opened, get-Holds key info m3 h3)
