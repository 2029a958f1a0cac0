-- ===== src/Config/Close.antt =====
-- ConfigManager::close, its two overloads and its helper, and ConfigManager::remove.
use mykafka.Prelude.{false, not, ◌&&◌, none, some, List, [], ◌∷◌, if◌then◌else◌}
use mykafka.Error.{file_error, not_found, Outcome, ok, err, fault, Exec, ◌>>◌}
use mykafka.Env.{Env, succeeds, sub}
use mykafka.Index.{dangling, is_valid}
use mykafka.Config.Keys.{Key, key_name}
use mykafka.Config.State.{
  CfgInfo, ConfigManager, find_config, set_config, erase_config, remove_file,
}

-- The helper: ::munmap, which accepts memory that is not mapped, and ::close. Both leave the entry
-- with what they did.
unfoldable pub close_info : Env → Exec CfgInfo Unit
close_info env c =
    if not (succeeds (env (1 ∷ [])))
    then (err file_error, c)
    else if is_valid c.fd && succeeds (env (2 ∷ []))
    then (ok tt, record c { mapped = false; fd = dangling })
    else (err file_error, record c { mapped = false; fd = dangling })

-- What `close` does with the entry that it found.
unfoldable pub closed : Key → Outcome (Unit {0}) × CfgInfo → Exec ConfigManager Unit
closed key (ok _, c) m = (ok tt, record m { configs = erase_config key m.configs })
closed key (r, c) m = (r, record m { configs = set_config key c m.configs })

unfoldable pub close_key : Env → Key → Exec ConfigManager Unit
unfolding close_info closed
close_key env key m = elim (find_config key m.configs) [
  | none ↦ (err not_found, m)
  | some c ↦ closed key (close_info (sub env 1) c) m
]

-- fs::remove; nothing catches its exception
unfoldable pub remove_cfg : Env → Key → Exec ConfigManager Unit
remove_cfg env key m =
    if succeeds (env [])
    then (ok tt, record m { dir = remove_file (key_name key) m.dir })
    else (fault, m)

unfoldable pub remove : Env → Key → Exec ConfigManager Unit
unfolding close_key remove_cfg
remove env key = do close_key (sub env 1) key; remove_cfg (sub env 2) key

-- The loop of `close`: the entries that it passed keep what was done to them.
unfoldable pub close_all : Env → List (Key × CfgInfo) → Outcome (Unit {0}) × List (Key × CfgInfo)
unfolding close_info
close_all env [] = (ok tt, [])
close_all env ((k, c) ∷ configs) =
    let (r, c') = close_info (sub env 1) c in
    let (r', configs') = close_all (sub env 2) configs in
    elim r [ ok _ ↦ (r', (k, c') ∷ configs') | bad ↦ (bad, (k, c') ∷ configs) ]

unfoldable pub cleared : Outcome (Unit {0}) × List (Key × CfgInfo) → Exec ConfigManager Unit
cleared (ok _, configs) m = (ok tt, record m { configs = [] })
cleared (r, configs) m = (r, record m { configs = configs })

unfoldable pub close : Env → Exec ConfigManager Unit
unfolding close_all cleared
close env m = cleared (close_all env m.configs) m
