-- ===== src/Config/Load.antt =====
-- ConfigManager::load.
use mykafka.Prelude.{Option, none, some, List, [], ◌∷◌, if◌then◌else◌}
use mykafka.Error.{Outcome, ok, err, fault, Exec, pure, ◌>>◌}
use mykafka.Env.{Env, sub, succeeds}
use mykafka.Config.Keys.{Key, read_key}
use mykafka.Config.State.{ConfigFile, ConfigManager}
use mykafka.Config.Open.{open_key}

-- The error of `open` is dropped; undefined behaviour is not.
unfoldable pub drop_error : Outcome (Unit {0}) → Outcome (Unit {0})
drop_error (err c) = ok tt
drop_error r = r

unfoldable pub load_key : Env → Option Key → Exec ConfigManager Unit
unfolding drop_error
load_key env none m = (ok tt, m)
load_key env (some key) m = let (r, m') = open_key env key m in (drop_error r, m')

unfoldable pub load_files : Env → List ConfigFile → Exec ConfigManager Unit
unfolding load_key
load_files env [] = pure tt
load_files env (f ∷ files) = do
  load_key (sub env 1) (if f.regular then read_key f.stem else none)
  load_files (sub env 2) files

-- The directory is walked in its order; nothing catches the exception of directory_iterator.
unfoldable pub load : Env → Exec ConfigManager Unit
unfolding load_files
load env m = if succeeds (env (0 ∷ [])) then load_files (sub env 1) m.dir m else (fault, m)
