-- ===== src/Tools/Lines.antt =====
-- ClientHelpers.hh, and what the programs print, without the wording.
use mykafka.Prelude.{ℕ, Option, none, some, List, [], ◌∷◌, ◌++◌, if◌then◌else◌}
use mykafka.Prelude.Int.{ℤ, pos, ltb_ℤ}
use mykafka.Error.{ErrCode, success}
use mykafka.Names.{Text}
use mykafka.Config.Keys.{Key}
use mykafka.Broker.Messages.{OffsetsResponse}
use mykafka.Broker.Info.{InfoResponse}
use mykafka.Network.Client.{Status, good, bad}

pub data Line : Type 0 where
  invalid_topic invalid_partition invalid_action : Line
  cannot : ℕ → Line
  status_line : ℕ → Line
  code_line : ErrCode → Line
  offsets_line : OffsetsResponse → Line
  start_line wait_line : Line
  payload_line : ℤ → List ℕ → Line
  written_line : ℤ → Line
  created_line deleted_line : Key → Line
  topic_deleted_line : Text → Line
  info_line : InfoResponse → Line
  empty_log_dir : Line

-- The end of a program: its exit code, the lines, and the world behind it.
pub record Exit (W : Type 0) : Type 0 where
  pub code : ℕ
  pub lines : List Line
  pub world : W

-- A macro ends the program, with a code and a line, or goes on.
abbrev pub Check : Type 0
Check = Option (ℕ × Line)

-- CHECK_TOPIC
unfoldable pub check_topic : Text → Check
check_topic [] = some (2, invalid_topic)
check_topic (_ ∷ _) = none

-- CHECK_PARTITION
unfoldable pub check_partition : ℤ → Check
check_partition n = if ltb_ℤ n (pos 0) then some (3, invalid_partition) else none

-- CHECK_ERROR
unfoldable pub check_error : Status → ErrCode → Check
check_error (bad code) c = some (5, cannot code)
check_error good success = none
check_error good c = some (6, code_line c)

abbrev pub or_else {ℓ} : {A : Type ℓ} → Check → (ℕ × Line → A) → A → A
or_else (some stop) f a = f stop
or_else none f a = a

abbrev pub stopped : {W : Type 0} → List Line → W → ℕ × Line → Exit W
stopped before w (code, line) = record { code = code; lines = before ++ line ∷ []; world = w }

-- What is printed first, in front of what a loop prints.
abbrev pub prepend : {W : Type 0} → List Line → Option (List Line × W) → Option (List Line × W)
prepend lines none = none
prepend lines (some (rest, w)) = some (lines ++ rest, w)

abbrev pub exits : {W : Type 0} → List Line → Option (List Line × W) → Option (Exit W)
exits before none = none
exits before (some (lines, w)) = some (record { code = 0; lines = before ++ lines; world = w })
