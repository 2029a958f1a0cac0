-- ===== src/Tools/Producer.antt =====
-- main-producer.cc.
use mykafka.Prelude.{ℕ, true, Option, none, some, List, [], ◌∷◌}
use mykafka.Error.{success}
use mykafka.Config.Keys.{Key}
use mykafka.Broker.Messages.{SendResponse}
use mykafka.Network.Requests.{send}
use mykafka.Network.Client.{Status, good, bad, Link, Client, default_client, no_reply}
use mykafka.Network.Calls
use mykafka.Tools.Lines.{
  Line, status_line, code_line, start_line, written_line, Exit, check_topic, check_partition,
  or_else, stopped, prepend, exits,
}

unfoldable pub report : Status → SendResponse → Line
report (bad code) r = status_line code
report good r = elim r.code [ success ↦ written_line r.offset | c ↦ code_line c ]

-- The loop over the lines of the standard input.
unfoldable pub send_lines :
    {W : Type 0} → ℕ → Client W → Key → List (List ℕ) → W → Option (List Line × W)
unfolding report
send_lines attempts c key [] w = some ([], w)
send_lines attempts c key (line ∷ input) w =
    elim (Calls.send_message attempts c key line (no_reply (send key line)) true w) [
      | none ↦ none
      | some a ↦
          let (status, r, w') = a in
          prepend (report status r ∷ []) (send_lines attempts c key input w')
    ]

unfoldable pub producer : {W : Type 0} → ℕ → Link W → Key → List (List ℕ) → W → Option (Exit W)
unfolding send_lines
producer attempts link key input w =
    or_else (check_topic key.topic) (λ e. some (stopped [] w e))
      (or_else (check_partition key.partition) (λ e. some (stopped [] w e))
        (exits (start_line ∷ []) (send_lines attempts (default_client link) key input w)))
