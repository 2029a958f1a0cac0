-- ===== src/Tools/Ctl.antt =====
-- main-ctl.cc. Its client has no deadline and does not reconnect, so a call is one attempt.
use mykafka.Prelude.{false, Option, none, some, [], ◌∷◌, if◌then◌else◌}
use mykafka.Prelude.Int.{pos, ltb_ℤ}
use mykafka.Error.{ErrCode, success}
use mykafka.Names.{Text, same_text}
use mykafka.Config.Keys.{Key}
use mykafka.Broker.Create.{TopicRequest}
use mykafka.Network.Requests.{offsets, info}
use mykafka.Network.Client.{Status, Link, Client, new_client, no_reply}
use mykafka.Network.Calls
use mykafka.Tools.Lines.{
  Line, invalid_action, offsets_line, created_line, deleted_line, topic_deleted_line, info_line,
  Exit, check_topic, check_partition, check_error, or_else, stopped,
}

-- The options, with the key and the limits in the form of a request.
pub record CtlOptions : Type 0 where
  pub action : Text
  pub request : TopicRequest

abbrev pub create_word : Text
create_word = b'c' ∷ b'r' ∷ b'e' ∷ b'a' ∷ b't' ∷ b'e' ∷ []

abbrev pub delete_word : Text
delete_word = b'd' ∷ b'e' ∷ b'l' ∷ b'e' ∷ b't' ∷ b'e' ∷ []

abbrev pub offsets_word : Text
offsets_word = b'o' ∷ b'f' ∷ b'f' ∷ b's' ∷ b'e' ∷ b't' ∷ b's' ∷ []

abbrev pub info_word : Text
info_word = b'i' ∷ b'n' ∷ b'f' ∷ b'o' ∷ []

module _ {W : Type 0} where
  -- Behind a call: CHECK_ERROR, and the line of its success. A call without `try_reconnect` ends.
  unfoldable pub ask :
      {R : Type 0} → (R → ErrCode) → (R → Line) → W → Option (Status × R × W) → Exit W
  ask code line w none = record { code = 0; lines = []; world = w }
  ask code line w (some (status, r, w')) =
      or_else (check_error status (code r)) (stopped [] w')
        (record { code = 0; lines = line r ∷ []; world = w' })

  unfoldable pub on_delete : Client W → Key → W → Exit W
  unfolding ask
  on_delete c key w =
      if ltb_ℤ key.partition (pos 0)
      then ask (λ r. r) (λ _. topic_deleted_line key.topic) w
          (Calls.delete_topic 0 c key.topic success false w)
      else ask (λ r. r) (λ _. deleted_line key) w (Calls.delete_partition 0 c key success false w)

  unfoldable pub ctl : Link W → CtlOptions → W → Exit W
  unfolding on_delete
  ctl link o w =
      let c = new_client link (pos 0) in
      let key = o.request.key in
      if same_text o.action create_word
      then or_else (check_topic key.topic) (stopped [] w) (
          or_else (check_partition key.partition) (stopped [] w) (
            ask (λ r. r) (λ _. created_line key) w
              (Calls.create_partition 0 c o.request success false w)))
      else if same_text o.action delete_word
      then or_else (check_topic key.topic) (stopped [] w) (on_delete c key w)
      else if same_text o.action offsets_word
      then or_else (check_topic key.topic) (stopped [] w) (
          or_else (check_partition key.partition) (stopped [] w) (
            ask (λ r. r.code) (λ r. offsets_line r) w
              (Calls.get_offsets 0 c key (no_reply (offsets key)) false w)))
      else if same_text o.action info_word
      then ask (λ r. r.code) (λ r. info_line r) w (Calls.broker_info 0 c (no_reply info) false w)
      else stopped [] w (4, invalid_action)
