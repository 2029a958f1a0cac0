-- ===== src/Broker/Messages.antt =====
-- Broker::sendMessage, getMessage and getOffsets.
use mykafka.Prelude.{ℕ, none, some, List, [], if◌then◌else◌}
use mykafka.Prelude.Int.{ℤ, pos, ◌-ℤ◌, ltb_ℤ}
use mykafka.Error.{
  ErrCode, success, topic_error, no_message, Outcome, ok, err, fault, out_of_fuel, Exec,
}
use mykafka.Env.{Env}
use mykafka.Partition.State.{Partition}
use mykafka.Partition.Write
use mykafka.Partition.Read
use mykafka.Config.Keys.{Key}
use mykafka.Config.State.{RawInfo}
use mykafka.Config.Table.{get, update_commit_offset}
use mykafka.Broker.State.{Broker, find_topic, set_topic}

-- SendMessageResponse, GetMessageResponse and GetOffsetsResponse; a field that is not set has the
-- default of protobuf.
pub record SendResponse : Type 0 where
  pub code : ErrCode
  pub offset : ℤ

pub record GetResponse : Type 0 where
  pub code : ErrCode
  pub payload : List ℕ

pub record OffsetsResponse : Type 0 where
  pub code : ErrCode
  pub first_offset : ℤ
  pub commit_offset : ℤ
  pub last_offset : ℤ

-- A response with the code of a call; a fault has none.
unfoldable pub respond : {A B : Type 0} → (ErrCode → B) → Outcome A → Outcome B
respond response (ok _) = ok (response success)
respond response (err c) = ok (response c)
respond response fault = fault
respond response out_of_fuel = out_of_fuel

-- `sendMessage` behind the write: the commit offset becomes that of the message.
unfoldable pub sent : Key → Outcome ℤ × Partition → Exec Broker SendResponse
unfolding respond
sent key (ok offset, p) b =
    let (r, config) = update_commit_offset key offset b.config in
    (
      respond (λ code. record { code = code; offset = offset }) r,
      record b { topics = set_topic key p b.topics; config = config },
    )
sent key (r, p) b = (
  respond (λ code. record { code = code; offset = pos 0 }) r,
  record b { topics = set_topic key p b.topics },
)

unfoldable pub send_message : Env → ℤ → Key → List ℕ → Exec Broker SendResponse
unfolding sent
send_message env now key payload b = elim (find_topic key b.topics) [
  | none ↦ (ok (record { code = topic_error; offset = pos 0 }), b)
  | some p ↦ sent key (Write.write env now payload p) b
]

-- `getMessage` behind the lookup of the partition: the payload is set whatever the code is.
unfoldable pub message_of : Outcome (Unit {0}) × List ℕ → Outcome GetResponse
unfolding respond
message_of (r, payload) = respond (λ code. record { code = code; payload = payload }) r

-- Behind the lookup of the configuration.
unfoldable pub message_up_to : Env → Key → ℤ → RawInfo → Broker → Outcome GetResponse
unfolding message_of
message_up_to env key offset info b =
    if ltb_ℤ info.commit_offset offset
    then ok (record { code = no_message; payload = [] })
    else elim (find_topic key b.topics) [
      | none ↦ ok (record { code = topic_error; payload = [] })
      | some p ↦ message_of (Read.read_at env p [] offset)
    ]

unfoldable pub get_message : Env → Key → ℤ → Broker → Outcome GetResponse
unfolding message_up_to
get_message env key offset b = elim ((get key b.config).0) [
  | ok info ↦ message_up_to env key offset info b
  | err c ↦ ok (record { code = c; payload = [] })
  | fault ↦ fault
  | out_of_fuel ↦ out_of_fuel
]

-- The answer with the offsets of a partition, and the commit offset if the configuration is there.
unfoldable pub offsets_of : ℤ → ℤ → Outcome RawInfo → Outcome OffsetsResponse
offsets_of first last (ok info) = ok (record {
  code = success;
  first_offset = first;
  commit_offset = info.commit_offset;
  last_offset = last -ℤ pos 1;
})
offsets_of first last (err c) =
    ok (record {
      code = c;
      first_offset = first;
      commit_offset = pos 0;
      last_offset = last -ℤ pos 1;
    })
offsets_of first last fault = fault
offsets_of first last out_of_fuel = out_of_fuel

unfoldable pub both_offsets : Outcome ℤ → Outcome ℤ → Outcome RawInfo → Outcome OffsetsResponse
unfolding offsets_of
both_offsets (ok first) (ok last) r = offsets_of first last r
both_offsets (ok first) bad r = fault
both_offsets bad last r = fault

unfoldable pub get_offsets : Key → Broker → Outcome OffsetsResponse
unfolding both_offsets
get_offsets key b = elim (find_topic key b.topics) [
  | none ↦ ok (record {
    code = topic_error;
    first_offset = pos 0;
    commit_offset = pos 0;
    last_offset = pos 0;
  })
  | some p ↦ both_offsets (Read.oldest_offset p) (Read.newest_offset p) (get key b.config).0
]
