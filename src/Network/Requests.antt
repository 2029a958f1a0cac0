-- ===== src/Network/Requests.antt =====
-- The requests of protos/mykafka.proto, and what `process` of each service does with the broker.
use mykafka.Prelude.{ℕ, Bool, true, false, List}
use mykafka.Prelude.Int.{ℤ}
use mykafka.Error.{ErrCode, Outcome, ok, err, fault, out_of_fuel, Exec}
use mykafka.Env.{Env}
use mykafka.Names.{Text}
use mykafka.Config.Keys.{Key}
use mykafka.Broker.State.{Broker}
use mykafka.Broker.Create.{TopicRequest, create_partition}
use mykafka.Broker.Delete.{delete_partition, delete_topic}
use mykafka.Broker.Messages.{
  SendResponse, GetResponse, OffsetsResponse, respond, send_message, get_message, get_offsets,
}
use mykafka.Broker.Info.{InfoResponse, get_topic_info}

-- The services, one for each call of `service Broker`.
pub data Kind : Type 0 where
  sends fetches asks_offsets asks_info creates deletes deletes_topic : Kind

-- A call that a client made.
pub data Request : Type 0 where
  send : Key → List ℕ → Request
  fetch : Key → ℤ → Request
  offsets : Key → Request
  info : Request
  create : TopicRequest → Request
  delete : Key → Request
  delete_all : Text → Request

pub data Response : Type 0 where
  sent : SendResponse → Response
  fetched : GetResponse → Response
  told_offsets : OffsetsResponse → Response
  told_info : InfoResponse → Response
  done : ErrCode → Response

abbrev pub kind_of : Request → Kind
kind_of (send _ _) = sends
kind_of (fetch _ _) = fetches
kind_of (offsets _) = asks_offsets
kind_of info = asks_info
kind_of (create _) = creates
kind_of (delete _) = deletes
kind_of (delete_all _) = deletes_topic

abbrev pub same_kind : Kind → Kind → Bool
same_kind sends sends = true
same_kind fetches fetches = true
same_kind asks_offsets asks_offsets = true
same_kind asks_info asks_info = true
same_kind creates creates = true
same_kind deletes deletes = true
same_kind deletes_topic deletes_topic = true
same_kind _ _ = false

abbrev pub answers : {A B : Type 0} → (A → B) → Outcome A → Outcome B
answers f (ok a) = ok (f a)
answers f (err c) = err c
answers f fault = fault
answers f out_of_fuel = out_of_fuel

-- An `mykafka::Error` is a response by itself.
abbrev pub status : Outcome (Unit {0}) × Broker → Outcome Response × Broker
status (r, b) = (respond done r, b)

-- The call of the broker in `process` of each service.
unfoldable pub process_send : Env → ℤ → Key → List ℕ → Exec Broker Response
process_send env now key payload b =
    let (r, b') = send_message env now key payload b in (answers sent r, b')

unfoldable pub process_fetch : Env → Key → ℤ → Exec Broker Response
process_fetch env key offset b = (answers fetched (get_message env key offset b), b)

unfoldable pub process_offsets : Key → Exec Broker Response
process_offsets key b = (answers told_offsets (get_offsets key b), b)

unfoldable pub process_info : Exec Broker Response
process_info b = (answers told_info (get_topic_info b), b)

unfoldable pub process_create : Env → ℤ → TopicRequest → Exec Broker Response
unfolding respond
process_create env now request b = status (create_partition env now request b)

unfoldable pub process_delete : Env → Key → Exec Broker Response
unfolding respond
process_delete env key b = status (delete_partition env key b)

unfoldable pub process_delete_all : Env → Text → Exec Broker Response
unfolding respond
process_delete_all env topic b = status (delete_topic env topic b)

-- `process`, by the class of the object.
unfoldable pub serve : Env → ℤ → Request → Exec Broker Response
unfolding process_send process_fetch process_offsets process_info process_create process_delete
    process_delete_all
serve env now (send key payload) = process_send env now key payload
serve env now (fetch key offset) = process_fetch env key offset
serve env now (offsets key) = process_offsets key
serve env now info = process_info
serve env now (create request) = process_create env now request
serve env now (delete key) = process_delete env key
serve env now (delete_all topic) = process_delete_all env topic
