-- ===== src/Network/Calls.antt =====
-- The methods of the class Client of network/Client.cc: each is METHOD_IMPL for its call.
use mykafka.Prelude.{ℕ, Bool, Option, List}
use mykafka.Prelude.Int.{ℤ}
use mykafka.Error.{ErrCode}
use mykafka.Names.{Text}
use mykafka.Config.Keys.{Key}
use mykafka.Broker.Create.{TopicRequest}
use mykafka.Broker.Messages.{SendResponse, GetResponse, OffsetsResponse}
use mykafka.Broker.Info.{InfoResponse}
use mykafka.Network.Requests.{send, fetch, offsets, info, create, delete, delete_all}
use mykafka.Network.Client.{Answer, Client, method}

module _ {W : Type 0} (attempts : ℕ) (c : Client W) where
  abbrev pub send_message :
      (key : Key) (payload : List ℕ)
      → SendResponse
      → Bool
      → W
      → Option (Answer W (send key payload))
  send_message key payload = method attempts c (send key payload)

  abbrev pub get_message :
      (key : Key) (offset : ℤ) → GetResponse → Bool → W → Option (Answer W (fetch key offset))
  get_message key offset = method attempts c (fetch key offset)

  abbrev pub create_partition :
      (request : TopicRequest) → ErrCode → Bool → W → Option (Answer W (create request))
  create_partition request = method attempts c (create request)

  abbrev pub delete_partition : (key : Key) → ErrCode → Bool → W → Option (Answer W (delete key))
  delete_partition key = method attempts c (delete key)

  abbrev pub delete_topic :
      (topic : Text) → ErrCode → Bool → W → Option (Answer W (delete_all topic))
  delete_topic topic = method attempts c (delete_all topic)

  abbrev pub get_offsets :
      (key : Key) → OffsetsResponse → Bool → W → Option (Answer W (offsets key))
  get_offsets key = method attempts c (offsets key)

  abbrev pub broker_info : InfoResponse → Bool → W → Option (Answer W info)
  broker_info = method attempts c info
