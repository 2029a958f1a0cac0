-- ===== src/Network/Client.antt =====
-- network/Client.cc: a call of the client, with its attempts.
use mykafka.Prelude.{ℕ, zero, suc, Bool, true, false, Option, none, some, [], if◌then◌else◌}
use mykafka.Prelude.Int.{ℤ, pos, ltb_ℤ}
use mykafka.Error.{ErrCode, success}
use mykafka.Broker.Messages.{SendResponse, GetResponse, OffsetsResponse}
use mykafka.Broker.Info.{InfoResponse}
use mykafka.Network.Requests.{
  Request, send, fetch, offsets, info, create, delete, delete_all, Response, sent, fetched,
  told_offsets, told_info, done,
}

-- grpc::Status; the message of an error is left out.
pub data Status : Type 0 where
  good : Status
  bad : ℕ → Status

-- The type of the response to a request, and a new object of it.
abbrev pub Reply : Request → Type 0
Reply (send _ _) = SendResponse
Reply (fetch _ _) = GetResponse
Reply (offsets _) = OffsetsResponse
Reply info = InfoResponse
Reply (create _) = ErrCode
Reply (delete _) = ErrCode
Reply (delete_all _) = ErrCode

abbrev pub response : (q : Request) → Reply q → Response
response (send _ _) r = sent r
response (fetch _ _) r = fetched r
response (offsets _) r = told_offsets r
response info r = told_info r
response (create _) r = done r
response (delete _) r = done r
response (delete_all _) r = done r

abbrev pub no_reply : (q : Request) → Reply q
no_reply (send _ _) = record { code = success; offset = pos 0 }
no_reply (fetch _ _) = record { code = success; payload = [] }
no_reply (offsets _) = record {
  code = success;
  first_offset = pos 0;
  commit_offset = pos 0;
  last_offset = pos 0;
}
no_reply info = record { code = success; topics = []; configs = [] }
no_reply (create _) = success
no_reply (delete _) = success
no_reply (delete_all _) = success

-- The end of a call: its status, the response object, and the world behind it.
abbrev pub Answer : Type 0 → Request → Type 0
Answer W q = Status × Reply q × W

-- gRPC, in a world `W` that it changes: a method of the stub, with a deadline if one is set, and
-- WaitForConnected of the channel.
pub record Link (W : Type 0) : Type 0 where
  pub call : Option ℤ → (q : Request) → Reply q → W → Answer W q
  pub wait_for_connected : ℤ → W → Bool × W

-- class Client
pub record Client (W : Type 0) : Type 0 where
  pub client_connection_timeout : ℤ
  pub reconnect_timeout : ℤ
  pub link : Link W

module _ {W : Type 0} where
  -- Client::Client, with its default timeout in `default_client`
  unfoldable pub new_client : Link W → ℤ → Client W
  new_client link client_connection_timeout = record {
    client_connection_timeout = client_connection_timeout;
    reconnect_timeout = pos 30000;
    link = link;
  }

  unfoldable pub default_client : Link W → Client W
  unfolding new_client
  default_client link = new_client link (pos 200)

  unfoldable pub reconnect : Client W → W → Bool × W
  reconnect c w = c.link.wait_for_connected c.reconnect_timeout w

  -- context.set_deadline, and the call of the stub
  unfoldable pub attempt : Client W → (q : Request) → Reply q → W → Answer W q
  attempt c q r w =
      c.link.call
        (if ltb_ℤ (pos 0) c.client_connection_timeout
          then some c.client_connection_timeout
          else none)
        q r w

  -- The loop of METHOD_IMPL, for at most the given rounds.
  unfoldable pub retry : ℕ → Client W → (q : Request) → Answer W q → Option (Answer W q)
  unfolding reconnect attempt
  retry fuel c q (good, r, w) = some (good, r, w)
  retry zero c q (bad code, r, w) = none
  retry (suc fuel) c q (bad code, r, w) = retry fuel c q (attempt c q r (reconnect c w).1)

  -- METHOD_IMPL, which is each of the methods; with `try_reconnect` it is not bounded.
  unfoldable pub method : ℕ → Client W → (q : Request) → Reply q → Bool → W → Option (Answer W q)
  unfolding retry
  method fuel c q r true w = retry fuel c q (attempt c q r w)
  method fuel c q r false w = some (attempt c q r w)
