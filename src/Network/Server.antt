-- ===== src/Network/Server.antt =====
-- RpcService, RpcServer and BrokerServer: the objects of the services, which gRPC knows by their
-- addresses.
use mykafka.Prelude.{ℕ, suc, Bool, ◌==◌, Option, none, some, List, [], ◌∷◌, if◌then◌else◌}
use mykafka.Prelude.Int.{ℤ}
use mykafka.Error.{Outcome, ok, err, fault, out_of_fuel, Exec}
use mykafka.Env.{Env}
use mykafka.Broker.State.{Broker}
use mykafka.Network.Requests.{
  Kind, sends, fetches, asks_offsets, asks_info, creates, deletes, deletes_topic, Request, Response,
  serve,
}

-- enum CallStatus
pub data CallStatus : Type 0 where
  process finish : CallStatus

-- An object of a class derived from RpcService, at an address.
pub record Service : Type 0 where
  pub address : ℕ
  pub kind : Kind
  pub status : CallStatus

-- An operation that gRPC was asked for and has not told the end of: the wait for a call of a kind, or
-- the sending of a response. Its tag is the address of the object that asked.
pub record Operation : Type 0 where
  pub tag : ℕ
  pub kind : Kind
  pub stage : CallStatus

-- The broker, the live objects, the address of the next object, the operations under way, and the
-- responses that were handed to `Finish`, the last one first.
pub record Server : Type 0 where
  pub broker : Broker
  pub services : List Service
  pub next_address : ℕ
  pub pending : List Operation
  pub finished : List Response

-- new XService(broker_, service_, cq_): the constructor asks gRPC for the next call of its kind
unfoldable pub new_service : Kind → Server → Server
new_service kind s = record s {
  services = record { address = s.next_address; kind = kind; status = process } ∷ s.services;
  next_address = suc s.next_address;
  pending = record { tag = s.next_address; kind = kind; stage = process } ∷ s.pending;
}

-- BrokerServer::specificHandle
unfoldable pub specific_handle : Server → Server
unfolding new_service
specific_handle s = new_service deletes_topic (
    new_service deletes (
      new_service creates (
        new_service asks_info
          (new_service asks_offsets (new_service fetches (new_service sends s))))))

unfoldable pub find_service : ℕ → List Service → Option Service
find_service a [] = none
find_service a (v ∷ services) =
    let rest = find_service a services in if v.address == a then some v else rest

unfoldable pub set_finish : ℕ → List Service → List Service
set_finish a [] = []
set_finish a (v ∷ services) =
    let rest = set_finish a services in
    if v.address == a then record v { status = finish } ∷ services else v ∷ rest

-- delete this
unfoldable pub delete_service : ℕ → List Service → List Service
delete_service a [] = []
delete_service a (v ∷ services) =
    let rest = delete_service a services in if v.address == a then services else v ∷ rest

-- An event of the completion queue: the address of an object, `ok`, and the request that gRPC has put
-- into the object if it waited for one.
pub record Event : Type 0 where
  pub tag : ℕ
  pub ok : Bool
  pub request : Request

-- `Finish` with the response of the broker, if there is one.
unfoldable pub finish_with : Service → Outcome Response × Broker → Exec Server Unit
finish_with v (ok response, b) s = (
  ok tt,
  record s {
    broker = b;
    pending = record { tag = v.address; kind = v.kind; stage = finish } ∷ s.pending;
    finished = response ∷ s.finished;
  },
)
finish_with v (err c, b) s = (err c, record s { broker = b })
finish_with v (fault, b) s = (fault, record s { broker = b })
finish_with v (out_of_fuel, b) s = (out_of_fuel, record s { broker = b })

-- proceed, with `process` of the derived class: another object takes its place before the call is made
unfoldable pub proceed : Env → ℤ → Request → Service → Exec Server Unit
unfolding finish_with
proceed env now request v s = elim v.status [
  | process ↦
      finish_with v (serve env now request s.broker)
        (new_service v.kind (record s { services = set_finish v.address s.services }))
  | finish ↦ (ok tt, record s { services = delete_service v.address s.services })
]

-- A round of the loop of `handleRpcs`: an event that is not ok is passed over. The address is read
-- as an object, so that it has to be live.
unfoldable pub handle_event : Env → ℤ → Event → Exec Server Unit
unfolding proceed
handle_event env now e s =
    if e.ok
    then (elim (find_service e.tag s.services) [
      | none ↦ (fault, s)
      | some v ↦ proceed env now e.request v s
    ])
    else (ok tt, s)
