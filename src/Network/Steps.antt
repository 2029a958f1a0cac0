-- ===== src/Network/Steps.antt =====
-- The events that a running server meets.
use mykafka.Prelude.{ℕ, suc, ◌≡◌, true, List, [], ◌∷◌, ◌++◌}
use mykafka.Prelude.Int.{ℤ}
use mykafka.Error.{ok}
use mykafka.Env.{Env}
use mykafka.Broker.State.{Broker}
use mykafka.Network.Requests.{Request, kind_of}
use mykafka.Network.Server.{
  process, finish, Operation, Server, Event, handle_event, specific_handle,
}

-- A call, with what the system calls and the clock do meanwhile.
pub record Call : Type 0 where
  pub env : Env
  pub now : ℤ
  pub request : Request

abbrev pub event : ℕ → Request → Event
event tag request = record { tag = tag; ok = true; request = request }

abbrev pub without : List Operation → List Operation → Server → Server
without xs ys s = record s { pending = xs ++ ys }

-- What gRPC documents of a server that is not shut down: it tells the end of each operation once, in
-- any order; a wait ends with a call of its kind, and the sending of a response may fail. The threads
-- take their turns by whole events.
pub data Step : Server → List Call → Server → Type 0 where
  called :
      {s t : Server} (xs ys : List Operation) (o : Operation) (c : Call)
      → s.pending ≡ xs ++ o ∷ ys
      → o.stage ≡ process
      → kind_of c.request ≡ o.kind
      → handle_event c.env c.now (event o.tag c.request) (without xs ys s) ≡ (ok tt, t)
      → Step s (c ∷ []) t
  sent :
      {s t : Server} (xs ys : List Operation) (o : Operation) (c : Call)
      → s.pending ≡ xs ++ o ∷ ys
      → o.stage ≡ finish
      → handle_event c.env c.now (event o.tag c.request) (without xs ys s) ≡ (ok tt, t)
      → Step s [] t
  lost :
      {s : Server} (xs ys : List Operation) (o : Operation)
      → s.pending ≡ xs ++ o ∷ ys
      → o.stage ≡ finish
      → Step s [] (without xs ys s)

-- A server before its threads begin.
abbrev pub idle : Broker → Server
idle b = record { broker = b; services = []; next_address = 0; pending = []; finished = [] }

-- A run, with the number of threads that have begun `handleRpcs`, at any moment, and the calls that
-- were taken, the first one first.
pub data Runs (s : Server) : ℕ → List Call → Server → Type 0 where
  here : Runs s 0 [] s
  begins :
      {t : Server} {n : ℕ} {cs : List Call} → Runs s n cs t → Runs s (suc n) cs (specific_handle t)
  next :
      {t u : Server} {n : ℕ} {cs ds : List Call}
      → Runs s n cs t
      → Step t ds u
      → Runs s n (cs ++ ds) u
