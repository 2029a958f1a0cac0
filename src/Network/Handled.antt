-- ===== src/Network/Handled.antt =====
-- What an event of a live object does: the cases of `proceed`.
use mykafka.Prelude.{ℕ, suc, ◌≡◌, refl, sym, ap, ◌∙◌, some, ◌∷◌}
use mykafka.Prelude.Int.{ℤ}
use mykafka.Error.{Outcome, ok, err, fault, out_of_fuel}
use mykafka.Env.{Env}
use mykafka.Broker.State.{Broker}
use mykafka.Network.Requests.{Request, Response, serve}
use mykafka.Network.Server.{
  process, finish, Service, Server, handle_event, find_service, set_finish, delete_service, proceed,
  new_service, finish_with,
}
use mykafka.Network.Steps.{event}

-- A server that has answered a call of the object: the next object waits, and the response is sent.
abbrev pub after_call : Service → Response → Broker → Server → Server
after_call v response b s = record s {
  broker = b;
  services =
      record { address = s.next_address; kind = v.kind; status = process }
      ∷ set_finish v.address s.services;
  next_address = suc s.next_address;
  pending =
      record { tag = v.address; kind = v.kind; stage = finish }
      ∷ record { tag = s.next_address; kind = v.kind; stage = process }
      ∷ s.pending;
  finished = response ∷ s.finished;
}

abbrev pub after_sending : Service → Server → Server
after_sending v s = record s { services = delete_service v.address s.services }

module _ (env : Env) (now : ℤ) (tag : ℕ) (request : Request) (v : Service) (s : Server)
    (found : find_service tag s.services ≡ some v) where
  pub handle_event-process :
      v.status ≡ process
      → handle_event env now (event tag request) s
        ≡ finish_with v
            (serve env now request s.broker)
            (new_service v.kind (record s { services = set_finish v.address s.services }))
  unfolding handle_event proceed
  handle_event-process h = rw found (rw h refl)

  pub handle_event-finish :
      v.status ≡ finish → handle_event env now (event tag request) s ≡ (ok tt, after_sending v s)
  unfolding handle_event proceed
  handle_event-finish h = rw found (rw h refl)

  pub handle_event-answers :
      {response : Response} {b : Broker}
      → v.status ≡ process
      → serve env now request s.broker ≡ (ok response, b)
      → handle_event env now (event tag request) s ≡ (ok tt, after_call v response b s)
  unfolding finish_with new_service
  handle_event-answers h e = handle_event-process h ∙ rw (e, finish_with) refl

-- The end of `process`, by the answer of the broker.
finish_with-eq-ok :
    (v : Service) (s t : Server) (r : Outcome Response) (b : Broker)
    → finish_with v
        (r, b)
        (new_service v.kind (record s { services = set_finish v.address s.services }))
      ≡ (ok tt, t)
    → (response : Response) × (r ≡ ok response) × (t ≡ after_call v response b s)
unfolding finish_with new_service
finish_with-eq-ok v s t (ok response) b e = (response, refl, sym (ap (λ p. p.1) e))
finish_with-eq-ok v s t (err c) b e = cc
finish_with-eq-ok v s t fault b e = cc
finish_with-eq-ok v s t out_of_fuel b e = cc

pub handled :
    (env : Env) (now : ℤ) (tag : ℕ) (request : Request) (v : Service) (s t : Server)
    → find_service tag s.services ≡ some v
    → v.status ≡ process
    → handle_event env now (event tag request) s ≡ (ok tt, t)
    → (response : Response) × (b : Broker) × (serve env now request s.broker ≡ (ok response, b))
      × (t ≡ after_call v response b s)
handled env now tag request v s t found h e =
    let answer = serve env now request s.broker in
    let (response, told, shape) =
      finish_with-eq-ok v s t answer.0 answer.1
        (sym (handle_event-process env now tag request v s found h) ∙ e) in
    (response, answer.1, ap (λ r. (r, answer.1)) told, shape)
