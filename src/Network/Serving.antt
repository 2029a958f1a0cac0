-- ===== src/Network/Serving.antt =====
-- What the server as a whole does: its calls are served one after the other, and none is refused.
use mykafka.Prelude.{
  ℕ, ◌≡◌, refl, sym, ap, ap₂, inl, inr, ◌⊎◌, ◌∙◌, Option, some, none, List, [], ◌∷◌, ◌++◌, arith,
}
use mykafka.Prelude.Int.{ℤ}
use mykafka.Error.{Outcome, ok, err, fault, out_of_fuel}
use mykafka.Env.{Env}
use mykafka.Broker.State.{Broker}
use mykafka.Network.Requests.{Request, Response, answers, serve}
use mykafka.Network.Server.{
  CallStatus, process, finish, Service, Operation, Server, handle_event, specific_handle,
  finish_with,
}
use mykafka.Network.Steps.{
  Call, event, without, Step, called, sent, lost, Runs, here, begins, next, idle,
}
use mykafka.Network.Handled.{handled, handle_event-process, handle_event-finish}
use mykafka.Network.Live.{IsLive}
use mykafka.Network.Invariant.{IsLive-Ends, Runs-IsLive, idle-IsLive}

Stage-cases : (c : CallStatus) → (c ≡ process) ⊎ (c ≡ finish)
Stage-cases process = inl refl
Stage-cases finish = inr refl

finish_with-outcome :
    (v : Service) (r : Outcome Response) (b : Broker) (s : Server)
    → (finish_with v (r, b) s).0 ≡ answers (λ _. tt) r
unfolding finish_with
finish_with-outcome v (ok a) b s = refl
finish_with-outcome v (err c) b s = refl
finish_with-outcome v fault b s = refl
finish_with-outcome v out_of_fuel b s = refl

-- What is left to replay behind an answer.
abbrev pub resume :
    Outcome Response
    → (Response → Option (Broker × List Response))
    → Option (Broker × List Response)
resume (ok response) f = f response
resume (err c) f = none
resume fault f = none
resume out_of_fuel f = none

-- The calls one after the other, without a network: the broker and the responses, the last one
-- first.
abbrev pub replay : List Call → Broker → List Response → Option (Broker × List Response)
replay [] b responses = some (b, responses)
replay (c ∷ cs) b responses =
    let (r, b') = serve c.env c.now c.request b in
    resume r (λ response. replay cs b' (response ∷ responses))

resume_keeps :
    (r : Outcome Response) (f g : Response → Option (Broker × List Response))
    (x : Broker × List Response) (y : Option (Broker × List Response))
    → ((a : Response) → f a ≡ some x → g a ≡ y)
    → resume r f ≡ some x
    → resume r g ≡ y
resume_keeps (ok a) f g x y keeps e = keeps a e
resume_keeps (err c) f g x y keeps e = cc
resume_keeps fault f g x y keeps e = cc
resume_keeps out_of_fuel f g x y keeps e = cc

replay-append :
    (cs ds : List Call) (b b' : Broker) (rs rs' : List Response)
    → replay cs b rs ≡ some (b', rs')
    → replay (cs ++ ds) b rs ≡ replay ds b' rs'
replay-append [] ds b b' rs rs' e = ap₂ (replay ds) (ground arith) (ground arith)
replay-append (c ∷ cs) ds b b' rs rs' e =
    let (r, b1) = serve c.env c.now c.request b in
    resume_keeps r (λ a. replay cs b1 (a ∷ rs)) (λ a. replay (cs ++ ds) b1 (a ∷ rs)) (b', rs')
      (replay ds b' rs') (λ a. replay-append cs ds b1 b' (a ∷ rs) rs') e

-- What a step does for the broker is to serve its call.
Step-replay :
    {s t : Server} {cs : List Call}
    → Step s cs t
    → IsLive s
    → replay cs s.broker s.finished ≡ some (t.broker, t.finished)
Step-replay {s} {t} (called xs ys o c e staged kinded run) live =
    let h = IsLive-Ends s xs ys o live e in
    let (response, b, told, shape) =
      handled c.env c.now o.tag c.request h.this.service (without xs ys s) t h.this.found
        (h.this.staged ∙ staged) run in
    rw (told, replay) (rw shape refl)
Step-replay {s} {t} (sent xs ys o c e staged run) live =
    let h = IsLive-Ends s xs ys o live e in
    let shape =
      ap (λ p. p.1)
        (sym (
            handle_event-finish c.env c.now o.tag c.request h.this.service (without xs ys s)
              h.this.found (h.this.staged ∙ staged))
          ∙ run) in
    ap (λ u. some (u.broker, u.finished)) shape
Step-replay {s} (lost xs ys o e staged) live = refl

Runs-replay :
    {s t : Server} {n : ℕ} {cs : List Call}
    → Runs s n cs t
    → IsLive s
    → replay cs s.broker s.finished ≡ some (t.broker, t.finished)
unfolding specific_handle
Runs-replay here live = refl
Runs-replay (begins r) live = Runs-replay r live
Runs-replay {s} (next {t = m} {cs = cs} {ds = ds} r step) live =
    replay-append cs ds s.broker m.broker s.finished m.finished (Runs-replay r live)
    ∙ Step-replay step (Runs-IsLive r live)

-- In each run of the server from a broker, with any number of threads that begin at any time,
-- responses that are sent or lost in any order, and calls taken in any order by whole events, the
-- broker and the responses handed to gRPC are those of the taken calls served one after the
-- other, without a network.
pub served_in_order :
    (b : Broker) (t : Server) (n : ℕ) (cs : List Call)
    → Runs (idle b) n cs t
    → replay cs b [] ≡ some (t.broker, t.finished)
served_in_order b t n cs r = Runs-replay r (idle-IsLive b)

-- In each run of the server, an event for an operation that gRPC has under way ends as the broker
-- does with its request if the operation waits for a call, and well if it sends a response: its
-- address is that of a live object in this stage, never of a deleted one.
pub no_stale_object :
    (b : Broker) (t : Server) (n : ℕ) (cs : List Call) (xs ys : List Operation) (o : Operation)
    (env : Env) (now : ℤ) (request : Request)
    → Runs (idle b) n cs t
    → t.pending ≡ xs ++ o ∷ ys
    → (handle_event env now (event o.tag request) (without xs ys t)).0 ≡ (elim o.stage [
      | process ↦ answers (λ _. tt) (serve env now request t.broker).0
      | finish ↦ ok tt
    ])
no_stale_object b t n cs xs ys o env now request r e =
    let h = IsLive-Ends t xs ys o (Runs-IsLive r (idle-IsLive b)) e in
    elim (Stage-cases o.stage) [
      | inl p ↦ rw p (
          ap (λ x. x.0)
            (handle_event-process env now o.tag request h.this.service (without xs ys t)
              h.this.found (h.this.staged ∙ p))
          ∙ finish_with-outcome h.this.service (serve env now request t.broker).0
              (serve env now request t.broker).1 _)
      | inr f ↦ rw f (
          ap (λ x. x.0)
            (handle_event-finish env now o.tag request h.this.service (without xs ys t) h.this.found
              (h.this.staged ∙ f)))
    ]
