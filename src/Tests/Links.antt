-- ===== src/Tests/Links.antt =====
-- A network for the instances: every other call is lost on its way to the broker.
use mykafka.Prelude.{ℕ, ◌≡◌, refl, ap, ◌∙◌, Bool, true, false, Option, none, some}
use mykafka.Prelude.Int.{pos}
use mykafka.Error.{Outcome, ok, err, fault, out_of_fuel}
use mykafka.Env.{calm}
use mykafka.Broker.State.{Broker}
use mykafka.Network.Requests.{
  Request, send, fetch, offsets, info, create, delete, delete_all, Response, sent, fetched,
  told_offsets, told_info, done, serve,
}
use mykafka.Network.Client.{good, bad, Reply, response, Answer, Link, default_client, retry, method}
use mykafka.Network.Delivers.{
  some-eq, none-ne, Carried, answered, not_sent, Carries, Answerable, Reaches,
}

pub record World : Type 0 where
  pub broker : Broker
  pub flaky : Bool

abbrev pub broker_of : World → Broker
broker_of w = w.broker

abbrev taken : (q : Request) → Response → Option (Reply q)
taken (send _ _) (sent r) = some r
taken (fetch _ _) (fetched r) = some r
taken (offsets _) (told_offsets r) = some r
taken info (told_info r) = some r
taken (create _) (done r) = some r
taken (delete _) (done r) = some r
taken (delete_all _) (done r) = some r
taken _ _ = none

taken-response : (q : Request) (r : Reply q) → taken q (response q r) ≡ some r
taken-response (send _ _) r = refl
taken-response (fetch _ _) r = refl
taken-response (offsets _) r = refl
taken-response info r = refl
taken-response (create _) r = refl
taken-response (delete _) r = refl
taken-response (delete_all _) r = refl

response-taken :
    (q : Request) (told : Response) (r : Reply q) → taken q told ≡ some r → told ≡ response q r
response-taken (send _ _) (sent s) r e = ap sent (some-eq e)
response-taken (fetch _ _) (fetched s) r e = ap fetched (some-eq e)
response-taken (offsets _) (told_offsets s) r e = ap told_offsets (some-eq e)
response-taken info (told_info s) r e = ap told_info (some-eq e)
response-taken (create _) (done s) r e = ap done (some-eq e)
response-taken (delete _) (done s) r e = ap done (some-eq e)
response-taken (delete_all _) (done s) r e = ap done (some-eq e)
response-taken _ _ r e = absurd (none-ne e)

-- The answer that reaches the client.
abbrev give : (q : Request) → Reply q → World → Broker → Option (Reply q) → Answer World q
give q r w b (some told) = (good, told, record { broker = b; flaky = true })
give q r w b none = (bad 13, r, w)

abbrev give_outcome : (q : Request) → Reply q → World → Broker → Outcome Response → Answer World q
give_outcome q r w b (ok told) = give q r w b (taken q told)
give_outcome q r w b (err c) = (bad 13, r, w)
give_outcome q r w b fault = (bad 13, r, w)
give_outcome q r w b out_of_fuel = (bad 13, r, w)

abbrev pub call : (q : Request) → Reply q → World → Bool → Answer World q
call q r w true = (bad 14, r, record w { flaky = false })
call q r w false = let (told, b) = serve calm (pos 0) q w.broker in give_outcome q r w b told

abbrev pub link : Link World
link = record {
  call = λ deadline q r w. call q r w w.flaky;
  wait_for_connected = λ timeout w. (true, w);
}

give-Carried :
    (q : Request) (r : Reply q) (w : World) (b : Broker) (told : Response) (m : Option (Reply q))
    → taken q told ≡ m
    → serve calm (pos 0) q w.broker ≡ (ok told, b)
    → Carried broker_of q w (give q r w b m)
give-Carried q r w b told (some s) e served =
    answered (pos 0) (served ∙ ap (λ x. (ok x, b)) (response-taken q told s e))
give-Carried q r w b told none e served = not_sent refl

give_outcome-Carried :
    (q : Request) (r : Reply q) (w : World) (b : Broker) (told : Outcome Response)
    → serve calm (pos 0) q w.broker ≡ (told, b)
    → Carried broker_of q w (give_outcome q r w b told)
give_outcome-Carried q r w b (ok told) served = give-Carried q r w b told (taken q told) refl served
give_outcome-Carried q r w b (err c) served = not_sent refl
give_outcome-Carried q r w b fault served = not_sent refl
give_outcome-Carried q r w b out_of_fuel served = not_sent refl

pub call-Carried :
    (q : Request) (r : Reply q) (w : World) (flaky : Bool)
    → Carried broker_of q w (call q r w flaky)
call-Carried q r w true = not_sent refl
call-Carried q r w false =
    give_outcome-Carried q r w (serve calm (pos 0) q w.broker).1 (serve calm (pos 0) q w.broker).0
      refl

pub link-Carries : Carries broker_of link
link-Carries = record {
  calls = λ deadline q r w. call-Carried q r w w.flaky;
  waits = λ timeout w. refl;
}

-- A call that is not lost and that the broker answers.
pub call-good :
    (limit : ℕ) (q : Request) (r : Reply q) (w : World)
    → Answerable limit q w.broker
    → (s : Reply q) × (w' : World) × (call q r w false ≡ (good, s, w'))
call-good limit q r w answerable =
    let (s, b, e, _) = answerable (pos 0) in
    (
      s,
      record { broker = b; flaky = true },
      ap (λ t. give_outcome q r w t.1 t.0) e ∙ ap (give q r w b) (taken-response q s),
    )

retried :
    (limit : ℕ) (q : Request) (r : Reply q) (w : World) (flaky : Bool)
    → Answerable limit q w.broker
    → (a : Answer World q) × (retry 1 (default_client link) q (call q r w flaky) ≡ some a)
unfolding default_client retry
retried limit q r w false answerable =
    let (s, w', e) = call-good limit q r w answerable in
    ((good, s, w'), ap (retry 1 (default_client link) q) e)
retried limit q r w true answerable =
    let (s, w', e) = call-good limit q r (record w { flaky = false }) answerable in
    ((good, s, w'), ap (retry 0 (default_client link) q) e)

pub link-Reaches : (limit : ℕ) → Reaches broker_of limit 1 (default_client link)
unfolding default_client method
link-Reaches limit q r w answerable = retried limit q r w w.flaky answerable

pub client-Carries : Carries broker_of (default_client link).link
unfolding default_client
client-Carries = link-Carries
