-- ===== src/Network/Delivers.antt =====
-- A network between the client and a broker, as gRPC documents it: a call that ends well was served
-- once; a call that ends with an error may have been served, or not.
use mykafka.Prelude.{
  ℕ, ◌≤◌, ◌≡◌, refl, sym, ap, ◌∙◌, subst, true, Option, none, some, List, [], ◌∷◌, ◌++◌, arith,
  length,
}
use mykafka.Prelude.Int.{ℤ, pos}
use mykafka.Error.{success, ok}
use mykafka.Env.{calm}
use mykafka.Segment.Layout.{Payload}
use mykafka.Partition.Steady.{Room}
use mykafka.Config.Keys.{Key}
use mykafka.Broker.State.{Broker}
use mykafka.Broker.Messages.{SendResponse, send_message}
use mykafka.Broker.Log.{IsLog, send_message-IsLog}
use mykafka.Network.Requests.{
  Request, send, fetch, offsets, info, create, delete, delete_all, Response, sent, serve,
}
use mykafka.Network.Client.{
  good, bad, Reply, response, Answer, Link, Client, attempt, reconnect, method,
}

pub data Carried {W : Type 0} (broker : W → Broker) (q : Request) (w : W)
    : Answer W q → Type 0 where
  answered :
      {r : Reply q} {w' : W} (now : ℤ)
      → serve calm now q (broker w) ≡ (ok (response q r), broker w')
      → Carried broker q w (good, r, w')
  not_sent :
      {code : ℕ} {r : Reply q} {w' : W}
      → broker w' ≡ broker w
      → Carried broker q w (bad code, r, w')
  not_told :
      {code : ℕ} {r : Reply q} {w' : W} (now : ℤ) (told : Response)
      → serve calm now q (broker w) ≡ (ok told, broker w')
      → Carried broker q w (bad code, r, w')

-- The broker in a world, which no one else calls.
pub record Carries {W : Type 0} (broker : W → Broker) (link : Link W) : Type 0 where
  pub calls :
      (deadline : Option ℤ) (q : Request) (r : Reply q) (w : W)
      → Carried broker q w (link.call deadline q r w)
  pub waits : (timeout : ℤ) (w : W) → broker (link.wait_for_connected timeout w).1 ≡ broker w

-- The topic of a request, its payload and that of its response are no longer than a limit.
abbrev pub IsSmall : ℕ → (q : Request) → Reply q → Type 0
IsSmall limit (send key payload) r = (length key.topic ≤ limit) × (length payload ≤ limit)
IsSmall limit (fetch key _) r = (length key.topic ≤ limit) × (length r.payload ≤ limit)
IsSmall limit (offsets key) r = length key.topic ≤ limit
IsSmall limit info r = Unit {0}
IsSmall limit (create p) r = length p.key.topic ≤ limit
IsSmall limit (delete key) r = length key.topic ≤ limit
IsSmall limit (delete_all topic) r = length topic ≤ limit

-- What the broker answers to a request, at any time.
abbrev pub Answerable : ℕ → Request → Broker → Type 0
Answerable limit q b =
    (now : ℤ)
    → (r : Reply q) × (b' : Broker) × (serve calm now q b ≡ (ok (response q r), b'))
      × IsSmall limit q r

-- A call that the broker answers, with a topic and payloads up to a limit, does not fail more
-- often in a row than the attempts allow.
abbrev pub Reaches : {W : Type 0} → (W → Broker) → ℕ → ℕ → Client W → Type 0
Reaches {W} broker limit attempts c =
    (q : Request) (r : Reply q) (w : W)
    → Answerable limit q (broker w)
    → (a : Answer W q) × (method attempts c q r true w ≡ some a)

pub some-eq : {A : Type 0} {a b : A} → some a ≡ some b → a ≡ b
some-eq {A} {a} e = ap (λ o. elim o as (λ _. A) [ none ↦ a | some x ↦ x ]) e

pub none-ne : {A : Type 0} {a : A} → none ≡ some a → ⊥
none-ne e = cc

pub serve-send :
    (now : ℤ) (key : Key) (payload : Payload) (b b' : Broker) (r : SendResponse)
    → send_message calm now key payload b ≡ (ok r, b')
    → serve calm now (send key payload) b ≡ (ok (sent r), b')
unfolding serve
serve-send now key payload b b' r e = rw (e, serve) refl

-- A call that was served has appended the message.
pub served-IsLog :
    (key : Key) (m : ℕ) (payload : Payload) (ms : List Payload) (b b' : Broker) (now : ℤ)
    (told : Response)
    → IsLog key m ms b
    → Room m (length ms) payload
    → serve calm now (send key payload) b ≡ (ok told, b')
    → IsLog key m (ms ++ payload ∷ []) b'
      × (told ≡ sent (record { code = success; offset = pos (length ms) }))
served-IsLog key m payload ms b b' now told h room e =
    let (b1, e1, h1) = send_message-IsLog key m ms b now payload h room in
    let same = sym (serve-send now key payload b b1 _ e1) ∙ e in
    (
      subst (IsLog key m (ms ++ payload ∷ [])) (ap (λ p. p.1) same) h1,
      ground (arith, ap (λ p. p.0) same),
    )

module _ {W : Type 0} (broker : W → Broker) (c : Client W) (carries : Carries broker c.link) where
  pub attempt-Carried : (q : Request) (r : Reply q) (w : W) → Carried broker q w (attempt c q r w)
  unfolding attempt
  attempt-Carried q r w = carries.calls _ q r w

  pub reconnect-broker : (w : W) → broker (reconnect c w).1 ≡ broker w
  unfolding reconnect
  reconnect-broker w = carries.waits _ w
