-- ===== src/Tests/SlowLinks.antt =====
-- A network for the instances that serves calls late: every other call passes its deadline, and is
-- served behind a later one.
use mykafka.Prelude.{ℕ, ◌≡◌, refl, sym, ap, subst, Bool, true, false, some, List, [], ◌∷◌}
use mykafka.Prelude.Int.{pos}
use mykafka.Error.{Outcome, ok, err, fault, out_of_fuel}
use mykafka.Env.{calm}
use mykafka.Broker.State.{Broker}
use mykafka.Network.Requests.{Request, Response, serve}
use mykafka.Network.Client.{good, bad, Reply, Answer, Link, default_client, retry, method}
use mykafka.Network.Delivers.{Carried, answered, not_sent, not_told, Carries, Answerable, Reaches}
use mykafka.Network.Late.{Late, no_more, served, given_up, Ended, failed, Delivers}
use mykafka.Tests.Links.{World, broker_of, call, call-Carried, call-good}

-- A world with the calls under way.
pub record Slow : Type 0 where
  pub world : World
  pub owed : List Request

abbrev pub slow_broker : Slow → Broker
slow_broker v = v.world.broker

abbrev pub under_way : Slow → List Request
under_way v = v.owed

-- The first of the calls under way is served.
abbrev settle_outcome : Broker → Broker → Outcome Response → Broker
settle_outcome b b' (ok told) = b'
settle_outcome b b' (err c) = b
settle_outcome b b' fault = b
settle_outcome b b' out_of_fuel = b

abbrev settle : Broker → List Request → Broker
settle b [] = b
settle b (q ∷ qs) = let (told, b') = serve calm (pos 0) q b in settle_outcome b b' told

abbrev others : List Request → List Request
others [] = []
others (q ∷ qs) = qs

abbrev finish : List Request → (q : Request) → Answer World q → Answer Slow q
finish owed q (good, s, w) =
    (good, s, record { world = record w { broker = settle w.broker owed }; owed = others owed })
finish owed q (bad code, s, w) = (bad code, s, record { world = w; owed = owed })

abbrev pub slow_call : (q : Request) → Reply q → Slow → Bool → Answer Slow q
slow_call q r v true =
    (bad 4, r, record { world = record v.world { flaky = false }; owed = q ∷ v.owed })
slow_call q r v false = finish v.owed q (call q r v.world false)

abbrev pub slow_link : Link Slow
slow_link = record {
  call = λ deadline q r v. slow_call q r v v.world.flaky;
  wait_for_connected = λ timeout v. (true, v);
}

settle_outcome-Late :
    (b b' : Broker) (q : Request) (qs : List Request) (told : Outcome Response)
    → serve calm (pos 0) q b ≡ (told, b')
    → Late b (q ∷ qs) (settle_outcome b b' told) qs
settle_outcome-Late b b' q qs (ok told) e = served [] qs q (pos 0) told refl e no_more
settle_outcome-Late b b' q qs (err c) e = given_up [] qs q refl no_more
settle_outcome-Late b b' q qs fault e = given_up [] qs q refl no_more
settle_outcome-Late b b' q qs out_of_fuel e = given_up [] qs q refl no_more

settle-Late : (b : Broker) (qs : List Request) → Late b qs (settle b qs) (others qs)
settle-Late b [] = no_more
settle-Late b (q ∷ qs) =
    settle_outcome-Late b (serve calm (pos 0) q b).1 q qs (serve calm (pos 0) q b).0 refl

finish-Ended :
    (q : Request) (v : Slow) (a : Answer World q)
    → Carried broker_of q v.world a
    → Ended slow_broker under_way q v (finish v.owed q a)
finish-Ended q v a (answered {w' = w'} now e) =
    Ended.answered now no_more e (settle-Late w'.broker v.owed)
finish-Ended q v a (not_sent {w' = w'} same) = failed (
    given_up [] v.owed q refl (subst (λ b. Late v.world.broker v.owed b v.owed) (sym same) no_more))
finish-Ended q v a (not_told now told e) = failed (served [] v.owed q now told refl e no_more)

slow_call-Ended :
    (q : Request) (r : Reply q) (v : Slow) (flaky : Bool)
    → Ended slow_broker under_way q v (slow_call q r v flaky)
slow_call-Ended q r v true = failed no_more
slow_call-Ended q r v false = finish-Ended q v _ (call-Carried q r v.world false)

pub slow-Delivers : Delivers slow_broker under_way slow_link
slow-Delivers = record {
  calls = λ deadline q r v. slow_call-Ended q r v v.world.flaky;
  waits = λ timeout v. no_more;
}

pub slow_call-good :
    (limit : ℕ) (q : Request) (r : Reply q) (v : Slow)
    → Answerable limit q v.world.broker
    → (s : Reply q) × (v' : Slow) × (slow_call q r v false ≡ (good, s, v'))
slow_call-good limit q r v answerable =
    let (s, w', e) = call-good limit q r v.world answerable in (s, _, ap (finish v.owed q) e)

slow_retried :
    (limit : ℕ) (q : Request) (r : Reply q) (v : Slow) (flaky : Bool)
    → Answerable limit q v.world.broker
    → (a : Answer Slow q) × (retry 1 (default_client slow_link) q (slow_call q r v flaky) ≡ some a)
unfolding default_client retry
slow_retried limit q r v false answerable =
    let (s, v', e) = slow_call-good limit q r v answerable in
    ((good, s, v'), ap (retry 1 (default_client slow_link) q) e)
slow_retried limit q r v true answerable =
    let (s, v', e) =
      slow_call-good limit q r
        (record { world = record v.world { flaky = false }; owed = q ∷ v.owed }) answerable in
    ((good, s, v'), ap (retry 0 (default_client slow_link) q) e)

pub slow-Reaches : (limit : ℕ) → Reaches slow_broker limit 1 (default_client slow_link)
unfolding default_client method
slow-Reaches limit q r v answerable = slow_retried limit q r v v.world.flaky answerable

pub slow_client-Delivers : Delivers slow_broker under_way (default_client slow_link).link
unfolding default_client
slow_client-Delivers = slow-Delivers

-- The same broker over a network that loses no call.
abbrev keep : List Request → (q : Request) → Answer World q → Answer Slow q
keep owed q (s, r, w) = (s, r, record { world = w; owed = owed })

abbrev pub sure_link : Link Slow
sure_link = record {
  call = λ deadline q r v. keep v.owed q (call q r v.world false);
  wait_for_connected = λ timeout v. (true, v);
}

keep-Carried :
    (q : Request) (v : Slow) (a : Answer World q)
    → Carried broker_of q v.world a
    → Carried slow_broker q v (keep v.owed q a)
keep-Carried q v a (answered now e) = answered now e
keep-Carried q v a (not_sent same) = not_sent same
keep-Carried q v a (not_told now told e) = not_told now told e

pub sure-Carries : Carries slow_broker sure_link
sure-Carries = record {
  calls = λ deadline q r v. keep-Carried q v _ (call-Carried q r v.world false);
  waits = λ timeout v. refl;
}

pub sure-Reaches : (limit : ℕ) → Reaches slow_broker limit 1 (default_client sure_link)
unfolding default_client method retry
sure-Reaches limit q r v answerable =
    let (s, w', e) = call-good limit q r v.world answerable in
    (
      (good, s, record { world = w'; owed = v.owed }),
      ap (λ a. retry 1 (default_client sure_link) q (keep v.owed q a)) e,
    )
