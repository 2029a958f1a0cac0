-- ===== src/Network/Copies.antt =====
-- The copies of a message that a call of sendMessage leaves, over a network that may serve calls
-- late.
use mykafka.Prelude.{
  ℕ, zero, suc, ◌+◌, ◌≤◌, ◌<◌, ◌≡◌, ◌≢◌, refl, sym, ap, ◌∙◌, subst, true, some, List, [], ◌∷◌, ◌++◌,
  append_assoc, arith, length, length-append,
}
use mykafka.Prelude.Int.{ℤ, pos}
use mykafka.Error.{success, ok}
use mykafka.Env.{calm}
use mykafka.Segment.Layout.{Payload}
use mykafka.Config.Keys.{Key}
use mykafka.Broker.State.{Broker}
use mykafka.Broker.Messages.{SendResponse}
use mykafka.Broker.Log.{IsLog}
use mykafka.Network.Requests.{Request, send, sent, serve}
use mykafka.Network.Client.{good, Answer, Client, attempt, reconnect, retry, method}
use mykafka.Network.Delivers.{some-eq, none-ne, served-IsLog}
use mykafka.Network.Retry.{method_ends, bad-ne, after}
use mykafka.Network.Late.{
  Late, Ended, answered, failed, Delivers, In, AllIn, AllIn-append, Owes, Fit, Fit-Room, Late-Grown,
  Grown-trans,
}

module _ {W : Type 0} (broker : W → Broker) (owed : W → List Request) (c : Client W)
    (delivers : Delivers broker owed c.link) (key : Key) (m bound : ℕ) (seen : List Payload)
    (fit : Fit m bound seen) (payload : Payload) (known : In payload seen) where
  abbrev request : Request
  request = send key payload

  -- How a call ends whose first answer is `first`, when `n` others were under way.
  pub record Copies (attempts : ℕ) (ms : List Payload) (n : ℕ)
      (first end : Answer W (send key payload)) : Type 0 where
    pub again : ℕ
    pub few : again ≤ attempts
    pub only : (j : ℕ) → j < again → (after c (send key payload) j first).0 ≢ good
    pub last : end ≡ after c (send key payload) again first
    pub status : end.0 ≡ good
    pub before : List Payload
    pub behind : List Payload
    pub known_before : AllIn seen before
    pub known_behind : AllIn seen behind
    pub told : end.1 ≡ record { code = success; offset = pos (length ms + length before) }
    pub log : IsLog key m (ms ++ (before ++ payload ∷ behind)) (broker end.2)
    pub owes : Owes key seen (owed end.2)
    pub count : length before + length behind + length (owed end.2) ≤ again + n

  attempt-Ended : (r : SendResponse) (w : W) → Ended broker owed request w (attempt c request r w)
  unfolding attempt
  attempt-Ended r w = delivers.calls _ request r w

  reconnect-Late :
      (w : W) → Late (broker w) (owed w) (broker (reconnect c w).1) (owed (reconnect c w).1)
  unfolding reconnect
  reconnect-Late w = delivers.waits _ w

  -- A call that was served, with late ones before and behind.
  Copies-first :
      (attempts : ℕ) (ms : List Payload) (w w' : W) (r : SendResponse) (b b' : Broker)
      (qs : List Request) (now : ℤ)
      → IsLog key m ms (broker w)
      → Owes key seen (owed w)
      → length ms + length (owed w) + 1 ≤ bound
      → Late (broker w) (owed w) b qs
      → serve calm now request b ≡ (ok (sent r), b')
      → Late b' qs (broker w') (owed w')
      → Copies attempts ms (length (owed w)) (good, r, w') (good, r, w')
  Copies-first attempts ms w w' r b b' qs now h owes le early e late =
      let g = Late-Grown key m seen early bound fit ms h owes (omega arith) in
      let more = ms ++ g.more in
      let (log, told) =
        served-IsLog key m payload more b b' now (sent r) g.log
          (Fit-Room m bound (length more) seen payload fit known
            (omega (arith, g.count, length-append ms g.more)))
          e in
      let g' =
        Late-Grown key m seen late bound fit (more ++ payload ∷ []) log g.owes
          (omega (arith, g.count, length-append ms g.more, length-append more (payload ∷ []))) in
      record {
        again = 0;
        few = omega arith;
        only = λ j lt. absurd (omega arith);
        last = refl;
        status = refl;
        before = g.more;
        behind = g'.more;
        known_before = g.known;
        known_behind = g'.known;
        told =
            ground (arith, told)
            ∙ ap (λ n. record { code = success; offset = pos n }) (length-append ms g.more);
        log =
            subst (λ l. IsLog key m l (broker w'))
              (append_assoc more (payload ∷ []) g'.more
                ∙ append_assoc ms g.more (payload ∷ g'.more))
              g'.log;
        owes = g'.owes;
        count = omega (arith, g.count, g'.count);
      }

  -- Another attempt behind one that failed.
  Copies-again :
      (attempts : ℕ) (ms more : List Payload) (n k : ℕ) (first end : Answer W (send key payload))
      → AllIn seen more
      → length more + k ≤ suc n
      → first.0 ≢ good
      → Copies attempts (ms ++ more) k (attempt c request first.1 (reconnect c first.2).1) end
      → Copies (suc attempts) ms n first end
  Copies-again attempts ms more n k first end earlier le bad_first h = record {
    again = suc h.again;
    few = omega (arith, h.few);
    only = only;
    last = h.last;
    status = h.status;
    before = more ++ h.before;
    behind = h.behind;
    known_before = AllIn-append seen more h.before earlier h.known_before;
    known_behind = h.known_behind;
    told =
        h.told
        ∙ ap (λ n. record { code = success; offset = pos n })
            (omega (arith, length-append ms more, length-append more h.before));
    log =
        subst (λ l. IsLog key m l (broker end.2))
          (append_assoc ms more (h.before ++ payload ∷ h.behind)
            ∙ ap (λ l. ms ++ l) (sym (append_assoc more h.before (payload ∷ h.behind))))
          h.log;
    owes = h.owes;
    count = omega (arith, h.count, le, length-append more h.before);
  }
    where
      only : (j : ℕ) → j < suc h.again → (after c request j first).0 ≢ good
      only zero lt = bad_first
      only (suc j) lt = h.only j (omega arith)

  retry-Copies :
      (fuel : ℕ) (ms : List Payload) (w : W) (a end : Answer W (send key payload))
      → Ended broker owed request w a
      → IsLog key m ms (broker w)
      → Owes key seen (owed w)
      → length ms + length (owed w) + suc fuel ≤ bound
      → retry fuel c request a ≡ some end
      → Copies fuel ms (length (owed w)) a end
  unfolding retry
  retry-Copies zero ms w a end (answered now early e late) h owes le done =
      subst (Copies 0 ms (length (owed w)) a) (some-eq done)
        (Copies-first 0 ms w a.2 a.1 _ _ _ now h owes (omega arith) early e late)
  retry-Copies (suc fuel) ms w a end (answered now early e late) h owes le done =
      subst (Copies (suc fuel) ms (length (owed w)) a) (some-eq done)
        (Copies-first (suc fuel) ms w a.2 a.1 _ _ _ now h owes (omega arith) early e late)
  retry-Copies zero ms w a end (failed late) h owes le done = absurd (none-ne done)
  retry-Copies (suc fuel) ms w a end (failed {w' = w'} late) h owes le done =
      let w2 = (reconnect c w').1 in
      let g =
        Late-Grown key m seen late bound fit ms h ((payload, refl, known), owes) (omega arith) in
      let g2 =
        Grown-trans key m seen ms (suc (length (owed w))) (broker w') (broker w2) (owed w')
          (owed w2) g
          (Late-Grown key m seen (reconnect-Late w') bound fit (ms ++ g.more) g.log g.owes
            (omega (arith, g.count, length-append ms g.more))) in
      Copies-again fuel ms g2.more (length (owed w)) (length (owed w2)) a end g2.known g2.count
        (λ e. bad-ne e)
        (retry-Copies fuel (ms ++ g2.more) w2 (attempt c request a.1 w2) end (attempt-Ended a.1 w2)
          g2.log g2.owes (omega (arith, g2.count, length-append ms g2.more)) done)

  pub ended-Copies :
      (attempts : ℕ) (ms : List Payload) (r : SendResponse) (w : W)
      (end : Answer W (send key payload))
      → IsLog key m ms (broker w)
      → Owes key seen (owed w)
      → length ms + length (owed w) + suc attempts ≤ bound
      → method attempts c (send key payload) r true w ≡ some end
      → Copies attempts ms (length (owed w)) (attempt c (send key payload) r w) end
  unfolding method
  ended-Copies attempts ms r w end h owes le done =
      retry-Copies attempts ms w _ end (attempt-Ended r w) h owes le done

  -- Over a network that carries each call of the client once or not at all, where a call that
  -- ends with an error may be served at any later time, behind later ones too, to a broker that
  -- no one else calls and no system call of which fails: a call of sendMessage with try_reconnect
  -- on a log, one attempt of which ends well within those allowed, where the message and those of
  -- the calls under way, which all go to this log, are of a list of messages that fit it as often
  -- as these calls and the attempts can send them, ends with a good status, and the last attempt
  -- is the first one that ended well, of which the call answers the status and the response;
  -- behind the old messages stands a copy of the message at the offset that the response has, and
  -- before and behind it only messages of the list; these and the calls still under way are
  -- together no more than the attempts that failed and the calls under way before.
  pub method-Copies :
      (attempts : ℕ) (ms : List Payload) (r : SendResponse) (w : W) (k : ℕ)
      → IsLog key m ms (broker w)
      → Owes key seen (owed w)
      → length ms + length (owed w) + suc attempts ≤ bound
      → (after c (send key payload) k (attempt c (send key payload) r w)).0 ≡ good
      → k ≤ attempts
      → (end : Answer W (send key payload)) × (method attempts c (send key payload) r true w
          ≡ some end)
        × Copies attempts ms (length (owed w)) (attempt c (send key payload) r w) end
  method-Copies attempts ms r w k h owes le there few =
      let (end, e, _) = (method_ends c (send key payload) r w).0 k there attempts few in
      (end, e, ended-Copies attempts ms r w end h owes le e)
