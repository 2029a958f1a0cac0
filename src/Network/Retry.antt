-- ===== src/Network/Retry.antt =====
-- The loop of METHOD_IMPL: when it ends, and what a call without effect on the broker tells.
use mykafka.Prelude.{
  ℕ, zero, suc, ◌≤◌, ◌≡◌, ◌≢◌, refl, sym, ap, ◌∙◌, subst, true, none, some, arith,
}
use mykafka.Prelude.Int.{ℤ}
use mykafka.Error.{ok}
use mykafka.Env.{calm}
use mykafka.Broker.State.{Broker}
use mykafka.Network.Requests.{Request, Response, serve}
use mykafka.Network.Client.{
  good, bad, Reply, response, Answer, Client, attempt, reconnect, retry, method,
}
use mykafka.Network.Delivers.{
  Carried, answered, not_sent, not_told, Carries, attempt-Carried, reconnect-broker, some-eq,
  none-ne,
}

pub bad-ne : {code : ℕ} → bad code ≡ good → ⊥
bad-ne e = cc

pub ok-eq : {a b : Response} → ok a ≡ ok b → a ≡ b
ok-eq {a} e = ap (λ o. elim o as (λ _. Response) [ ok x ↦ x | _ ↦ a ]) e

-- The attempts behind an answer, with nothing to stop them.
abbrev pub after : {W : Type 0} → Client W → (q : Request) → ℕ → Answer W q → Answer W q
after c q zero a = a
after c q (suc k) a = after c q k (attempt c q a.1 (reconnect c a.2).1)

retry_ends :
    {W : Type 0} (c : Client W) (q : Request) (k fuel : ℕ) (a : Answer W q)
    → (after c q k a).0 ≡ good
    → k ≤ fuel
    → (end : Answer W q) × (retry fuel c q a ≡ some end) × (end.0 ≡ good)
unfolding retry
retry_ends c q k zero (good, r, w) e le = ((good, r, w), refl, refl)
retry_ends c q k (suc fuel) (good, r, w) e le = ((good, r, w), refl, refl)
retry_ends c q zero fuel (bad code, r, w) e le = absurd (bad-ne e)
retry_ends c q (suc k) zero (bad code, r, w) e le = absurd (omega arith)
retry_ends c q (suc k) (suc fuel) (bad code, r, w) e le =
    retry_ends c q k fuel (attempt c q r (reconnect c w).1) e (omega arith)

retry_never :
    {W : Type 0} (c : Client W) (q : Request) (fuel : ℕ) (a : Answer W q)
    → ((k : ℕ) → (after c q k a).0 ≢ good)
    → retry fuel c q a ≡ none
unfolding retry
retry_never c q fuel (good, r, w) fails = absurd (fails 0 refl)
retry_never c q zero (bad code, r, w) fails = refl
retry_never c q (suc fuel) (bad code, r, w) fails =
    retry_never c q fuel (attempt c q r (reconnect c w).1) (λ k. fails (suc k))

-- Whatever the network does, a call of the client with try_reconnect ends with a good status if
-- one of its attempts does and it may make as many, and if none does, it ends for no number of
-- attempts.
pub method_ends :
    {W : Type 0} (c : Client W) (q : Request) (r : Reply q) (w : W)
    → ((k : ℕ)
        → (after c q k (attempt c q r w)).0 ≡ good
        → (fuel : ℕ) → k ≤ fuel
        → (end : Answer W q) × (method fuel c q r true w ≡ some end) × (end.0 ≡ good))
      × (((k : ℕ) → (after c q k (attempt c q r w)).0 ≢ good)
          → (fuel : ℕ) → method fuel c q r true w ≡ none)
unfolding method
method_ends c q r w = (
  λ k reached fuel le. retry_ends c q k fuel (attempt c q r w) reached le,
  λ fails fuel. retry_never c q fuel (attempt c q r w) fails,
)

module _ {W : Type 0} (broker : W → Broker) (c : Client W) (carries : Carries broker c.link)
    (q : Request) (b : Broker) (told : Response)
    (no_effect : (now : ℤ) → serve calm now q b ≡ (ok told, b)) where
  pub record Told (a : Answer W q) : Type 0 where
    pub status : a.0 ≡ good
    pub reply : response q a.1 ≡ told
    pub kept : broker a.2 ≡ b

  Told-first :
      (now : ℤ) (r : Reply q) (w w' : W)
      → broker w ≡ b
      → serve calm now q (broker w) ≡ (ok (response q r), broker w')
      → Told (good, r, w')
  Told-first now r w w' same e =
      let whole = sym e ∙ ap (serve calm now q) same ∙ no_effect now in
      record { status = refl; reply = ok-eq (ap (λ p. p.0) whole); kept = ap (λ p. p.1) whole }

  kept_by :
      (now : ℤ) (answer : Response) (w w' : W)
      → broker w ≡ b
      → serve calm now q (broker w) ≡ (ok answer, broker w')
      → broker w' ≡ b
  kept_by now answer w w' same e =
      ap (λ p. p.1) (sym e ∙ ap (serve calm now q) same ∙ no_effect now)

  retry-Told :
      (fuel : ℕ) (w : W) (a end : Answer W q)
      → Carried broker q w a
      → broker w ≡ b
      → retry fuel c q a ≡ some end
      → Told end
  unfolding retry
  retry-Told zero w a end (answered now e) same done =
      subst Told (some-eq done) (Told-first now a.1 w a.2 same e)
  retry-Told (suc fuel) w a end (answered now e) same done =
      subst Told (some-eq done) (Told-first now a.1 w a.2 same e)
  retry-Told zero w a end (not_sent e) same done = absurd (none-ne done)
  retry-Told zero w a end (not_told now answer e) same done = absurd (none-ne done)
  retry-Told (suc fuel) w a end (not_sent {w' = w'} e) same done =
      retry-Told fuel (reconnect c w').1 _ end
        (attempt-Carried broker c carries q a.1 (reconnect c w').1)
        (reconnect-broker broker c carries w' ∙ e ∙ same) done
  retry-Told (suc fuel) w a end (not_told {w' = w'} now answer e) same done =
      retry-Told fuel (reconnect c w').1 _ end
        (attempt-Carried broker c carries q a.1 (reconnect c w').1)
        (reconnect-broker broker c carries w' ∙ kept_by now answer w w' same e) done

  -- The same with the loop of the macro.
  pub method-Told :
      (attempts : ℕ) (r : Reply q) (w : W) (end : Answer W q)
      → broker w ≡ b
      → method attempts c q r true w ≡ some end
      → Told end
  unfolding method
  method-Told attempts r w end same done =
      retry-Told attempts w _ end (attempt-Carried broker c carries q r w) same done
