-- ===== src/Tools/Consuming.antt =====
-- What the consumer prints of the log of a partition.
use mykafka.Prelude.{
  ℕ, zero, suc, ◌<◌, ◌≤◌, ◌≡◌, refl, sym, ap, ap₂, ◌∙◌, subst, true, false, ◌&&◌, ltb, leb, none,
  some, List, [], ◌∷◌, arith, length, get_elem?, drop, if◌then◌else◌, Bool-cases, inl, inr,
}
use mykafka.Prelude.Int.{ℤ, pos}
use mykafka.Error.{ok}
use mykafka.Env.{calm}
use mykafka.Segment.Layout.{Payload}
use mykafka.Config.Keys.{Key}
use mykafka.Broker.State.{Broker}
use mykafka.Broker.Messages.{GetResponse}
use mykafka.Broker.Log.{IsLog, log_message}
use mykafka.Network.Requests.{fetch, fetched, serve}
use mykafka.Network.Client.{good, Client, no_reply}
use mykafka.Network.Delivers.{Carries, Reaches}
use mykafka.Network.Retry.{method-Told}
use mykafka.Tools.Lines.{Line, payload_line, prepend}
use mykafka.Tools.Within.{AllWithin, Small}
use mykafka.Tools.Consumer.{Options, Round, round_of, round, loop}

-- The lines for messages from an offset on, up to the offset that `--nb-offset` names (0 is none), and the
-- empty line at the end.
abbrev pub received : ℕ → ℕ → List Payload → List Line
received nb n [] = payload_line (pos n) [] ∷ []
received nb n (x ∷ xs) =
    let rest = received nb (suc n) xs in
    payload_line (pos n) x ∷ (if ltb 0 nb && leb nb (suc n) then [] else rest)

serve-fetch :
    (now : ℤ) (key : Key) (m : ℕ) (ms : List Payload) (b : Broker) (n : ℕ)
    → IsLog key m ms b
    → serve calm now (fetch key (pos n)) b ≡ (ok (fetched (log_message (get_elem? ms n))), b)
unfolding serve
serve-fetch now key m ms b n h = rw (h.answers (pos n), serve) refl

log_message-small :
    (limit : ℕ) (ms : List Payload) (n : ℕ)
    → AllWithin limit ms
    → length (log_message (get_elem? ms n)).payload ≤ limit
log_message-small limit [] n small = omega arith
log_message-small limit (x ∷ ms) zero small = small.0
log_message-small limit (x ∷ ms) (suc n) small = log_message-small limit ms n small.1

fetched-eq : {r s : GetResponse} → fetched r ≡ fetched s → r ≡ s
fetched-eq {r} e = ap (λ a. elim a as (λ _. GetResponse) [ fetched x ↦ x | _ ↦ r ]) e

-- What is left from an offset on.
drop-nil : (ms : List Payload) (n : ℕ) → drop n ms ≡ [] → get_elem? ms n ≡ none
drop-nil [] n e = refl
drop-nil (x ∷ ms) zero e = absurd (ground (arith, e))
drop-nil (x ∷ ms) (suc n) e = drop-nil ms n e

drop-cons :
    (ms : List Payload) (n : ℕ) (x : Payload) (xs : List Payload)
    → drop n ms ≡ x ∷ xs
    → (get_elem? ms n ≡ some x) × (drop (suc n) ms ≡ xs)
drop-cons [] zero x xs e = absurd (ground (arith, e))
drop-cons [] (suc n) x xs e = absurd (ground (arith, e))
drop-cons (y ∷ ms) zero x xs e = (ground (arith, e), ground (arith, e))
drop-cons (y ∷ ms) (suc n) x xs e = drop-cons ms n x xs e

module _ {W : Type 0} (broker : W → Broker) (c : Client W) (carries : Carries broker c.link)
    (size_limit attempts : ℕ) (reaches : Reaches broker size_limit attempts c) (o : Options)
    (m nb : ℕ) (ms : List Payload) (small : Small size_limit o.key ms) (b : Broker)
    (h : IsLog o.key m ms b) (stop : o.stop_no_msg ≡ true) (limit : o.nb_offset ≡ pos nb) where
  -- A round hands over what the log answers.
  round_lem :
      (n : ℕ) (w : W)
      → broker w ≡ b
      → (w' : W) × (round attempts c o (pos n) w
          ≡ some (round_of o (pos n) good (log_message (get_elem? ms n)) w'))
        × (broker w' ≡ b)
  unfolding round
  round_lem n w same =
      let q = fetch o.key (pos n) in
      let (a, e) = reaches q (no_reply q) w (λ now. (
        _,
        broker w,
        serve-fetch now o.key m ms (broker w) n (subst (IsLog o.key m ms) (sym same) h),
        (small.0, log_message-small size_limit ms n small.1),
      )) in
      let told =
        method-Told broker c carries q b (fetched (log_message (get_elem? ms n)))
          (λ now. serve-fetch now o.key m ms b n h) attempts (no_reply q) w a same e in
      (
        a.2,
        rw (e, round)
            (ap₂ (λ s r. some (round_of o (pos n) s r a.2)) told.status (fetched-eq told.reply)),
        told.kept,
      )

  round_none :
      (n : ℕ) (w : W)
      → round_of o (pos n) good (log_message none) w
        ≡ record { offset = pos n; stop = true; lines = payload_line (pos n) [] ∷ []; world = w }
  unfolding round_of
  round_none n w = ground arith

  round_some :
      (n : ℕ) (x : Payload) (w : W)
      → round_of o (pos n) good (log_message (some x)) w ≡ record {
        offset = pos (suc n);
        stop = ltb 0 nb && leb nb (suc n);
        lines = payload_line (pos n) x ∷ [];
        world = w;
      }
  unfolding round_of
  round_some n x w = ground arith

  module _ (rounds : ℕ) (offset : ℤ) (w : W) (r : Round W)
      (e : round attempts c o offset w ≡ some r) where
    loop-stop : r.stop ≡ true → loop attempts c o (suc rounds) offset w ≡ some (r.lines, r.world)
    unfolding loop
    loop-stop s = rw (e, loop) (rw s refl)

    loop-go :
        r.stop ≡ false
        → loop attempts c o (suc rounds) offset w
          ≡ prepend r.lines (loop attempts c o rounds r.offset r.world)
    unfolding loop
    loop-go s = rw (e, loop) (rw s refl)

  pub loop-received :
      (rounds n : ℕ) (xs : List Payload) (w : W)
      → broker w ≡ b
      → drop n ms ≡ xs
      → length xs < rounds
      → (w' : W) × (loop attempts c o rounds (pos n) w ≡ some (received nb n xs, w'))
        × (broker w' ≡ b)
  loop-received zero n xs w same rest lt = absurd (omega arith)
  loop-received (suc rounds) n [] w same rest lt =
      let (w', e, kept) = round_lem n w same in
      let answer =
        e
        ∙ ap (λ m. some (round_of o (pos n) good (log_message m) w')) (drop-nil ms n rest)
        ∙ ap some (round_none n w') in
      (w', loop-stop rounds (pos n) w _ answer refl, kept)
  loop-received (suc rounds) n (x ∷ xs) w same rest lt =
      let (w', e, kept) = round_lem n w same in
      let (there, later) = drop-cons ms n x xs rest in
      let answer =
        e
        ∙ ap (λ m. some (round_of o (pos n) good (log_message m) w')) there
        ∙ ap some (round_some n x w') in
      elim (Bool-cases (ltb 0 nb && leb nb (suc n))) [
        | inl enough ↦ (w', loop-stop rounds (pos n) w _ answer enough ∙ rw enough refl, kept)
        | inr more ↦
            let (end, e', kept') = loop-received rounds (suc n) xs w' kept later (omega arith) in
            (
              end,
              loop-go rounds (pos n) w _ answer more
                  ∙ ap (prepend (payload_line (pos n) x ∷ [])) e'
                  ∙ rw more refl,
              kept',
            )
      ]
