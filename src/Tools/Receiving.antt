-- ===== src/Tools/Receiving.antt =====
-- What the consumer prints from the offset on that it is given, or that it asks for.
use mykafka.Prelude.{
  ℕ, zero, suc, ◌<◌, ◌≤◌, ◌≡◌, refl, sym, ap, ap₂, ◌∙◌, subst, true, false, some, List, [], ◌∷◌,
  ◌++◌, arith, length, drop, if◌then◌else◌,
}
use mykafka.Prelude.Int.{ℤ, pos, negsuc, ltb_ℤ, ◌-ℤ◌}
use mykafka.Error.{success, ok}
use mykafka.Env.{calm}
use mykafka.Segment.Layout.{Payload}
use mykafka.Config.Keys.{Key}
use mykafka.Broker.State.{Broker}
use mykafka.Broker.Messages.{OffsetsResponse}
use mykafka.Broker.Offsets.{get_offsets-Serves}
use mykafka.Broker.Log.{IsLog}
use mykafka.Network.Requests.{offsets, told_offsets, serve}
use mykafka.Network.Client.{Link, default_client, no_reply}
use mykafka.Network.Delivers.{Carries, Reaches}
use mykafka.Network.Retry.{method-Told}
use mykafka.Tools.Lines.{Line, start_line, offsets_line, check_error, or_else, stopped, exits}
use mykafka.Tools.Consumer.{Options, receive, ask_start}
use mykafka.Tools.Consuming.{received, loop-received}
use mykafka.Tools.Within.{Small}

abbrev pub offsets_of_log : List Payload → OffsetsResponse
offsets_of_log ms = record {
  code = success;
  first_offset = pos 0;
  commit_offset = pos (length ms) -ℤ pos 1;
  last_offset = pos (length ms) -ℤ pos 1;
}

pub serve-offsets :
    (now : ℤ) (key : Key) (m : ℕ) (ms : List Payload) (b : Broker)
    → IsLog key m ms b
    → serve calm now (offsets key) b ≡ (ok (told_offsets (offsets_of_log ms)), b)
unfolding serve
serve-offsets now key m ms b h =
    rw (get_offsets-Serves key h.chunks h.last h.partition h.info b h.serves, serve)
      (rw (h.first, h.committed, h.next) refl)

-- What the consumer prints from an offset on; below zero it asks where the log starts.
abbrev pub printed : ℕ → ℤ → List Payload → List Line
printed nb (pos n) ms = start_line ∷ received nb n (drop n ms)
printed nb (negsuc _) ms = offsets_line (offsets_of_log ms) ∷ start_line ∷ received nb 0 ms

length-drop : (n : ℕ) (ms : List Payload) → length (drop n ms) ≤ length ms
length-drop zero ms = omega arith
length-drop (suc n) [] = omega arith
length-drop (suc n) (x ∷ ms) = omega (arith, length-drop n ms)

not_below : (n : ℕ) → ltb_ℤ (pos n) (pos 0) ≡ false
not_below n = ground arith

told_offsets-eq : {r s : OffsetsResponse} → told_offsets r ≡ told_offsets s → r ≡ s
told_offsets-eq {r} e = ap (λ a. elim a as (λ _. OffsetsResponse) [ told_offsets x ↦ x | _ ↦ r ]) e

module _ {W : Type 0} (broker : W → Broker) (link : Link W) (carries : Carries broker link)
    (size_limit attempts : ℕ)
    (reaches : Reaches broker size_limit attempts (default_client link)) where
  receive-received :
      (o : Options) (m nb : ℕ) (ms : List Payload) (rounds n : ℕ) (before : List Line) (w : W)
      → IsLog o.key m ms (broker w)
      → o.stop_no_msg ≡ true
      → o.nb_offset ≡ pos nb
      → Small size_limit o.key ms
      → length (drop n ms) < rounds
      → (w' : W) × (receive attempts (default_client link) o rounds before (pos n) w
          ≡ some (record {
            code = 0;
            lines = (before ++ start_line ∷ []) ++ received nb n (drop n ms);
            world = w';
          }))
        × (broker w' ≡ broker w)
  unfolding receive default_client
  receive-received o m nb ms rounds n before w h stop limit small enough =
      let (w', e, kept) =
        loop-received broker (default_client link) carries size_limit attempts reaches o m nb ms
          small (broker w) h stop limit rounds n (drop n ms) w refl refl enough in
      (w', ap (exits (before ++ start_line ∷ [])) e, kept)

  ask_start-received :
      (o : Options) (m nb : ℕ) (ms : List Payload) (rounds : ℕ) (w : W)
      → IsLog o.key m ms (broker w)
      → o.stop_no_msg ≡ true
      → o.nb_offset ≡ pos nb
      → Small size_limit o.key ms
      → length ms < rounds
      → (w' : W) × (ask_start attempts (default_client link) o rounds w
          ≡ some (record {
            code = 0;
            lines = offsets_line (offsets_of_log ms) ∷ start_line ∷ received nb 0 ms;
            world = w';
          }))
        × (broker w' ≡ broker w)
  unfolding ask_start check_error default_client
  ask_start-received o m nb ms rounds w h stop limit small enough =
      let q = offsets o.key in
      let (a, e) =
        reaches q (no_reply q) w
          (λ now. (_, broker w, serve-offsets now o.key m ms (broker w) h, small.0)) in
      let told =
        method-Told broker (default_client link) carries q (broker w)
          (told_offsets (offsets_of_log ms)) (λ now. serve-offsets now o.key m ms (broker w) h)
          attempts (no_reply q) w a refl e in
      let (w', received_all, kept) =
        receive-received o m nb ms rounds 0 (offsets_line (offsets_of_log ms) ∷ []) a.2
          (subst (IsLog o.key m ms) (sym told.kept) h) stop limit small enough in
      (
        w',
        rw (e, ask_start)
            (ap₂
                (λ status r.
                  or_else (check_error status r.code) (λ e. some (stopped [] a.2 e))
                    (receive attempts (default_client link) o rounds (offsets_line r ∷ [])
                      r.first_offset a.2))
                told.status (told_offsets-eq told.reply)
              ∙ received_all),
        kept ∙ told.kept,
      )

  pub from_offset :
      (z : ℤ) (o : Options) (m nb : ℕ) (ms : List Payload) (rounds : ℕ) (w : W)
      → IsLog o.key m ms (broker w)
      → o.stop_no_msg ≡ true
      → o.nb_offset ≡ pos nb
      → Small size_limit o.key ms
      → length ms < rounds
      → (w' : W) × ((if ltb_ℤ z (pos 0)
            then ask_start attempts (default_client link) o rounds w
            else receive attempts (default_client link) o rounds [] z w)
          ≡ some (record { code = 0; lines = printed nb z ms; world = w' }))
        × (broker w' ≡ broker w)
  from_offset (pos n) o m nb ms rounds w h stop limit small enough =
      let (w', e, kept) =
        receive-received o m nb ms rounds n [] w h stop limit small
          (omega (arith, length-drop n ms)) in
      (w', rw (not_below n) e, kept)
  from_offset (negsuc n) o m nb ms rounds w h stop limit small enough =
      ask_start-received o m nb ms rounds w h stop limit small enough
