-- ===== src/Tools/Consumer.antt =====
-- main-consumer.cc.
use mykafka.Prelude.{
  ℕ, zero, suc, Bool, true, false, ◌&&◌, Option, none, some, List, [], ◌∷◌, ◌++◌, if◌then◌else◌,
}
use mykafka.Prelude.Int.{ℤ, pos, ltb_ℤ, leb_ℤ, ◌+ℤ◌}
use mykafka.Error.{ErrCode, success, no_message}
use mykafka.Config.Keys.{Key}
use mykafka.Broker.Messages.{GetResponse}
use mykafka.Network.Requests.{fetch, offsets}
use mykafka.Network.Client.{Status, good, bad, Link, Client, default_client, no_reply}
use mykafka.Network.Calls
use mykafka.Tools.Lines.{
  Line, status_line, code_line, offsets_line, start_line, wait_line, payload_line, Exit,
  check_topic, check_partition, check_error, or_else, stopped, prepend, exits,
}

-- The options; the address is in the link.
pub record Options : Type 0 where
  pub key : Key
  pub offset : ℤ
  pub nb_offset : ℤ
  pub stop_no_msg : Bool

-- What a round of the loop leaves.
pub record Round (W : Type 0) : Type 0 where
  pub offset : ℤ
  pub stop : Bool
  pub lines : List Line
  pub world : W

unfoldable pub payload_or_status : Status → ℤ → GetResponse → Line
payload_or_status good offset r = payload_line offset r.payload
payload_or_status (bad code) offset r = status_line code

-- The switch on the code of the response: the next offset, the end, and what is printed.
unfoldable pub switch : Bool → ErrCode → ℤ → ℤ × Bool × List Line
switch stop_no_msg success offset = (offset +ℤ pos 1, false, [])
switch stop_no_msg no_message offset =
    if stop_no_msg then (offset, true, []) else (offset, false, wait_line ∷ [])
switch stop_no_msg c offset = (offset, true, code_line c ∷ [])

unfoldable pub round_of : {W : Type 0} → Options → ℤ → Status → GetResponse → W → Round W
unfolding payload_or_status switch
round_of o offset status r w =
    let (offset', stop, lines) = switch o.stop_no_msg r.code offset in
    record {
      offset = offset';
      stop = if ltb_ℤ (pos 0) o.nb_offset && leb_ℤ o.nb_offset offset' then true else stop;
      lines = payload_or_status status offset r ∷ lines;
      world = w;
    }

module _ {W : Type 0} (attempts : ℕ) (c : Client W) (o : Options) where
  unfoldable pub round : ℤ → W → Option (Round W)
  unfolding round_of
  round offset w =
      elim (Calls.get_message attempts c o.key offset (no_reply (fetch o.key offset)) true w) [
        | none ↦ none
        | some a ↦ let (status, r, w') = a in some (round_of o offset status r w')
      ]

  -- The loop, for at most the given rounds.
  unfoldable pub loop : ℕ → ℤ → W → Option (List Line × W)
  unfolding round
  loop zero offset w = none
  loop (suc rounds) offset w = elim (round offset w) [
    | none ↦ none
    | some r ↦
        let rest = prepend r.lines (loop rounds r.offset r.world) in
        if r.stop then some (r.lines, r.world) else rest
  ]

  unfoldable pub receive : ℕ → List Line → ℤ → W → Option (Exit W)
  unfolding loop
  receive rounds before offset w = exits (before ++ start_line ∷ []) (loop rounds offset w)

  -- The start is asked for if it is below zero.
  unfoldable pub ask_start : ℕ → W → Option (Exit W)
  unfolding receive
  ask_start rounds w = elim (Calls.get_offsets attempts c o.key (no_reply (offsets o.key)) true w) [
    | none ↦ none
    | some a ↦
        let (status, r, w') = a in
        or_else (check_error status r.code) (λ e. some (stopped [] w' e))
          (receive rounds (offsets_line r ∷ []) r.first_offset w')
  ]

unfoldable pub consumer : {W : Type 0} → ℕ → ℕ → Link W → Options → W → Option (Exit W)
unfolding ask_start
consumer attempts rounds link o w =
    let c = default_client link in
    or_else (check_topic o.key.topic) (λ e. some (stopped [] w e))
      (or_else (check_partition o.key.partition) (λ e. some (stopped [] w e))
        (if ltb_ℤ o.offset (pos 0)
          then ask_start attempts c o rounds w
          else receive attempts c o rounds [] o.offset w))
