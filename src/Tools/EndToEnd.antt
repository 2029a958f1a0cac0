-- ===== src/Tools/EndToEnd.antt =====
-- The programs as a whole, over a network that loses calls and answers, and serves calls late.
use mykafka.Prelude.{
  ℕ, suc, ◌<◌, ◌≤◌, ◌≡◌, sym, ap, subst, true, some, List, [], ◌∷◌, ◌++◌, ◌+◌, ◌*◌, arith, length,
}
use mykafka.Prelude.Int.{pos}
use mykafka.Segment.Layout.{Payload}
use mykafka.Config.Keys.{Key}
use mykafka.Broker.State.{Broker}
use mykafka.Broker.Log.{IsLog}
use mykafka.Network.Late.{Late, Delivers, Owes}
use mykafka.Network.Requests.{Request}
use mykafka.Network.Client.{Link, default_client}
use mykafka.Network.Delivers.{Carries, Reaches}
use mykafka.Tools.Lines.{Line, start_line, exits}
use mykafka.Tools.Named.{IsNamed, check_topic-IsNamed, check_partition-IsNamed}
use mykafka.Tools.Consumer.{Options, consumer}
use mykafka.Tools.Producer.{producer}
use mykafka.Tools.Orders.{Sent, Sent-AllWithin}
use mykafka.Tools.Producing.{RoomFor, Sizes-all_of, Leaves-later, send_lines-Leaves}
use mykafka.Tools.Within.{Small}
use mykafka.Tools.Receiving.{printed, from_offset}

module _ {W : Type 0} (broker : W → Broker) (link : Link W) (carries : Carries broker link)
    (size_limit attempts : ℕ)
    (reaches : Reaches broker size_limit attempts (default_client link)) where
  -- Over a network that may lose calls and answers, to a broker that no one else calls, late
  -- calls included, and no system call of which fails, and where a call that the broker answers,
  -- of which topic and payloads are no longer than a limit, does not fail more often in a row
  -- than the attempts allow: a consumer with --stop-if-no-message prints the messages of a log,
  -- which are within the limit as the topic is, from its offset on in their order, and below 0 it
  -- asks for the offsets first and begins with the first one; it stops at the offset that
  -- --nb-offset names, which counts from the start of the log, if that is above 0, but not before
  -- one message, or behind the empty line that it prints at the end of the log; it ends with code
  -- 0 if it may make more rounds than the log has messages, and the broker is as it was.
  pub consumer-printed :
      (o : Options) (m nb : ℕ) (ms : List Payload) (rounds : ℕ) (w : W)
      → IsNamed o.key
      → IsLog o.key m ms (broker w)
      → o.stop_no_msg ≡ true
      → o.nb_offset ≡ pos nb
      → Small size_limit o.key ms
      → length ms < rounds
      → (w' : W) × (consumer attempts rounds link o w
          ≡ some (record { code = 0; lines = printed nb o.offset ms; world = w' }))
        × (broker w' ≡ broker w)
  unfolding consumer
  consumer-printed o m nb ms rounds w named h stop limit small enough =
      let (w', e, kept) =
        from_offset broker link carries size_limit attempts reaches o.offset o m nb ms rounds w h
          stop limit small enough in
      (
        w',
        rw (check_topic-IsNamed o.key named, consumer) (rw (check_partition-IsNamed o.key named) e),
        kept,
      )

module _ {W : Type 0} (broker : W → Broker) (owed : W → List Request) (link : Link W)
    (delivers : Delivers broker owed link) (size_limit attempts : ℕ)
    (reaches : Reaches broker size_limit attempts (default_client link)) where
  -- Over a network that carries each call of the client once or not at all, where a call that
  -- ends with an error may be served at any later time, behind later ones too, to a broker that
  -- no one else calls and no system call of which fails, and where a call that the broker
  -- answers, of which topic and payloads are no longer than a limit, does not fail more often in
  -- a row than the attempts allow: a producer that has no calls under way, and whose lines are
  -- within the limit, as the topic is, and fit a log however often they are sent, ends with code
  -- 0; whichever of its calls are served behind its end, the log then has behind its old messages
  -- the lines in their order, one copy of each with the offset that was printed for it, and
  -- further copies, each behind the copies told of all lines before it; in all these are no more
  -- messages than the attempts and one more for each line.
  pub producer-Sent :
      (key : Key) (m : ℕ) (ms input : List Payload) (w : W)
      → IsNamed key
      → IsLog key m ms (broker w)
      → owed w ≡ []
      → RoomFor m attempts (length ms) input
      → Small size_limit key input
      → (lines : List Line) × (w' : W) × (producer attempts link key input w
          ≡ some (record { code = 0; lines = start_line ∷ lines; world = w' }))
        × ((b : Broker) (qs : List Request)
            → Late (broker w') (owed w') b qs
            → (messages : List Payload) × Sent [] (length ms) input messages lines
              × IsLog key m (ms ++ messages) b
              × (length messages ≤ length input * suc attempts))
  unfolding producer default_client
  producer-Sent key m ms input w named h none_owed room small =
      let bound = length ms + length input * suc attempts in
      let l =
        send_lines-Leaves broker owed (default_client link) delivers size_limit attempts reaches key
          m bound room.entries room.offsets small.0 [] ms input w tt room.sizes small.1 h
          (subst (Owes key []) (sym none_owed) tt) (omega (arith, ap length none_owed)) in
      (
        l.lines,
        l.world,
        rw (check_topic-IsNamed key named, producer)
            (rw (check_partition-IsNamed key named) (ap (exits (start_line ∷ [])) l.ends)),
        λ b qs late.
            let (messages, sent, log, count) =
              Leaves-later broker owed key m bound [] ms input _ l
                (record {
                  sizes = Sizes-all_of m input [] room.sizes tt;
                  entries = room.entries;
                  offsets = room.offsets;
                })
                b qs late in
            (messages, sent, log, omega (arith, count)),
      )

  -- Over a network that carries each call of the client once or not at all, where a call that
  -- ends with an error may be served at any later time, behind later ones too, to a broker that
  -- no one else calls and no system call of which fails, and where a call that the broker
  -- answers, of which topic and payloads are no longer than a limit, does not fail more often in
  -- a row than the attempts allow: a producer that has no calls under way and sends lines, within
  -- the limit as the topic is, to a partition which is a log without messages, all of which fit
  -- however often they are sent, ends with code 0; whichever of its calls are served behind its
  -- end, the messages then are the lines in their order, one copy of each with the offset that
  -- was printed for it, and further copies, each behind the line's turn, that is behind the
  -- copies told of all lines before it; a consumer over a network that loses calls and answers as
  -- much as that, while no late call is served, with --stop-if-no-message, prints these messages
  -- in their order from its offset on, or from the first one if it is below 0, as far as the
  -- offset that --nb-offset names, which counts from the start of the log, and the empty line at
  -- the end of the log if it gets there, and ends with code 0, if it may make more rounds than
  -- there are messages.
  pub produced-consumed :
      (link2 : Link W)
      → Carries broker link2
      → Reaches broker size_limit attempts (default_client link2)
      → (m nb : ℕ) (input : List Payload) (w : W) (o : Options) → IsNamed o.key
      → IsLog o.key m [] (broker w)
      → owed w ≡ []
      → RoomFor m attempts 0 input
      → Small size_limit o.key input
      → o.stop_no_msg ≡ true
      → o.nb_offset ≡ pos nb
      → (lines : List Line) × (w' : W) × (producer attempts link o.key input w
          ≡ some (record { code = 0; lines = start_line ∷ lines; world = w' }))
        × ((v : W) (qs : List Request)
            → Late (broker w') (owed w') (broker v) qs
            → (messages : List Payload) × Sent [] 0 input messages lines
              × ((rounds : ℕ)
                  → length messages < rounds
                  → (v' : W) × (consumer attempts rounds link2 o v
                      ≡ some
                          (record { code = 0; lines = printed nb o.offset messages; world = v' }))))
  produced-consumed link2 carries reaches2 m nb input w o named h none_owed room small stop limit =
      let (lines, w', e, later) = producer-Sent o.key m [] input w named h none_owed room small in
      (
        lines,
        w',
        e,
        λ v qs late.
            let (messages, sent, log, _) = later (broker v) qs late in
            (
              messages,
              sent,
              λ rounds enough.
                  let (v', printed_all, _) =
                    consumer-printed broker link2 carries size_limit attempts reaches2 o m nb
                      messages rounds v named log stop limit
                      (small.0, Sent-AllWithin size_limit sent tt small.1) enough in
                  (v', printed_all),
            ),
      )
