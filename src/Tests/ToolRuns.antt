-- ===== src/Tests/ToolRuns.antt =====
-- Instances for the programs of the command line.
use mykafka.Prelude.{ℕ, ◌<◌, ◌≤◌, ◌≡◌, refl, true, some, List, [], ◌∷◌, ◌⊎◌, arith, length}
use mykafka.Prelude.Int.{pos, negsuc}
use mykafka.Segment.Layout.{Payload}
use mykafka.Broker.Log.{IsLog, send_message-IsLog}
use mykafka.Broker.State.{Broker}
use mykafka.Network.Requests.{Request}
use mykafka.Network.Late.{Late}
use mykafka.Tools.Within.{Small}
use mykafka.Tests.SlowLinks.{
  Slow, slow_broker, under_way, slow_link, slow-Delivers, slow-Reaches, sure_link, sure-Carries,
  sure-Reaches,
}
use mykafka.Tools.Lines.{Line, start_line}
use mykafka.Tools.Named.{IsNamed}
use mykafka.Tools.Consumer.{Options, consumer}
use mykafka.Tools.Producer.{producer}
use mykafka.Tools.Orders.{Sent}
use mykafka.Tools.Producing.{RoomFor}
use mykafka.Tools.Ctl.{CtlOptions, create_word, ctl}
use mykafka.Tools.Creating.{ctl-create}
use mykafka.Tools.Receiving.{printed}
use mykafka.Tools.EndToEnd.{consumer-printed, producer-Sent, produced-consumed}
use mykafka.Tests.BrokerRuns.{empty, request, no_topic, no_directory, no_file, no_config}
use mykafka.Tests.ConfigRuns.{key}
use mykafka.Tests.Links.{World, broker_of, link, link-Carries, link-Reaches}
use mykafka.Tests.NetworkRuns.{world, made, made-IsLog, hello}

key-IsNamed : IsNamed key
key-IsNamed = record { topic = λ e. ground (arith, e); partition = refl }

abbrev bye : Payload
bye = b'b' ∷ b'y' ∷ b'e' ∷ []

abbrev input : List Payload
input = hello ∷ bye ∷ []

input-RoomFor : RoomFor 4096 1 0 input
input-RoomFor = record {
  sizes = (omega arith, (omega arith, tt));
  entries = omega arith;
  offsets = omega arith;
}

abbrev options : Options
options = record { key = key; offset = negsuc 0; nb_offset = pos 0; stop_no_msg = true }

abbrev start : Slow
start = record { world = world; owed = [] }

input-Small : Small 1000000 key input
input-Small = (omega arith, (omega arith, (omega arith, tt)))

producer-Sent_example :
    (lines : List Line) × (w' : Slow) × (producer 1 slow_link key input start
      ≡ some (record { code = 0; lines = start_line ∷ lines; world = w' }))
    × ((b : Broker) (qs : List Request)
        → Late (slow_broker w') (under_way w') b qs
        → (messages : List Payload) × Sent [] 0 input messages lines
          × IsLog key 4096 messages b
          × (length messages ≤ 4))
producer-Sent_example =
    producer-Sent slow_broker under_way slow_link slow-Delivers 1000000 1 (slow-Reaches 1000000) key
      4096 [] input start key-IsNamed made-IsLog refl input-RoomFor input-Small

produced-consumed_example :
    (lines : List Line) × (w' : Slow) × (producer 1 slow_link key input start
      ≡ some (record { code = 0; lines = start_line ∷ lines; world = w' }))
    × ((v : Slow) (qs : List Request)
        → Late (slow_broker w') (under_way w') (slow_broker v) qs
        → (messages : List Payload) × Sent [] 0 input messages lines
          × ((rounds : ℕ)
              → length messages < rounds
              → (v' : Slow) × (consumer 1 rounds sure_link options v
                  ≡ some (record { code = 0; lines = printed 0 (negsuc 0) messages; world = v' }))))
produced-consumed_example =
    produced-consumed slow_broker under_way slow_link slow-Delivers 1000000 1 (slow-Reaches 1000000)
      sure_link sure-Carries (sure-Reaches 1000000) 4096 0 input start options key-IsNamed
      made-IsLog refl input-RoomFor input-Small refl refl

-- A log with a message.
abbrev with_hello : World
with_hello = record {
  broker = (send_message-IsLog key 4096 [] made (pos 4) hello made-IsLog (omega arith)).0;
  flaky = true;
}

with_hello-IsLog : IsLog key 4096 (hello ∷ []) with_hello.broker
with_hello-IsLog = (send_message-IsLog key 4096 [] made (pos 4) hello made-IsLog (omega arith)).2

consumer-printed_example :
    (w' : World) × (consumer 1 5 link options with_hello
      ≡ some (record { code = 0; lines = printed 0 (negsuc 0) (hello ∷ []); world = w' }))
    × (w'.broker ≡ with_hello.broker)
consumer-printed_example =
    consumer-printed broker_of link link-Carries 1000000 1 (link-Reaches 1000000) options 4096 0
      (hello ∷ []) 5 with_hello key-IsNamed with_hello-IsLog refl refl
      (omega arith, (omega arith, tt)) (omega arith)

abbrev ctl_options : CtlOptions
ctl_options = record { action = create_word; request = request }

ctl-create_example :
    ((ctl link ctl_options (record { broker = empty; flaky = true })).code ≡ 0)
      × IsLog key 4096 []
          (ctl link ctl_options (record { broker = empty; flaky = true })).world.broker
    ⊎ ((ctl link ctl_options (record { broker = empty; flaky = true })).code ≡ 5)
ctl-create_example =
    ctl-create broker_of link link-Carries 4096 request
      (record { segment_size = refl; no_limit = refl; no_ttl = refl }) ctl_options
      (record { broker = empty; flaky = true }) refl refl key-IsNamed
      (record {
        unknown = no_topic;
        no_files = no_directory;
        no_file = no_file;
        absent = no_config;
      })
