-- ===== src/Tests/NetworkRuns.antt =====
-- Instances for the server and the client.
use mykafka.Prelude.{ℕ, ◌≡◌, ◌≢◌, refl, ap, true, false, some, none, List, [], ◌∷◌, inl, arith, ◌≤◌}
use mykafka.Prelude.Int.{pos}
use mykafka.Error.{success, ok}
use mykafka.Env.{calm}
use mykafka.Segment.Layout.{Payload}
use mykafka.Broker.State.{Broker}
use mykafka.Broker.Create.{create_partition}
use mykafka.Broker.Messages.{send_message}
use mykafka.Broker.Log.{IsLog, create_partition-IsLog, send_message-IsLog}
use mykafka.Network.Requests.{
  sends, fetches, asks_offsets, asks_info, creates, deletes, deletes_topic, offsets, told_offsets,
  Request, send, create, info, done, serve, answers,
}
use mykafka.Network.Server.{process, Operation, Server, specific_handle, new_service, handle_event}
use mykafka.Network.Steps.{Call, event, without, Step, Runs, here, begins, next, idle}
use mykafka.Network.Serving.{replay, served_in_order, no_stale_object}
use mykafka.Network.Ready.{waiting, waiting_for_all, call_taken}
use mykafka.Network.Client.{reconnect, good, Answer, default_client, method, no_reply, attempt}
use mykafka.Network.Delivers.{Answerable, serve-send}
use mykafka.Network.Late.{Fit}
use mykafka.Network.Copies.{Copies, method-Copies}
use mykafka.Tests.SlowLinks.{
  Slow, slow_broker, under_way, slow_link, slow_client-Delivers, slow_call-good,
}
use mykafka.Network.Retry.{Told, method-Told, method_ends, after}
use mykafka.Tests.BrokerRuns.{empty, request, no_topic, no_directory, no_file, no_config}
use mykafka.Tools.Receiving.{offsets_of_log, serve-offsets}
use mykafka.Tests.ConfigRuns.{key}
use mykafka.Tests.Links.{World, broker_of, link, client-Carries, link-Reaches}

-- A broker with a partition without messages.
abbrev pub made : Broker
made =
    (create_partition-IsLog 4096 (pos 3) request empty no_topic no_directory no_file no_config refl
      refl refl).0

pub made-IsLog : IsLog key 4096 [] made
made-IsLog =
    (create_partition-IsLog 4096 (pos 3) request empty no_topic no_directory no_file no_config refl
      refl refl).2

create_partition-IsLog_example :
    (b' : Broker) × (create_partition calm (pos 3) request empty ≡ (ok tt, b'))
    × IsLog key 4096 [] b'
create_partition-IsLog_example =
    create_partition-IsLog 4096 (pos 3) request empty no_topic no_directory no_file no_config refl
      refl refl

abbrev pub hello : Payload
hello = b'h' ∷ b'i' ∷ []

send_message-IsLog_example :
    (b' : Broker) × (send_message calm (pos 4) key hello made
      ≡ (ok (record { code = success; offset = pos 0 }), b'))
    × IsLog key 4096 (hello ∷ []) b'
send_message-IsLog_example =
    send_message-IsLog key 4096 [] made (pos 4) hello made-IsLog (omega arith)

-- A server with one thread takes a request.
one_thread : Runs (idle empty) 1 [] (specific_handle (idle empty))
one_thread = begins here

abbrev creation : Call
creation = record { env = calm; now = pos 3; request = create request }

created :
    serve calm (pos 3) (create request) (specific_handle (idle empty)).broker
    ≡ (ok (done success), made)
unfolding serve specific_handle
created =
    rw
      (
        (create_partition-IsLog 4096 (pos 3) request empty no_topic no_directory no_file no_config
            refl refl refl).1,
        serve,
      )
      refl

call_taken_example :
    (u : Server) × Step (specific_handle (idle empty)) (creation ∷ []) u
    × (u.broker ≡ made)
    × (u.finished ≡ done success ∷ [])
unfolding specific_handle
call_taken_example =
    call_taken empty (specific_handle (idle empty)) 1 [] creation (done success) made one_thread
      (omega arith) created

abbrev answered_server : Server
answered_server =
    (call_taken empty (specific_handle (idle empty)) 1 [] creation (done success) made one_thread
      (omega arith) created).0

one_call : Runs (idle empty) 1 (creation ∷ []) answered_server
one_call =
    next one_thread
      (call_taken empty (specific_handle (idle empty)) 1 [] creation (done success) made one_thread
        (omega arith) created).1

served_in_order_example :
    replay (creation ∷ []) empty [] ≡ some (answered_server.broker, answered_server.finished)
served_in_order_example = served_in_order empty answered_server 1 (creation ∷ []) one_call

waiting_for_all_example : waiting sends answered_server.pending ≡ 1
waiting_for_all_example = waiting_for_all empty answered_server 1 (creation ∷ []) sends one_call

-- The first operation that waits.
abbrev first_wait : Operation
first_wait = record { tag = 6; kind = deletes_topic; stage = process }

abbrev others : List Operation
others =
    record { tag = 5; kind = deletes; stage = process }
    ∷ record { tag = 4; kind = creates; stage = process }
    ∷ record { tag = 3; kind = asks_info; stage = process }
    ∷ record { tag = 2; kind = asks_offsets; stage = process }
    ∷ record { tag = 1; kind = fetches; stage = process }
    ∷ record { tag = 0; kind = sends; stage = process }
    ∷ []

pending_there : (specific_handle (idle empty)).pending ≡ first_wait ∷ others
unfolding specific_handle new_service
pending_there = refl

no_stale_object_example :
    (handle_event calm
      (pos 3)
      (event 6 (create request))
      (without [] others (specific_handle (idle empty)))).0
    ≡ answers
        (λ _. tt)
        (serve calm (pos 3) (create request) (specific_handle (idle empty)).broker).0
no_stale_object_example =
    no_stale_object empty (specific_handle (idle empty)) 1 [] [] others first_wait calm (pos 3)
      (create request) one_thread pending_there

-- A client of the broker.
abbrev pub world : World
world = record { broker = made; flaky = true }

method_ends_example :
    ((k : ℕ)
      → (after
          (default_client link)
          info
          k
          (attempt (default_client link) info (no_reply info) world)).0
        ≡ good
      → (fuel : ℕ) → k ≤ fuel
      → (end : Answer World info) × (method fuel
            (default_client link)
            info
            (no_reply info)
            true
            world
          ≡ some end)
        × (end.0 ≡ good))
    × (((k : ℕ)
          → (after
              (default_client link)
              info
              k
              (attempt (default_client link) info (no_reply info) world)).0
            ≢ good)
        → (fuel : ℕ) → method fuel (default_client link) info (no_reply info) true world ≡ none)
method_ends_example = method_ends (default_client link) info (no_reply info) world

abbrev hello_sent : Request
hello_sent = send key hello

answerable_hello : Answerable 1000000 hello_sent made
answerable_hello now =
    let (b', e, _) = send_message-IsLog key 4096 [] made now hello made-IsLog (omega arith) in
    (
      record { code = success; offset = pos 0 },
      b',
      serve-send now key hello made b' _ e,
      (omega arith, omega arith),
    )

abbrev start : Slow
start = record { world = world; owed = [] }

hello-Fit : Fit 4096 2 (hello ∷ [])
hello-Fit = record { sizes = (omega arith, tt); entries = omega arith; offsets = omega arith }

second_attempt :
    (after
      (default_client slow_link)
      hello_sent
      1
      (attempt (default_client slow_link) hello_sent (no_reply hello_sent) start)).0
    ≡ good
unfolding default_client attempt reconnect
second_attempt =
    ap (λ a. a.0)
      (slow_call-good 1000000 hello_sent (no_reply hello_sent)
        (record { world = record world { flaky = false }; owed = hello_sent ∷ [] })
        answerable_hello).2

-- The first attempt passes its deadline, and is served behind the second one.
method-Copies_example :
    (end : Answer Slow hello_sent) × (method 1
        (default_client slow_link)
        hello_sent
        (no_reply hello_sent)
        true
        start
      ≡ some end)
    × Copies slow_broker under_way
        (default_client slow_link)
        slow_client-Delivers
        key
        4096
        2
        (hello ∷ [])
        hello-Fit
        hello
        (inl refl)
        1
        []
        0
        (attempt (default_client slow_link) hello_sent (no_reply hello_sent) start)
        end
method-Copies_example =
    method-Copies slow_broker under_way (default_client slow_link) slow_client-Delivers key 4096 2
      (hello ∷ []) hello-Fit hello (inl refl) 1 [] (no_reply hello_sent) start 1 made-IsLog tt
      (omega arith) second_attempt (omega arith)

abbrev start_asked : Request
start_asked = offsets key

answerable_start : Answerable 1000000 start_asked made
answerable_start now =
    (offsets_of_log [], made, serve-offsets now key 4096 [] made made-IsLog, omega arith)

method-Told_example :
    Told broker_of
      (default_client link)
      client-Carries
      start_asked
      made
      (told_offsets (offsets_of_log []))
      (λ now. serve-offsets now key 4096 [] made made-IsLog)
      (link-Reaches 1000000 start_asked (no_reply start_asked) world answerable_start).0
method-Told_example =
    method-Told broker_of (default_client link) client-Carries start_asked made
      (told_offsets (offsets_of_log [])) (λ now. serve-offsets now key 4096 [] made made-IsLog) 1
      (no_reply start_asked) world
      (link-Reaches 1000000 start_asked (no_reply start_asked) world answerable_start).0 refl
      (link-Reaches 1000000 start_asked (no_reply start_asked) world answerable_start).1
