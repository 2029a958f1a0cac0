-- ===== src/Tools/Serve.antt =====
-- main-server.cc.
use mykafka.Prelude.{ℕ, zero, suc, [], ◌∷◌}
use mykafka.Prelude.Int.{ℤ, pos, negsuc}
use mykafka.Error.{Outcome, ok, err, fault, out_of_fuel}
use mykafka.Env.{Env}
use mykafka.Names.{Text}
use mykafka.Broker.State.{Broker}
use mykafka.Broker.Create.{load}
use mykafka.Network.Server.{Server}
use mykafka.Network.Steps.{idle}

-- The program ends with a code, or its server runs with a number of threads.
pub data Started : Type 0 where
  ended : ℕ → Started
  runs : ℕ → Server → Started

-- RpcServer::RpcServer: the cores of the machine if no number is given; a loop up to a number below
-- zero starts no thread.
unfoldable pub thread_number : ℕ → ℤ → ℕ
thread_number cores (pos zero) = cores
thread_number cores (pos (suc n)) = suc n
thread_number cores (negsuc n) = 0

unfoldable pub serve_loaded : ℕ → ℤ → Outcome (Unit {0}) × Broker → Outcome Started
unfolding thread_number
serve_loaded cores nb_threads (ok _, b) = ok (runs (thread_number cores nb_threads) (idle b))
serve_loaded cores nb_threads (err c, b) = ok (ended 1)
serve_loaded cores nb_threads (fault, b) = fault
serve_loaded cores nb_threads (out_of_fuel, b) = out_of_fuel

-- The broker has the base path `log_dir`.
unfoldable pub server : Env → ℤ → ℕ → ℤ → Text → Broker → Outcome Started
unfolding serve_loaded
server env now cores nb_threads [] b = ok (ended 1)
server env now cores nb_threads (c ∷ log_dir) b = serve_loaded cores nb_threads (load env now b)
