-- ===== src/ServerProxy/Tests.antt =====
-- Rounds of the workers of ServerCore/Network/ServerProxy.cpp, and the theorems at them.
use rio_iocp_server.Prelude.{ℕ, ◌+◌, ◌*◌, ◌≡◌, refl, [], ◌∷◌, ok, running, arith}
use rio_iocp_server.GlobalQueue.{GlobalQueue, pop, lock_pop}
use rio_iocp_server.ServerProxy.{Worker, execute_queues, iocp_round, rio_round}
use rio_iocp_server.ServerProxy.Loops.{Returns, execute_queues-Returns, iocp_round-endless}

-- A queue that is executed has more jobs when its time is over, and goes to the end of the GlobalQueue.
abbrev busy_worker : ℕ → ℕ → Worker
busy_worker boot step = record {
  clock = λ i. boot + step * i;
  execute = λ q g. record g { job_queues = q ∷ g.job_queues };
  dispatch = λ g. g;
}

abbrev two_queues : GlobalQueue
two_queues = record { job_queues = 5 ∷ 6 ∷ []; job_list = [] }

-- The call 3 is the first one past 64.
execute_queues_test : execute_queues (busy_worker 0 30) 9 64 0 two_queues ≡ ok (4, two_queues)
unfolding execute_queues pop lock_pop
execute_queues_test = refl

-- A thread that runs for the first time takes its end from the clock.
rio_round_test : rio_round (busy_worker 0 50) 9 0 0 two_queues ≡ ok (4, 240, two_queues)
unfolding rio_round execute_queues pop lock_pop
rio_round_test = refl

execute_queues-Returns_example : Returns (busy_worker 0 30) 4 64 0 two_queues
execute_queues-Returns_example =
    execute_queues-Returns (busy_worker 0 30) 3 64 0 two_queues (omega arith)

iocp_round-endless_example : iocp_round (busy_worker 4294967296 30) 1000 0 two_queues ≡ running
iocp_round-endless_example =
    iocp_round-endless (busy_worker 4294967296 30) 1000 0 two_queues (λ q k e. cc e) (λ e. cc e)
      (omega arith)
