-- ===== src/ServerProxy.antt =====
-- The loops of the workers of ServerCore/Network/ServerProxy.cpp, which execute the job queues of the
-- GlobalQueue until a time is over. The clock (GetTickCount64), what a queue does when it is executed
-- and the dispatching of a network event are parameters.
pub mod Loops
mod Tests
use rio_iocp_server.Prelude.{
  ℕ, zero, suc, ◌+◌, ◌%◌, none, some, ltb, ◌==◌, if◌then◌else◌, Outcome, ok, running, ◌>>=◌,
}
use rio_iocp_server.GlobalQueue.{GlobalQueue, pop}

-- `clock i` is the answer of the `i`-th call of GetTickCount64.
pub record Worker : Type 0 where
  pub clock : ℕ → ℕ
  pub execute : ℕ → GlobalQueue → GlobalQueue
  pub dispatch : GlobalQueue → GlobalQueue

abbrev pub worker_tick : ℕ
worker_tick = 64

abbrev pub rio_worker_tick : ℕ
rio_worker_tick = 90

-- `ULONG now = ::GetTickCount64()`
abbrev pub ulong : ℕ → ℕ
ulong n = n % 4294967296

-- The inner loop, from call `i` of the clock on, for at most `fuel` rounds: the number of calls made, and
-- the GlobalQueue. `running` when the rounds are not enough.
unfoldable pub execute_queues : Worker → ℕ → ℕ → ℕ → GlobalQueue → Outcome (ℕ × GlobalQueue)
execute_queues w zero end_tick i g = running
execute_queues w (suc fuel) end_tick i g =
    if ltb end_tick (ulong (w.clock i)) then ok (i + 1, g) else elim ((pop g).0) [
      | none ↦ ok (i + 1, (pop g).1)
      | some q ↦ execute_queues w fuel end_tick (i + 1) (w.execute q (pop g).1)
    ]

-- One round of a worker of an IocpServer.
unfoldable pub iocp_round : Worker → ℕ → ℕ → GlobalQueue → Outcome (ℕ × GlobalQueue)
iocp_round w fuel i g = execute_queues w fuel (w.clock i + worker_tick) (i + 1) (w.dispatch g)

-- The function that a thread of a RioServer calls after each `Dispatch`, from a thread's LEndTickCount
-- `end_tick`: the calls of the clock, the next LEndTickCount, and the GlobalQueue.
unfoldable pub rio_round : Worker → ℕ → ℕ → ℕ → GlobalQueue → Outcome (ℕ × ℕ × GlobalQueue)
rio_round w fuel i end_tick g =
    let (calls, until) =
      if end_tick == 0 then (i + 1, w.clock i + rio_worker_tick) else (i, end_tick) in
    execute_queues w fuel until calls g >>= λ (j, h). ok (j + 1, w.clock j + rio_worker_tick, h)
