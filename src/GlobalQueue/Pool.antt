-- ===== src/GlobalQueue/Pool.antt =====
-- All job queues of a process, the threads that use them and the GlobalQueue: the steps of the module
-- JobQueue, where a queue that is announced goes into the GlobalQueue, and a worker (ServerProxy.cpp)
-- executes the queue that it takes out.
use rio_iocp_server.Prelude.{
  ℕ, suc, ◌+◌, ◌-◌, ◌≡◌, Bool, some, List, [], ◌∷◌, ◌++◌, not, ◌&&◌, length, at,
}
use rio_iocp_server.JobQueue.{count_job, push_job, pop_all, uncount_jobs}
use rio_iocp_server.JobQueue.Workers.{Workers, count}
use rio_iocp_server.GlobalQueue.{GlobalQueue, push, pop}

-- `pushed` has the jobs that were pushed to each queue, in order.
pub record Pool : Type 0 where
  pub queues : ℕ → Workers
  pub pushed : ℕ → List ℕ
  pub global : GlobalQueue

abbrev pub set_queue : ℕ → Workers → Pool → Pool
set_queue q w p = record p { queues = at q w p.queues }

-- The states of the threads of a queue after each of their steps.
abbrev pub counted : Workers → Workers
counted w = record w {
  queue = (count_job w.queue).1;
  pushing = w.pushing + 1;
  announcing = w.announcing + count (count_job w.queue).0;
}

abbrev pub job_pushed : ℕ → ℕ → Workers → Workers
job_pushed job k w = record w { queue = push_job job w.queue; pushing = k }

abbrev pub announced : ℕ → Workers → Workers
announced k w = record w { announcing = k; waiting = w.waiting + 1 }

abbrev pub taken : ℕ → Workers → Workers
taken k w = record w { waiting = k; looping = w.looping + 1 }

abbrev pub popped : ℕ → Workers → Workers
popped k w = record w {
  queue = (pop_all w.queue).1;
  looping = k;
  running = (pop_all w.queue).0 ∷ w.running;
}

abbrev pub finished : Bool → List ℕ → List (List ℕ) → Workers → Workers
finished time_is_over jobs rest w = record w {
  queue = (uncount_jobs (length jobs) w.queue).1;
  running = rest;
  executed = w.executed ++ jobs;
  looping = w.looping + count (not (uncount_jobs (length jobs) w.queue).0 && not time_is_over);
  announcing = w.announcing + count (not (uncount_jobs (length jobs) w.queue).0 && time_is_over);
}

pub data Runs (start : Pool) : Pool → Type 0 where
  begins : Runs start start
  counts : {p : Pool} (q : ℕ) → Runs start p → Runs start (set_queue q (counted (p.queues q)) p)
  pushes :
      {p : Pool} (q job k : ℕ)
      → Runs start p
      → (p.queues q).pushing ≡ suc k
      → Runs start (record (set_queue q (job_pushed job k (p.queues q)) p) {
        pushed = at q (p.pushed q ++ job ∷ []) p.pushed;
      })
  announces :
      {p : Pool} (q k : ℕ)
      → Runs start p
      → (p.queues q).announcing ≡ suc k
      → Runs start (record (set_queue q (announced k (p.queues q)) p) { global = push q p.global })
  -- A worker takes the queue that the GlobalQueue gives it, whatever the model says of its threads.
  executes :
      {p : Pool} (q : ℕ)
      → Runs start p
      → (pop p.global).0 ≡ some q
      → Runs start (record (set_queue q (taken ((p.queues q).waiting - 1) (p.queues q)) p) {
        global = (pop p.global).1;
      })
  pops :
      {p : Pool} (q k : ℕ)
      → Runs start p
      → (p.queues q).looping ≡ suc k
      → Runs start (set_queue q (popped k (p.queues q)) p)
  finishes :
      {p : Pool} (q : ℕ) (time_is_over : Bool) (jobs : List ℕ) (rest : List (List ℕ))
      → Runs start p
      → (p.queues q).running ≡ jobs ∷ rest
      → Runs start (set_queue q (finished time_is_over jobs rest (p.queues q)) p)
