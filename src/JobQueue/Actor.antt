-- ===== src/JobQueue/Actor.antt =====
-- JobQueue.cpp, used by any number of threads.
use rio_iocp_server.Prelude.{ℕ, List, []}
use rio_iocp_server.JobQueue.Workers.{
  Workers, Works, Actor, start, counts, pushes, announces, executes, pops, finishes,
}
use rio_iocp_server.JobQueue.Steps.{
  counts_lem, pushes_lem, announces_lem, executes_lem, pops_lem, finishes_lem,
}

-- From a queue that no job is counted in and no thread uses, whatever the threads that call `Push` and
-- `Execute` do and in whatever order: at most one of them is in charge of the queue (it is to give the
-- queue to the GlobalQueue, executes it, or the queue stands in the GlobalQueue, once), one is
-- exactly when a job is counted, so that no job is forgotten, the count is that of the jobs on their
-- way, queued or executed, and the jobs executed, those of the round and those queued are the pushed
-- jobs, each once and in order.
pub works_lem :
    (w : Workers) (pushed : List ℕ) (w' : Workers)
    → Actor [] w
    → Works w pushed w'
    → Actor pushed w'
works_lem w _ _ fresh start = fresh
works_lem w pushed _ fresh (counts {w' = w'} before) =
    counts_lem pushed w' (works_lem w pushed w' fresh before)
works_lem w _ _ fresh (pushes job k {pushed} {w'} before e) =
    pushes_lem job k pushed w' e (works_lem w pushed w' fresh before)
works_lem w pushed _ fresh (announces k {w' = w'} before e) =
    announces_lem k pushed w' e (works_lem w pushed w' fresh before)
works_lem w pushed _ fresh (executes k {w' = w'} before e) =
    executes_lem k pushed w' e (works_lem w pushed w' fresh before)
works_lem w pushed _ fresh (pops k {w' = w'} before e) =
    pops_lem k pushed w' e (works_lem w pushed w' fresh before)
works_lem w pushed _ fresh (finishes time_is_over jobs rest {w' = w'} before e) =
    finishes_lem time_is_over jobs rest pushed w' e (works_lem w pushed w' fresh before)
