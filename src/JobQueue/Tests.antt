-- ===== src/JobQueue/Tests.antt =====
-- A run of a JobQueue (ServerCore/Job/JobQueue.cpp), and its theorem at it.
use rio_iocp_server.Prelude.{refl, false, [], ◌∷◌, arith, flatten}
use rio_iocp_server.JobQueue.{count_job, push_job, pop_all, uncount_jobs}
use rio_iocp_server.JobQueue.Workers.{
  Workers, Works, Actor, start, counts, pushes, announces, executes, pops, finishes,
}
use rio_iocp_server.JobQueue.Actor.{works_lem}

abbrev unused : Workers
unused = record {
  queue = record { job_count = 0; jobs = [] };
  pushing = 0;
  announcing = 0;
  waiting = 0;
  looping = 0;
  running = [];
  executed = [];
}

unused-Actor : Actor [] unused
unfolding flatten
unused-Actor = record {
  one = omega arith;
  free = λ h. refl;
  busy = λ h. refl;
  counted = refl;
  order = refl;
}

-- Job 7 was executed while job 8 came, and the thread is at the top of its loop again.
abbrev second_round : Workers
second_round = record unused {
  queue = record { job_count = 1; jobs = 8 ∷ [] };
  looping = 1;
  executed = 7 ∷ [];
}

second_round-Works : Works unused (7 ∷ 8 ∷ []) second_round
unfolding count_job push_job pop_all uncount_jobs
second_round-Works =
    finishes false (7 ∷ []) []
      (pushes 8 0
        (counts (pops 0 (executes 0 (announces 0 (pushes 7 0 (counts start) refl) refl) refl) refl))
        refl)
      refl

works_lem_example : Actor (7 ∷ 8 ∷ []) second_round
works_lem_example = works_lem unused (7 ∷ 8 ∷ []) second_round unused-Actor second_round-Works
