-- ===== src/GlobalQueue/Tests.antt =====
-- A run of two job queues and the GlobalQueue, and the theorem at it.
use rio_iocp_server.Prelude.{◌≡◌, ◌≢◌, ◌≤◌, ◌+◌, refl, some, [], ◌∷◌, arith, flatten, length, at}
use rio_iocp_server.JobQueue.{count_job, push_job}
use rio_iocp_server.JobQueue.Workers.{Workers, Actor}
use rio_iocp_server.GlobalQueue.{
  GlobalQueue, push, pop, lock_push, lock_pop, push_to_list, get_ref_to_job,
}
use rio_iocp_server.GlobalQueue.Pool.{
  Pool, set_queue, counted, job_pushed, announced, taken, Runs, begins, counts, pushes, announces,
  executes,
}
use rio_iocp_server.GlobalQueue.Standing.{times, Standing, Runs-once}

abbrev empty_global : GlobalQueue
empty_global = record { job_queues = []; job_list = [] }

abbrev unused : Workers
unused = record {
  queue = record { job_count = 0; jobs = [] };
  pushing = 0;
  announcing = 0;
  waiting = 0;
  looping = 0;
  running = [];
  executed = [];
}

unused-Actor : Actor [] unused
unfolding flatten
unused-Actor = record {
  one = omega arith;
  free = λ h. refl;
  busy = λ h. refl;
  counted = refl;
  order = refl;
}

abbrev unused_pool : Pool
unused_pool = record { queues = λ q. unused; pushed = λ q. []; global = empty_global }

unused_pool-Standing : Standing unused_pool
unused_pool-Standing = record { actor = λ q. unused-Actor; stands = λ q. refl }

-- Job 7 comes to queue 2, which is announced, while queue 3 counts a job.
abbrev counted_pool : Pool
counted_pool = set_queue 2 (counted unused) unused_pool

abbrev pushed_pool : Pool
pushed_pool = record (set_queue 2 (job_pushed 7 0 (counted_pool.queues 2)) counted_pool) {
  pushed = at 2 (7 ∷ []) counted_pool.pushed;
}

abbrev announced_pool : Pool
announced_pool = record (set_queue 2 (announced 0 (pushed_pool.queues 2)) pushed_pool) {
  global = push 2 empty_global;
}

abbrev shared_pool : Pool
shared_pool = set_queue 3 (counted (announced_pool.queues 3)) announced_pool

shared_pool-Runs : Runs unused_pool shared_pool
unfolding count_job push_job
shared_pool-Runs = counts 3 (announces 2 0 (pushes 2 7 0 (counts 2 begins) refl) refl)

-- A worker takes queue 2.
abbrev taken_pool : Pool
taken_pool = record (set_queue 2 (taken 0 (shared_pool.queues 2)) shared_pool) {
  global = empty_global;
}

taken_pool-Runs : Runs unused_pool taken_pool
unfolding push pop lock_push lock_pop
taken_pool-Runs = executes 2 shared_pool-Runs refl

Runs-once_example :
    (times 2 taken_pool.global.job_queues
        + ((taken_pool.queues 2).announcing
            + (taken_pool.queues 2).looping
            + length (taken_pool.queues 2).running)
      ≤ 1)
    × ((taken_pool.queues 2).queue.job_count ≢ 0
        → (taken_pool.queues 2).announcing
            + (taken_pool.queues 2).looping
            + length (taken_pool.queues 2).running
          ≡ 0
        → times 2 taken_pool.global.job_queues ≡ 1)
Runs-once_example = Runs-once unused_pool taken_pool 2 unused_pool-Standing taken_pool-Runs

get_ref_to_job_test : get_ref_to_job 1 (push_to_list 6 (push_to_list 5 empty_global)) ≡ some 6
unfolding get_ref_to_job push_to_list
get_ref_to_job_test = refl
