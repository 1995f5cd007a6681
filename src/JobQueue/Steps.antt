-- ===== src/JobQueue/Steps.antt =====
-- The steps of the threads that use a JobQueue (JobQueue.cpp), one by one.
use rio_iocp_server.Prelude.{
  ℕ, suc, ◌+◌, ◌-◌, ◌≤◌, ◌≡◌, refl, sym, ap, ◌∙◌, Bool, true, false, List, [], ◌∷◌, ◌++◌, not, ◌&&◌,
  ◌==◌, length, flatten, length-append, arith, append_assoc, append-nil,
}
use rio_iocp_server.JobQueue.{count_job, push_job, pop_all, uncount_jobs}
use rio_iocp_server.JobQueue.Workers.{Workers, Actor, count}

count_zero : (n m : ℕ) → (n ≡ 0 → m ≡ 0) → m ≤ 1 → count (n == 0) + m ≤ 1
count_zero n m h l = ground (arith, h, l)

pub counts_lem :
    (pushed : List ℕ) (w : Workers)
    → Actor pushed w
    → Actor pushed (record w {
      queue = (count_job w.queue).1;
      pushing = w.pushing + 1;
      announcing = w.announcing + count (count_job w.queue).0;
    })
unfolding count_job
counts_lem pushed w a = record {
  one = omega (
    arith,
    count_zero w.queue.job_count (w.announcing + w.waiting + w.looping + length w.running) a.busy
        a.one,
  );
  free = λ h. ground (arith, a.free, h);
  busy = λ h. absurd (omega (arith, h));
  counted = omega (arith, a.counted);
  order = a.order;
}

shift : (a b c d : List ℕ) → a ++ (b ++ (c ++ d)) ≡ (a ++ (b ++ c)) ++ d
shift a b c d = simp (append_assoc)

pub pushes_lem :
    (job k : ℕ) (pushed : List ℕ) (w : Workers)
    → w.pushing ≡ suc k
    → Actor pushed w
    → Actor (pushed ++ job ∷ []) (record w { queue = push_job job w.queue; pushing = k })
unfolding push_job
pushes_lem job k pushed w e a = record {
  one = a.one;
  free = a.free;
  busy = a.busy;
  counted = omega (arith, a.counted, e, length-append w.queue.jobs (job ∷ []));
  order =
      shift w.executed (flatten w.running) w.queue.jobs (job ∷ [])
      ∙ ap (λ l. l ++ job ∷ []) a.order;
}

pub announces_lem :
    (k : ℕ) (pushed : List ℕ) (w : Workers)
    → w.announcing ≡ suc k
    → Actor pushed w
    → Actor pushed (record w { announcing = k; waiting = w.waiting + 1 })
announces_lem k pushed w e a = record {
  one = omega (arith, a.one, e);
  free = λ h. absurd (omega (arith, h));
  busy = λ h. absurd (omega (arith, a.busy h, e));
  counted = a.counted;
  order = a.order;
}

pub executes_lem :
    (k : ℕ) (pushed : List ℕ) (w : Workers)
    → w.waiting ≡ suc k
    → Actor pushed w
    → Actor pushed (record w { waiting = k; looping = w.looping + 1 })
executes_lem k pushed w e a = record {
  one = omega (arith, a.one, e);
  free = λ h. absurd (omega (arith, h));
  busy = λ h. absurd (omega (arith, a.busy h, e));
  counted = a.counted;
  order = a.order;
}

flatten-none : (xss : List (List ℕ)) → length xss ≡ 0 → flatten xss ≡ []
unfolding flatten
flatten-none [] h = refl
flatten-none (xs ∷ xss) h = absurd (omega (arith, h))

pub pops_lem :
    (k : ℕ) (pushed : List ℕ) (w : Workers)
    → w.looping ≡ suc k
    → Actor pushed w
    → Actor pushed (record w {
      queue = (pop_all w.queue).1;
      looping = k;
      running = (pop_all w.queue).0 ∷ w.running;
    })
unfolding pop_all flatten
pops_lem k pushed w e a =
    let none : flatten w.running ≡ [] = flatten-none w.running (omega (arith, a.one, e)) in
    record {
      one = omega (arith, a.one, e);
      free = λ h. absurd (omega (arith, h));
      busy = λ h. absurd (omega (arith, a.busy h, e));
      counted = omega (arith, a.counted, length-append w.queue.jobs (flatten w.running));
      order =
          ap (λ l. w.executed ++ l)
            (append-nil (w.queue.jobs ++ flatten w.running)
              ∙ ap (λ l. w.queue.jobs ++ l) none
              ∙ append-nil w.queue.jobs
              ∙ ap (λ l. l ++ w.queue.jobs) (sym none))
          ∙ a.order;
    }

tokens :
    (n m : ℕ) (t : Bool)
    → m ≤ n
    → (count (not (n == m) && not t) + count (not (n == m) && t) ≤ 1)
      × (n - m ≡ 0 → count (not (n == m) && not t) + count (not (n == m) && t) ≡ 0)
      × (count (not (n == m) && not t) + count (not (n == m) && t) ≡ 0 → n - m ≡ 0)
tokens n m true le = (ground arith, λ h. ground (arith, h), λ h. ground (arith, h))
tokens n m false le = (ground arith, λ h. ground (arith, h), λ h. ground (arith, h))

pub finishes_lem :
    (time_is_over : Bool) (jobs : List ℕ) (rest : List (List ℕ)) (pushed : List ℕ) (w : Workers)
    → w.running ≡ jobs ∷ rest
    → Actor pushed w
    → Actor pushed (record w {
      queue = (uncount_jobs (length jobs) w.queue).1;
      running = rest;
      executed = w.executed ++ jobs;
      looping = w.looping + count (not (uncount_jobs (length jobs) w.queue).0 && not time_is_over);
      announcing =
          w.announcing + count (not (uncount_jobs (length jobs) w.queue).0 && time_is_over);
    })
unfolding uncount_jobs flatten
finishes_lem time_is_over jobs rest pushed w e a =
    let long : length w.running ≡ suc (length rest) = ap length e in
    let jobs_counted : length (flatten w.running) ≡ length jobs + length (flatten rest) =
      ap (λ xss. length (flatten xss)) e ∙ length-append jobs (flatten rest) in
    let parts =
      tokens w.queue.job_count (length jobs) time_is_over
        (omega (arith, a.counted, jobs_counted)) in
    record {
      one = omega (arith, a.one, long, parts.0);
      free = λ h. parts.2 (omega (arith, h));
      busy = λ h. omega (arith, a.one, long, parts.1 h);
      counted = omega (arith, a.counted, jobs_counted);
      order =
          append_assoc w.executed jobs (flatten rest ++ w.queue.jobs)
          ∙ ap (λ l. w.executed ++ l) (sym (append_assoc jobs (flatten rest) w.queue.jobs))
          ∙ ap (λ xss. w.executed ++ (flatten xss ++ w.queue.jobs)) (sym e)
          ∙ a.order;
    }
