-- ===== src/GlobalQueue/Standing.antt =====
-- Which job queues stand in the GlobalQueue.
use rio_iocp_server.Prelude.{
  ℕ, suc, ◌+◌, ◌-◌, ◌≤◌, ◌≡◌, ◌≢◌, refl, sym, ap, subst, ◌∙◌, some, List, [], ◌∷◌, ◌++◌,
  if◌then◌else◌, ◌==◌, length, at, at_lem, at_self, at_other, arith, ℕ_discrete as dec_eq,
}
use mathlib.Core.Option.{some-injective}
use rio_iocp_server.JobQueue.Workers.{Workers, Actor}
use rio_iocp_server.JobQueue.Steps.{
  counts_lem, pushes_lem, announces_lem, executes_lem, pops_lem, finishes_lem,
}
use rio_iocp_server.GlobalQueue.{GlobalQueue, push, pop, lock_push, lock_pop}
use rio_iocp_server.GlobalQueue.Pool.{
  Pool, set_queue, counted, job_pushed, announced, taken, popped, finished, Runs, begins, counts,
  pushes, announces, executes, pops, finishes,
}

-- How often a queue stands in the GlobalQueue.
abbrev pub times : ℕ → List ℕ → ℕ
times q [] = 0
times q (k ∷ ks) = (if k == q then 1 else 0) + times q ks

pub record Standing (p : Pool) : Type 0 where
  pub actor : (q : ℕ) → Actor (p.pushed q) (p.queues q)
  pub stands : (q : ℕ) → times q p.global.job_queues ≡ (p.queues q).waiting

-- A step of the threads of one queue that the GlobalQueue does not notice.
Standing-set :
    (q : ℕ) (w : Workers) (p : Pool)
    → Actor (p.pushed q) w
    → w.waiting ≡ (p.queues q).waiting
    → Standing p
    → Standing (set_queue q w p)
Standing-set q w p a same s = record {
  actor = λ k.
      at_lem (λ (v : Workers). Actor (p.pushed k) v) q w p.queues k
        (λ e. subst (λ j. Actor (p.pushed j) w) (sym e) a) (λ n. s.actor k);
  stands = λ k.
      at_lem (λ (v : Workers). times k p.global.job_queues ≡ v.waiting) q w p.queues k
        (λ e. s.stands k ∙ ap (λ j. (p.queues j).waiting) e ∙ sym same) (λ n. s.stands k);
}

times-append :
    (q k : ℕ) (ks : List ℕ) → times q (ks ++ k ∷ []) ≡ times q ks + (if k == q then 1 else 0)
times-append q k [] = omega arith
times-append q k (j ∷ ks) = omega (arith, times-append q k ks)

Standing-push :
    (q job k : ℕ) (p : Pool)
    → (p.queues q).pushing ≡ suc k
    → Standing p
    → Standing (record (set_queue q (job_pushed job k (p.queues q)) p) {
      pushed = at q (p.pushed q ++ job ∷ []) p.pushed;
    })
Standing-push q job k p e s = record {
  actor = λ j. elim (dec_eq j q) [
    | yes same ↦
        subst
          (λ i.
            Actor (at q (p.pushed q ++ job ∷ []) p.pushed i)
              (at q (job_pushed job k (p.queues q)) p.queues i))
          (sym same)
          (subst (λ l. Actor l (at q (job_pushed job k (p.queues q)) p.queues q))
            (sym (at_self q _ p.pushed))
            (subst (Actor (p.pushed q ++ job ∷ [])) (sym (at_self q _ p.queues))
              (pushes_lem job k (p.pushed q) (p.queues q) e (s.actor q))))
    | no other ↦
        subst (λ l. Actor l (at q (job_pushed job k (p.queues q)) p.queues j))
          (sym (at_other q _ p.pushed j other))
          (subst (Actor (p.pushed j)) (sym (at_other q _ p.queues j other)) (s.actor j))
  ];
  stands = λ j.
      at_lem (λ (v : Workers). times j p.global.job_queues ≡ v.waiting) q _ p.queues j
        (λ same. s.stands j ∙ ap (λ i. (p.queues i).waiting) same) (λ n. s.stands j);
}

-- The threads of one queue, with an entry of the GlobalQueue that comes or goes.
Actor-set :
    (q : ℕ) (w : Workers) (p : Pool)
    → Actor (p.pushed q) w
    → Standing p
    → (j : ℕ) → Actor (p.pushed j) (at q w p.queues j)
Actor-set q w p a s j =
    at_lem (λ (v : Workers). Actor (p.pushed j) v) q w p.queues j
      (λ same. subst (λ i. Actor (p.pushed i) w) (sym same) a) (λ n. s.actor j)

Standing-announce :
    (q k : ℕ) (p : Pool)
    → (p.queues q).announcing ≡ suc k
    → Standing p
    → Standing (record (set_queue q (announced k (p.queues q)) p) { global = push q p.global })
unfolding push lock_push
Standing-announce q k p e s = record {
  actor =
      Actor-set q (announced k (p.queues q)) p
        (announces_lem k (p.pushed q) (p.queues q) e (s.actor q)) s;
  stands = λ j.
      times-append j q p.global.job_queues
      ∙ at_lem
          (λ (v : Workers). times j p.global.job_queues + (if q == j then 1 else 0) ≡ v.waiting) q _
          p.queues j (λ same. ground (arith, s.stands j, same, ap (λ i. (p.queues i).waiting) same))
          (λ n. ground (arith, s.stands j, n));
}

Standing-execute :
    (q : ℕ) (ks : List ℕ) (p : Pool)
    → p.global.job_queues ≡ q ∷ ks
    → Standing p
    → Standing (record (set_queue q (taken ((p.queues q).waiting - 1) (p.queues q)) p) {
      global = record (p.global) { job_queues = ks };
    })
Standing-execute q ks p e s = record {
  actor =
      Actor-set q (taken ((p.queues q).waiting - 1) (p.queues q)) p
        (executes_lem ((p.queues q).waiting - 1) (p.pushed q) (p.queues q)
          (ground (arith, sym (s.stands q) ∙ ap (times q) e)) (s.actor q))
        s;
  stands = λ j.
      at_lem (λ (v : Workers). times j ks ≡ v.waiting) q _ p.queues j
        (λ same.
          ground
            (arith, sym (s.stands j) ∙ ap (times j) e, same, ap (λ i. (p.queues i).waiting) same))
        (λ n. ground (arith, sym (s.stands j) ∙ ap (times j) e, n));
}

popped_queue :
    (q : ℕ) (g : GlobalQueue)
    → (pop g).0 ≡ some q
    → (ks : List ℕ) × (g.job_queues ≡ q ∷ ks) × ((pop g).1 ≡ record g { job_queues = ks })
unfolding pop lock_pop
popped_queue q g e = go g.job_queues e
  where
    go :
        (l : List ℕ)
        → (lock_pop l).0 ≡ some q
        → (ks : List ℕ) × (l ≡ q ∷ ks)
          × (record g { job_queues = (lock_pop l).1 } ≡ record g { job_queues = ks })
    go [] e = cc e
    go (k ∷ ks) e = (ks, ap (λ i. i ∷ ks) (some-injective k q e), refl)

-- From a pool where the threads of each queue are in order and each queue stands in the GlobalQueue as
-- often as its threads count it, whatever the threads do, and whichever queue `Pop` gives to a worker:
-- both remain so.
pub Runs-Standing : (start p : Pool) → Standing start → Runs start p → Standing p
Runs-Standing start _ s begins = s
Runs-Standing start _ s (counts {p} q before) =
    let now = Runs-Standing start p s before in
    Standing-set q (counted (p.queues q)) p (counts_lem (p.pushed q) (p.queues q) (now.actor q))
      refl now
Runs-Standing start _ s (pushes {p} q job k before e) =
    Standing-push q job k p e (Runs-Standing start p s before)
Runs-Standing start _ s (announces {p} q k before e) =
    Standing-announce q k p e (Runs-Standing start p s before)
Runs-Standing start _ s (executes {p} q before e) =
    let (ks, queued, rest) = popped_queue q p.global e in
    subst
      (λ g.
        Standing
          (record (set_queue q (taken ((p.queues q).waiting - 1) (p.queues q)) p) { global = g }))
      (sym rest) (Standing-execute q ks p queued (Runs-Standing start p s before))
Runs-Standing start _ s (pops {p} q k before e) =
    let now = Runs-Standing start p s before in
    Standing-set q (popped k (p.queues q)) p (pops_lem k (p.pushed q) (p.queues q) e (now.actor q))
      refl now
Runs-Standing start _ s (finishes {p} q time_is_over jobs rest before e) =
    let now = Runs-Standing start p s before in
    Standing-set q (finished time_is_over jobs rest (p.queues q)) p
      (finishes_lem time_is_over jobs rest (p.pushed q) (p.queues q) e (now.actor q)) refl now

-- From a pool where the threads of each queue are in order and each queue stands in the GlobalQueue as
-- often as its threads count it, whatever the threads that push and execute jobs do, at any time: a
-- queue stands in the GlobalQueue at most once, and while it does no thread is about to give it to the
-- GlobalQueue, executes it or has jobs of it; and a queue that a job is counted in, when no
-- thread is about to give it or executes it, stands there once.
pub Runs-once :
    (start p : Pool) (q : ℕ)
    → Standing start
    → Runs start p
    → (times q p.global.job_queues
          + ((p.queues q).announcing + (p.queues q).looping + length (p.queues q).running)
        ≤ 1)
      × ((p.queues q).queue.job_count ≢ 0
          → (p.queues q).announcing + (p.queues q).looping + length (p.queues q).running ≡ 0
          → times q p.global.job_queues ≡ 1)
Runs-once start p q s runs =
    let now = Runs-Standing start p s runs in
    let a = now.actor q in
    let e = now.stands q in
    (omega (arith, a.one, e), λ jobs idle. ground (arith, a.one, a.free, e, jobs, idle))
