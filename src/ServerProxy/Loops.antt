-- ===== src/ServerProxy/Loops.antt =====
-- How the loops of the workers of ServerProxy.cpp end.
use rio_iocp_server.Prelude.{
  ℕ, zero, suc, ◌+◌, ◌≤◌, ◌<◌, ◌≡◌, ◌≢◌, refl, ◌∙◌, inl, inr, ◌⊎◌, false, List, [], ◌∷◌, ltb, ok,
  running, if_true, if_false, ltb→lt, ltb→ge, ge→ltb, subst, Bool-cases, arith,
}
use rio_iocp_server.GlobalQueue.{GlobalQueue, pop, lock_pop}
use rio_iocp_server.ServerProxy.{Worker, worker_tick, ulong, execute_queues, iocp_round}

-- A round of the loop, by the clock and by what the GlobalQueue has.
in_time :
    (w : Worker) (fuel end_tick i : ℕ) (g : GlobalQueue)
    → ltb end_tick (ulong (w.clock i)) ≡ false
    → ((g.job_queues ≡ []) × (execute_queues w (suc fuel) end_tick i g ≡ ok (i + 1, g)))
      ⊎ ((q : ℕ) × (h : GlobalQueue) × (execute_queues w (suc fuel) end_tick i g
            ≡ execute_queues w fuel end_tick (i + 1) (w.execute q h)))
unfolding execute_queues pop lock_pop
in_time w fuel end_tick i g e = go g.job_queues
  where
    go :
        (l : List ℕ)
        → ((l ≡ [])
            × (execute_queues w (suc fuel) end_tick i (record g { job_queues = l })
                ≡ ok (i + 1, record g { job_queues = l })))
          ⊎ ((q : ℕ) × (h : GlobalQueue) × (execute_queues w
                  (suc fuel)
                  end_tick
                  i
                  (record g { job_queues = l })
                ≡ execute_queues w fuel end_tick (i + 1) (w.execute q h)))
    go [] = inl (refl, if_false _ _ _ e)
    go (q ∷ ks) = inr (q, record g { job_queues = ks }, if_false _ _ _ e)

-- The loop ends with a call of the clock after `i` within `fuel` rounds, and then the GlobalQueue is empty
-- or that call was past `end_tick`.
abbrev pub Returns : Worker → ℕ → ℕ → ℕ → GlobalQueue → Type 0
Returns w fuel end_tick i g =
    (j : ℕ) × (h : GlobalQueue) × (execute_queues w fuel end_tick i g ≡ ok (j + 1, h))
    × (j < i + fuel)
    × ((h.job_queues ≡ []) ⊎ (end_tick < ulong (w.clock j)))

first_round :
    (w : Worker) (fuel end_tick i : ℕ) (g : GlobalQueue)
    → (ulong (w.clock i) ≤ end_tick → (k : GlobalQueue) → Returns w fuel end_tick (i + 1) k)
    → Returns w (suc fuel) end_tick i g
unfolding execute_queues
first_round w fuel end_tick i g rest = elim (Bool-cases (ltb end_tick (ulong (w.clock i)))) [
  | inl over ↦
      (i, g, if_true _ _ _ over, omega arith, inr (ltb→lt end_tick (ulong (w.clock i)) over))
  | inr e ↦ elim (in_time w fuel end_tick i g e) [
    | inl (none_left, done) ↦ (i, g, done, omega arith, inl none_left)
    | inr (q, h, next) ↦
        let (j, k, returns, few, ends) =
          rest (ltb→ge end_tick (ulong (w.clock i)) e) (w.execute q h) in
        (j, k, next ∙ returns, omega (arith, few), ends)
  ]
]

-- Where the clock, as a ULONG, is past `end_tick` at the call `i + fuel`: the loop that starts with call
-- `i` ends within `fuel + 1` rounds, with that call or an earlier one, and then the GlobalQueue is empty
-- or its last call of the clock was past `end_tick`.
pub execute_queues-Returns :
    (w : Worker) (fuel end_tick i : ℕ) (g : GlobalQueue)
    → end_tick < ulong (w.clock (i + fuel))
    → Returns w (suc fuel) end_tick i g
execute_queues-Returns w zero end_tick i g late =
    let here : i + 0 ≡ i = omega arith in
    let late_here = subst (λ m. end_tick < ulong (w.clock m)) here late in
    first_round w zero end_tick i g (λ early k. absurd (omega (arith, late_here, early)))
execute_queues-Returns w (suc fuel) end_tick i g late =
    let next : i + suc fuel ≡ (i + 1) + fuel = omega arith in
    first_round w (suc fuel) end_tick i g (λ early k.
      execute_queues-Returns w fuel end_tick (i + 1) k
        (subst (λ m. end_tick < ulong (w.clock m)) next late))

-- Where `end_tick` does not fit into ULONG, and where executing a queue always leaves one in the
-- GlobalQueue, as it does when jobs come in all the time: the loop never ends.
pub execute_queues-endless :
    (w : Worker) (end_tick : ℕ)
    → ((q : ℕ) (g : GlobalQueue) → (w.execute q g).job_queues ≢ [])
    → 4294967296 ≤ end_tick
    → (fuel i : ℕ) (g : GlobalQueue) → g.job_queues ≢ []
    → execute_queues w fuel end_tick i g ≡ running
unfolding execute_queues
execute_queues-endless w end_tick busy large zero i g some_queue = refl
execute_queues-endless w end_tick busy large (suc fuel) i g some_queue =
    elim (in_time w fuel end_tick i g
      (ge→ltb end_tick (ulong (w.clock i)) (omega (arith, large)))) [
        | inl (none_left, e) ↦ absurd (some_queue none_left)
        | inr (q, h, e) ↦
            e ∙ execute_queues-endless w end_tick busy large fuel (i + 1) (w.execute q h) (busy q h)
      ]

-- A round of a worker of an IocpServer that starts when the system has been up for at least 2^32
-- milliseconds (49.7 days), where executing a queue always leaves one in the GlobalQueue, and
-- `Dispatch` does: the round does not end within any number of rounds of its inner loop, although the
-- time that it has is 64 milliseconds.
pub iocp_round-endless :
    (w : Worker) (fuel i : ℕ) (g : GlobalQueue)
    → ((q : ℕ) (k : GlobalQueue) → (w.execute q k).job_queues ≢ [])
    → (w.dispatch g).job_queues ≢ []
    → 4294967296 ≤ w.clock i
    → iocp_round w fuel i g ≡ running
unfolding iocp_round
iocp_round-endless w fuel i g busy some_queue up =
    execute_queues-endless w (w.clock i + worker_tick) busy (omega (arith, up)) fuel (i + 1)
      (w.dispatch g) some_queue
