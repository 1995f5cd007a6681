-- ===== src/ThreadManager/Ids.antt =====
-- The ids that ThreadManager.cpp gives to its threads, and what the locks of RWLock.cpp make of them.
use rio_iocp_server.Prelude.{
  ℕ, suc, ◌+◌, ◌%◌, ◌*◌, ◌≤◌, ◌<◌, ◌≡◌, refl, sym, ap, subst, ==_iff, inl, inr, Bool, true, false,
  ◌∷◌, ◌==◌, has, Distinct, arith, Bool-cases, same_id, if_true,
}
use rio_iocp_server.RwLock.{RwLock, try_write, write_again, writer_of}
use rio_iocp_server.ThreadManager.{
  Threads, no_threads, create_thread, count_thread, read_thread_id, join_threads, reads_one, Starts,
  start, creates, counts, reads, joins,
}

-- The ids are different, above 0, and not above the count; a thread that is to read the count finds it
-- above them.
pub record HasIds (t : Threads) : Type 0 where
  pub distinct : Distinct t.ids
  pub above : (i : ℕ) → has i t.ids ≡ true → 0 < i
  pub below : (i : ℕ) → has i t.ids ≡ true → i + t.counted ≤ t.manager.thread_cnt
  pub one : t.counted ≤ 1
  pub enough : t.counted ≤ t.manager.thread_cnt

reads_lem : (k : ℕ) (t : Threads) → t.counted ≡ suc k → HasIds t → HasIds (reads_one k t)
unfolding read_thread_id Distinct has
reads_lem k t e h = record {
  distinct = (new, h.distinct);
  above = λ i there. elim (Bool-cases (i == t.manager.thread_cnt)) [
    | inl same ↦ omega (arith, same_id _ _ same, h.enough, e)
    | inr other ↦ h.above i (ground (arith, there, other))
  ];
  below = λ i there. elim (Bool-cases (i == t.manager.thread_cnt)) [
    | inl same ↦ omega (arith, same_id _ _ same, h.one, e)
    | inr other ↦ omega (arith, h.below i (ground (arith, there, other)), e)
  ];
  one = omega (arith, e, h.one);
  enough = omega (arith, e, h.enough);
}
  where
    new : has t.manager.thread_cnt t.ids ≡ false
    new = elim (Bool-cases (has t.manager.thread_cnt t.ids)) [
      | inl there ↦ absurd (omega (arith, h.below t.manager.thread_cnt there, e))
      | inr out ↦ out
    ]

-- When no thread counts itself while another one has yet to read the count, the threads that run have
-- different ids, from 1 up to the count, in whatever order threads are created, start and are joined.
pub starts-HasIds : (t : Threads) → Starts true no_threads t → HasIds t
unfolding create_thread count_thread join_threads has Distinct
starts-HasIds _ start = record {
  distinct = tt;
  above = λ i there. ground (arith, there);
  below = λ i there. ground (arith, there);
  one = omega arith;
  enough = omega arith;
}
starts-HasIds _ (creates {t' = t} s) =
    let h = starts-HasIds t s in
    record {
      distinct = h.distinct;
      above = h.above;
      below = h.below;
      one = h.one;
      enough = h.enough;
    }
starts-HasIds _ (counts k {t' = t} s e alone) =
    let h = starts-HasIds t s in
    record {
      distinct = h.distinct;
      above = h.above;
      below = λ i there. omega (arith, h.below i there);
      one = omega (arith, alone refl);
      enough = omega (arith, h.enough);
    }
starts-HasIds _ (reads k {t' = t} s e) = reads_lem k t e (starts-HasIds t s)
starts-HasIds _ (joins {t' = t} s e e') = record {
  distinct = tt;
  above = λ i there. ground (arith, there);
  below = λ i there. ground (arith, there);
  one = omega (arith, e');
  enough = omega (arith, e');
}

-- A free lock, taken to write under an id twice.
lock_twice :
    (i : ℕ) (l : RwLock)
    → i < 65536
    → l.lock_flag ≡ 0
    → ((try_write i l).0 ≡ true) × ((write_again i (try_write i l).1).0 ≡ true)
unfolding try_write write_again
lock_twice i l few free =
    subst (λ (r : Bool × RwLock). (r.0 ≡ true) × ((write_again i r.1).0 ≡ true))
      (sym (if_true (l.lock_flag == 0) _ (false, l) (ground (arith, free))))
      (
        refl,
        ap (λ (r : Bool × RwLock). r.0)
            (if_true (i == writer_of (i % 65536 * 65536)) _ _ (own i few)),
      )
  where
    own : (i : ℕ) → i < 65536 → (i == writer_of (i % 65536 * 65536)) ≡ true
    own i few = (==_iff _ _).1 (omega (arith, few))

-- In every state that threads come to, by any schedule, where two of them (or more) have counted
-- themselves and have not read the count, and the count is below 2 ^ 16: when two of them read it next,
-- they get the same id; and for every free lock, `WriteLock` of the one takes it, and `WriteLock` of the
-- other then returns at once, so that both hold it to write.
pub starts-same_id :
    (t : Threads) (k : ℕ) (l : RwLock)
    → Starts false no_threads t
    → t.counted ≡ suc (suc k)
    → t.manager.thread_cnt < 65536
    → l.lock_flag ≡ 0
    → let t' = reads_one k (reads_one (suc k) t) in
      let i : ℕ = t.manager.thread_cnt in
      Starts false no_threads t'
      × (t'.ids ≡ i ∷ i ∷ t.ids)
      × ((try_write i l).0 ≡ true)
      × ((write_again i (try_write i l).1).0 ≡ true)
unfolding read_thread_id
starts-same_id t k l s e few free =
    let (taken, again) = lock_twice t.manager.thread_cnt l few free in
    (reads k (reads (suc k) s e) refl, refl, taken, again)
