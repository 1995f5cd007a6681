-- ===== src/DummyClient/Senders/Turns.antt =====
-- What a turn of a sender thread does.
use native.Mathlib.Nat.{
  mul_comm, mod-eq_of_lt, div-add-mod, mul-add-mod_self_right, le-div_iff_mul-le,
}
use rio_iocp_server.Prelude.{
  ℕ, ◌+◌, ◌*◌, ◌/◌, ◌%◌, ◌<◌, ◌≡◌, sym, ap, subst, ◌∙◌, inl, inr, true, false, List, ◌++◌, map, not,
  ℤ, ok, length, has, Distinct, arith, Bool-cases, bind_ok, if_false,
}
use rio_iocp_server.DummyClient.Senders.{StressTestClient, job_count, send_to_server, send_packet}
use rio_iocp_server.DummyClient.Senders.Visits.{slot, IsLate, Visited, visit_all_lem}

-- What a whole turn of thread `idx` did.
pub record Turn (clock : ℕ → ℤ) (idx : ℕ) (s s' : StressTestClient) (ids : List ℕ) : Type 0 where
  pub calls_as : s'.calls ≡ s.calls ++ map send_packet ids
  pub same_length : length s'.send_time ≡ length s.send_time
  pub distinct : Distinct ids
  pub own : (c : ℕ) → has (c + 1) ids ≡ true → (c < s.client_num) × (c % s.thread_cnt ≡ idx)
  pub positive : has 0 ids ≡ false
  pub due :
      (c : ℕ)
      → c < s.client_num
      → c % s.thread_cnt ≡ idx
      → ((k : ℕ) → IsLate clock (slot s c) k)
      → has (c + 1) ids ≡ true
  pub kept : (c : ℕ) → has (c + 1) ids ≡ false → slot s' c ≡ slot s c
  pub renewed :
      (c : ℕ)
      → has (c + 1) ids ≡ true
      → (k : ℕ) × IsLate clock (slot s c) k × (slot s' c ≡ clock (k + 1))

-- The rounds that a thread makes are enough for all clients.
pub job_count_lem :
    (num thread_cnt idx j : ℕ)
    → 0 < thread_cnt
    → j * thread_cnt + idx < num
    → j < job_count num thread_cnt
unfolding job_count
job_count_lem num thread_cnt idx j some_thread h =
    (le-div_iff_mul-le some_thread).1 (omega (arith, some_thread, h))

Visited-Turn :
    (clock : ℕ → ℤ) (idx : ℕ) (s s' : StressTestClient) (ids : List ℕ)
    → idx < s.thread_cnt
    → s.job_cnt ≡ job_count s.client_num s.thread_cnt
    → Visited clock send_packet idx s.job_cnt 0 s s' ids
    → Turn clock idx s s' ids
Visited-Turn clock idx s s' ids some_thread jobs v = record {
  calls_as = v.calls_as;
  same_length = v.same_length;
  distinct = v.distinct;
  own = λ c h.
      let (j, l, e, inside) = v.own (c + 1) h in
      (
        omega (arith, inside),
        ap (λ n. n % s.thread_cnt) (minus_one c _ e)
            ∙ mul-add-mod_self_right j s.thread_cnt idx
            ∙ mod-eq_of_lt some_thread,
      );
  positive = elim (Bool-cases (has 0 ids)) [
    | inl there ↦ let (j, l, e, inside) = v.own 0 there in absurd (omega (arith, e))
    | inr out ↦ out
  ];
  due = λ c inside e late.
      let j : ℕ = c / s.thread_cnt in
      let at_c = idx_of c s.thread_cnt idx e in
      let few =
        job_count_lem s.client_num s.thread_cnt idx j (omega (arith, some_thread))
          (omega (arith, at_c, inside)) in
      subst (λ n. has (n + 1) ids ≡ true) at_c
        (v.due j (omega arith) (omega (arith, few, jobs)) (omega (arith, at_c, inside))
          (λ k. subst (λ n. IsLate clock (slot s n) k) (sym at_c) (late k)));
  kept = v.kept;
  renewed = v.renewed;
}
  where
    minus_one : (c d : ℕ) → c + 1 ≡ d + 1 → c ≡ d
    minus_one c d e = omega arith

    idx_of : (c n idx : ℕ) → c % n ≡ idx → c / n * n + idx ≡ c
    idx_of c n idx e = omega (arith, div-add-mod c n, mul_comm n (c / n), e)

-- A turn of a sender thread, while the test runs and the vector of send times has a place for each client.
-- The turn ends and is never outside the vector. It calls `SendPacket` for the ids of some of the
-- clients that the thread has - those whose index leaves the remainder `idx` when it is divided by the
-- number of threads - and for none of them twice, and it calls it for each of them whose last send is
-- late at every reading of the clock. A client that is called was late at a reading, its new send time
-- is the next reading, and the send times of all others are kept.
pub send_to_server_lem :
    (clock : ℕ → ℤ) (idx : ℕ) (s : StressTestClient)
    → s.run_client ≡ true
    → idx < s.thread_cnt
    → s.job_cnt ≡ job_count s.client_num s.thread_cnt
    → length s.send_time ≡ s.client_num
    → (s' : StressTestClient) × (ids : List ℕ) × (send_to_server clock idx s ≡ ok (true, s'))
      × Turn clock idx s s' ids
unfolding send_to_server
send_to_server_lem clock idx s runs some_thread jobs full =
    let (s', ids, e, v) =
      visit_all_lem clock send_packet idx s.job_cnt 0 s (omega (arith, some_thread)) full in
    (
      s',
      ids,
      if_false _ _ _ (ap not runs) ∙ bind_ok s' (λ r. ok (true, r)) e,
      Visited-Turn clock idx s s' ids some_thread jobs v,
    )
