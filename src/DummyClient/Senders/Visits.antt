-- ===== src/DummyClient/Senders/Visits.antt =====
-- The rounds of the loop of SendToServer and DisconnectFromServer (StressTestClient.cpp).
use native.Mathlib.Nat.{mul-le-mul_right}
use rio_iocp_server.Prelude.{
  ℕ, zero, suc, ◌+◌, ◌*◌, ◌≤◌, ◌<◌, ◌≡◌, ◌≢◌, refl, sym, ap, ◌∙◌, inl, inr, true, false, List, [],
  ◌∷◌, ◌++◌, map, leb, ◌==◌, ℤ, pos, ◌-ℤ◌, ltb_ℤ, ok, length, get_or, has, Distinct, arith,
  Bool-cases, bind_ok, if_true, if_false, append_assoc, append-nil, blit, length-blit, lt→leb_false,
  leb→le, leb→gt, dec_lt, same_id, other_id, get_or-blit_in, get_or-blit_below, get_or-blit_above,
}
use rio_iocp_server.DummyClient.Senders.{
  StressTestClient, Call, packet_send_duration, is_early, visit, visit_all,
}

abbrev pub slot : StressTestClient → ℕ → ℤ
slot s c = get_or s.send_time c (pos 0)

-- At its `k`-th reading the clock is `PACKET_SEND_DURATION` past a time.
abbrev pub IsLate : (ℕ → ℤ) → ℤ → ℕ → Type 0
IsLate clock time k = ltb_ℤ (clock k -ℤ time) (pos packet_send_duration) ≡ false

-- The client that a thread visits in round `j`.
abbrev pub client_idx : StressTestClient → ℕ → ℕ → ℕ
client_idx s idx j = j * s.thread_cnt + idx

-- The rounds from `i` on, `jobs` of them at most, called the clients with the ids `ids`.
pub record Visited (clock : ℕ → ℤ) (call : ℕ → Call) (idx jobs i : ℕ) (s s' : StressTestClient)
    (ids : List ℕ) : Type 0 where
  pub calls_as : s'.calls ≡ s.calls ++ map call ids
  pub same_num : s'.client_num ≡ s.client_num
  pub same_threads : s'.thread_cnt ≡ s.thread_cnt
  pub same_length : length s'.send_time ≡ length s.send_time
  pub distinct : Distinct ids
  pub own :
      (id : ℕ)
      → has id ids ≡ true
      → (j : ℕ) × (i ≤ j) × (id ≡ client_idx s idx j + 1) × (id ≤ s.client_num)
  pub due :
      (j : ℕ)
      → i ≤ j
      → j < i + jobs
      → client_idx s idx j < s.client_num
      → ((k : ℕ) → IsLate clock (slot s (client_idx s idx j)) k)
      → has (client_idx s idx j + 1) ids ≡ true
  pub kept : (c : ℕ) → has (c + 1) ids ≡ false → slot s' c ≡ slot s c
  pub renewed :
      (c : ℕ)
      → has (c + 1) ids ≡ true
      → (k : ℕ) × IsLate clock (slot s c) k × (slot s' c ≡ clock (k + 1))

later_idx : (s : StressTestClient) (idx i j : ℕ) → i ≤ j → client_idx s idx i ≤ client_idx s idx j
later_idx s idx i j h = omega (arith, mul-le-mul_right s.thread_cnt h)

next_idx :
    (s : StressTestClient) (idx i j : ℕ)
    → 0 < s.thread_cnt
    → suc i ≤ j
    → client_idx s idx i < client_idx s idx j
next_idx s idx i j some_thread h = omega (arith, some_thread, mul-le-mul_right s.thread_cnt h)

-- Nothing is called where no client is left.
Visited-none :
    (clock : ℕ → ℤ) (call : ℕ → Call) (idx jobs i : ℕ) (s : StressTestClient)
    → ((j : ℕ) → i ≤ j → j < i + jobs → s.client_num ≤ client_idx s idx j)
    → Visited clock call idx jobs i s s []
unfolding has Distinct
Visited-none clock call idx jobs i s over = record {
  calls_as = sym (append-nil s.calls);
  same_num = refl;
  same_threads = refl;
  same_length = refl;
  distinct = tt;
  own = λ id h. ground (arith, h);
  due = λ j h k l late. absurd (omega (arith, over j h k, l));
  kept = λ c h. refl;
  renewed = λ c h. ground (arith, h);
}

true_not_false : true ≢ false
true_not_false e = ground (arith, e)

same_round : (i j : ℕ) → i ≤ j → ¬ (i < j) → i ≡ j
same_round i j h n = omega arith

module _ (clock : ℕ → ℤ) (call : ℕ → Call) (idx jobs i : ℕ) (s : StressTestClient) where
  abbrev first : ℕ
  first = client_idx s idx i

  abbrev skipped : StressTestClient
  skipped = record s { reads = s.reads + 1 }

  Visited-skip :
      (s' : StressTestClient) (ids : List ℕ)
      → is_early clock first s ≡ true
      → Visited clock call idx jobs (i + 1) skipped s' ids
      → Visited clock call idx (suc jobs) i s s' ids
  Visited-skip s' ids early v = record {
    calls_as = v.calls_as;
    same_num = v.same_num;
    same_threads = v.same_threads;
    same_length = v.same_length;
    distinct = v.distinct;
    own = λ id h. let (j, l, e, rest) = v.own id h in (j, omega arith, e, rest);
    due = λ j h k l late. elim (dec_lt i j) [
      | yes more ↦ v.due j (omega arith) (omega arith) l late
      | no same ↦ absurd (
          true_not_false (
            sym early
            ∙ ap (λ c. is_early clock c s) (ap (client_idx s idx) (same_round i j h same))
            ∙ late s.reads))
    ];
    kept = v.kept;
    renewed = v.renewed;
  }

  abbrev called : StressTestClient
  called = record s {
    send_time = blit s.send_time first (clock (s.reads + 1) ∷ []);
    reads = s.reads + 2;
    calls = s.calls ++ call (first + 1) ∷ [];
  }

  called_slot : first < length s.send_time → slot called first ≡ clock (s.reads + 1)
  called_slot h =
      get_or-blit_in s.send_time first _ first 0 (pos 0) (omega (arith, h)) (omega arith)
        (omega arith)

  other_slot : (c : ℕ) → c ≢ first → slot called c ≡ slot s c
  other_slot c n = elim (dec_lt c first) [
    | yes below ↦ get_or-blit_below s.send_time first _ c (pos 0) below
    | no above ↦ get_or-blit_above s.send_time first _ c (pos 0) (omega (arith, above, n))
  ]

  Visited-call :
      (s' : StressTestClient) (ids : List ℕ)
      → 0 < s.thread_cnt
      → first < s.client_num
      → first < length s.send_time
      → is_early clock first s ≡ false
      → Visited clock call idx jobs (i + 1) called s' ids
      → Visited clock call idx (suc jobs) i s s' ((first + 1) ∷ ids)
  unfolding has Distinct
  Visited-call s' ids some_thread some_client inside was_late v = record {
    calls_as = v.calls_as ∙ append_assoc s.calls (call (first + 1) ∷ []) (map call ids);
    same_num = v.same_num;
    same_threads = v.same_threads;
    same_length = v.same_length ∙ length-blit s.send_time first _;
    distinct = (new, v.distinct);
    own = λ id h. elim (Bool-cases (id == first + 1)) [
      | inl same ↦ (i, omega arith, same_id _ _ same, omega (arith, some_client, same_id _ _ same))
      | inr differs ↦
          let (j, l, e, rest) = v.own id (ground (arith, h, differs)) in (j, omega arith, e, rest)
    ];
    due = λ j h k l late. elim (dec_lt i j) [
      | yes more ↦
          let n = later j more in
          let there = v.due j (omega arith) (omega arith) l (λ r.
            ap (λ t. ltb_ℤ (clock r -ℤ t) (pos packet_send_duration)) (other_slot _ n) ∙ late r) in
          ground (arith, there)
      | no same ↦ ground (arith, ap (client_idx s idx) (same_round i j h same))
    ];
    kept = λ c h.
        v.kept c (ground (arith, h)) ∙ other_slot c (λ e. true_not_false (ground (arith, e, h)));
    renewed = λ c h. elim (Bool-cases (c == first)) [
      | inl same ↦
          let e = same_id c first same in
          (
            s.reads,
            ap (λ i. is_early clock i s) e ∙ was_late,
            ap (slot s') e ∙ v.kept first new ∙ called_slot inside,
          )
      | inr differs ↦
          let n = other_id c first differs in
          let (k, late, now) = v.renewed c (ground (arith, h, differs)) in
          (
            k,
            ap (λ t. ltb_ℤ (clock k -ℤ t) (pos packet_send_duration)) (sym (other_slot c n)) ∙ late,
            now,
          )
    ];
  }
    where
      later : (j : ℕ) → i < j → client_idx s idx j ≢ first
      later j more e = omega (arith, next_idx s idx i j some_thread more, e)

      new : has (first + 1) ids ≡ false
      new = elim (Bool-cases (has (first + 1) ids)) [
        | inl there ↦
            let (j, l, e, rest) = v.own (first + 1) there in
            absurd (later j (omega arith) (omega (arith, e)))
        | inr out ↦ out
      ]

under : (c num len : ℕ) → c < num → len ≡ num → c < len
under c num len h e = omega arith

-- One round of the loop.
visit_all_step :
    (clock : ℕ → ℤ) (call : ℕ → Call) (idx jobs i : ℕ) (s s1 s' : StressTestClient)
    → leb s.client_num (client_idx s idx i) ≡ false
    → visit clock call (client_idx s idx i) s ≡ ok s1
    → visit_all clock call idx jobs (i + 1) s1 ≡ ok s'
    → visit_all clock call idx (suc jobs) i s ≡ ok s'
unfolding visit_all
visit_all_step clock call idx jobs i s s1 s' more now rest =
    if_false _ _ _ more ∙ bind_ok s1 (λ r. visit_all clock call idx jobs (i + 1) r) now ∙ rest

visit_early :
    (clock : ℕ → ℤ) (call : ℕ → Call) (c : ℕ) (s : StressTestClient)
    → c < length s.send_time
    → is_early clock c s ≡ true
    → visit clock call c s ≡ ok (record s { reads = s.reads + 1 })
unfolding visit
visit_early clock call c s inside early =
    if_false _ _ _ (lt→leb_false _ _ inside) ∙ if_true _ _ _ early

visit_late :
    (clock : ℕ → ℤ) (call : ℕ → Call) (idx jobs i : ℕ) (s : StressTestClient)
    → client_idx s idx i < length s.send_time
    → is_early clock (client_idx s idx i) s ≡ false
    → visit clock call (client_idx s idx i) s ≡ ok (called clock call idx jobs i s)
unfolding visit
visit_late clock call idx jobs i s inside late =
    if_false _ _ _ (lt→leb_false _ _ inside) ∙ if_false _ _ _ late

pub visit_all_lem :
    (clock : ℕ → ℤ) (call : ℕ → Call) (idx jobs i : ℕ) (s : StressTestClient)
    → 0 < s.thread_cnt
    → length s.send_time ≡ s.client_num
    → (s' : StressTestClient) × (ids : List ℕ) × (visit_all clock call idx jobs i s ≡ ok s')
      × Visited clock call idx jobs i s s' ids
unfolding visit_all
visit_all_lem clock call idx zero i s some_thread full =
    (s, [], refl, Visited-none clock call idx zero i s (λ j h k. absurd (omega arith)))
visit_all_lem clock call idx (suc jobs) i s some_thread full =
    elim (Bool-cases (leb s.client_num (client_idx s idx i))) [
      | inl over ↦ (
        s,
        [],
        if_true _ _ _ over,
        Visited-none clock call idx (suc jobs) i s
            (λ j h k. omega (arith, later_idx s idx i j h, leb→le _ _ over)),
      )
      | inr more ↦
          let some_client = leb→gt s.client_num (client_idx s idx i) more in
          let inside = under _ _ _ some_client full in
          elim (Bool-cases (is_early clock (client_idx s idx i) s)) [
            | inl early ↦
                let (s', ids, e, v) =
                  visit_all_lem clock call idx jobs (i + 1) (skipped clock call idx jobs i s)
                    some_thread full in
                (
                  s',
                  ids,
                  visit_all_step clock call idx jobs i s _ s' more
                      (visit_early clock call _ s inside early) e,
                  Visited-skip clock call idx jobs i s s' ids early v,
                )
            | inr late ↦
                let (s', ids, e, v) =
                  visit_all_lem clock call idx jobs (i + 1) (called clock call idx jobs i s)
                    some_thread (length-blit s.send_time _ _ ∙ full) in
                (
                  s',
                  (client_idx s idx i + 1) ∷ ids,
                  visit_all_step clock call idx jobs i s _ s' more
                      (visit_late clock call idx jobs i s inside late) e,
                  Visited-call clock call idx jobs i s s' ids some_thread some_client inside late v,
                )
          ]
    ]
