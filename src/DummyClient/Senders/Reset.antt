-- ===== src/DummyClient/Senders/Reset.antt =====
-- The vector of send times before and after it is made, and the end of a test.
use mathlib.Core.List.{map-append}
use rio_iocp_server.Prelude.{
  ℕ, zero, suc, ◌+◌, ◌<◌, ◌≡◌, refl, sym, ap, ◌∙◌, inl, inr, List, [], ◌++◌, map, append_assoc,
  true, false, ltb_ℤ, ℤ, pos, ◌-ℤ◌, ok, has, length, arith, bind_ok, Bool-cases, append-nil,
  has-append,
}
use rio_iocp_server.DummyClient.Senders.{
  StressTestClient, packet_send_duration, disconnect, disconnect_from_server, disconnect_all,
}
use rio_iocp_server.DummyClient.Senders.Visits.{slot, visit_all_lem}

not_called :
    (c : ℕ) (ids : List ℕ) → (has (c + 1) ids ≡ true → true ≡ false) → has (c + 1) ids ≡ false
not_called c ids h = elim (Bool-cases (has (c + 1) ids)) [
  | inl there ↦ there ∙ h there
  | inr out ↦ out
]

-- At the end of a normal test the main thread ends the sessions in turns like those that send, so it
-- skips each client that was sent to less than a second ago: for a client whose last send is early at
-- every reading of the clock, no turn calls `Disconnect`, however many turns there are.
pub disconnect_all-skips :
    (clock : ℕ → ℤ) (turns i c : ℕ) (s : StressTestClient)
    → 0 < s.thread_cnt
    → length s.send_time ≡ s.client_num
    → ((k : ℕ) → ltb_ℤ (clock k -ℤ slot s c) (pos packet_send_duration) ≡ true)
    → (s' : StressTestClient) × (ids : List ℕ) × (disconnect_all clock turns i s ≡ ok s')
      × (s'.calls ≡ s.calls ++ map disconnect ids)
      × (has (c + 1) ids ≡ false)
unfolding disconnect_all disconnect_from_server has
disconnect_all-skips clock zero i c s some_thread full early =
    (s, [], refl, sym (append-nil _), refl)
disconnect_all-skips clock (suc turns) i c s some_thread full early =
    let (s1, ids1, e1, v) = visit_all_lem clock disconnect i s.job_cnt 0 s some_thread full in
    let out : has (c + 1) ids1 ≡ false =
      not_called c ids1
        (λ there. let (k, late, now) = v.renewed c there in ground (arith, early k, late)) in
    let same = v.kept c out in
    let (s', ids, e, called, rest) =
      disconnect_all-skips clock turns (i + 1) c s1 (omega (arith, some_thread, v.same_threads))
        (omega (arith, full, v.same_num, v.same_length))
        (λ k. ap (λ t. ltb_ℤ (clock k -ℤ t) (pos packet_send_duration)) same ∙ early k) in
    (
      s',
      ids1 ++ ids,
      bind_ok s1 (λ r. disconnect_all clock turns (i + 1) r) e1 ∙ e,
      called
          ∙ ap (λ l. l ++ map disconnect ids) v.calls_as
          ∙ append_assoc s.calls _ _
          ∙ ap (λ l. s.calls ++ l) (sym (map-append disconnect ids1 ids)),
      has-append (c + 1) ids1 ids ∙ ground (arith, out, rest),
    )
