-- ===== src/ThreadManager/Tests.antt =====
-- Two threads that start one after the other, and two that start at the same time.
use rio_iocp_server.Prelude.{◌≡◌, refl, true, false, arith, [], ◌∷◌}
use rio_iocp_server.RwLock.{make_lock, try_write, write_again}
use rio_iocp_server.ThreadManager.{
  Threads, no_threads, create_thread, count_thread, read_thread_id, counts_one, reads_one, Starts,
  start, creates, counts, reads,
}
use rio_iocp_server.ThreadManager.Ids.{HasIds, starts-HasIds, starts-same_id}

abbrev one_created : Threads
one_created = record no_threads { manager = create_thread no_threads.manager; created = 1 }

abbrev two_created : Threads
two_created = record no_threads {
  manager = create_thread (create_thread no_threads.manager);
  created = 2;
}

abbrev in_turn : Threads
in_turn = reads_one 0 (counts_one 0 (reads_one 0 (counts_one 1 two_created)))

in_turn_ids : in_turn.ids ≡ 2 ∷ 1 ∷ []
unfolding read_thread_id count_thread create_thread
in_turn_ids = refl

starts-HasIds_example : HasIds in_turn
unfolding create_thread count_thread
starts-HasIds_example = starts-HasIds in_turn (
    reads 0
      (counts 0 (reads 0 (counts 1 (creates (creates start)) refl (λ e. refl)) refl) refl
        (λ e. refl))
      refl)

-- Both count themselves, and then both read.
abbrev both_counted : Threads
both_counted = counts_one 0 (counts_one 1 two_created)

starts-same_id_example :
    Starts false no_threads (reads_one 0 (reads_one 1 both_counted))
    × ((reads_one 0 (reads_one 1 both_counted)).ids ≡ 2 ∷ 2 ∷ [])
    × ((try_write 2 make_lock).0 ≡ true)
    × ((write_again 2 (try_write 2 make_lock).1).0 ≡ true)
unfolding create_thread count_thread make_lock
starts-same_id_example =
    starts-same_id both_counted 0 make_lock
      (counts 0 (counts 1 (creates (creates start)) refl (λ b. cc b)) refl (λ b. cc b)) refl
      (omega arith) refl
