-- ===== src/DummyClient/Senders.antt =====
-- `StressTestClient` of DummyClient/StressTest/StressTestClient.h and StressTestClient.cpp: how the clients
-- are shared among the sender threads, and when each of them is sent to.
-- A clock gives the time of each of its readings, in milliseconds. The calls of `gTestSessionMgr` are
-- noted in order. Where the code computes with `double`, the model computes exactly and cuts.
pub mod Visits
pub mod Turns
pub mod Reset
use rio_iocp_server.Prelude.{
  ℕ, zero, suc, ◌+◌, ◌-◌, ◌*◌, ◌/◌, Bool, true, false, List, [], ◌∷◌, ◌++◌, if◌then◌else◌, not, leb,
  ltb, ℤ, pos, ◌+ℤ◌, ◌-ℤ◌, ltb_ℤ, Outcome, ok, ub, ◌>>=◌, length, get_or, take, replicate, blit,
  tabulate,
}

-- `SendPacket(id)` and `Disconnect(id)` of the manager.
pub data Call : Type 0 where
  send_packet disconnect : ℕ → Call

-- The members that the threads use. `send_time` is a vector, and `reads` counts the readings of the clock.
pub record StressTestClient : Type 0 where
  pub run_client : Bool
  pub stop_test : Bool
  pub client_num : ℕ
  pub thread_cnt : ℕ
  pub job_cnt : ℕ
  pub send_time : List ℤ
  pub reads : ℕ
  pub calls : List Call

-- `PACKET_SEND_DURATION` and `INCREASE_RATE_DEFAULT`.
abbrev pub packet_send_duration : ℕ
packet_send_duration = 1000

abbrev pub increase_rate_default : ℕ
increase_rate_default = 20

-- `ceil(clientNum / threadCnt)`
unfoldable pub job_count : ℕ → ℕ → ℕ
job_count client_num thread_cnt = (client_num + thread_cnt - 1) / thread_cnt

-- The constructor.
abbrev pub new_client : ℕ → ℕ → StressTestClient
new_client client_num thread_cnt = record {
  run_client = false;
  stop_test = false;
  client_num = client_num;
  thread_cnt = thread_cnt;
  job_cnt = job_count client_num thread_cnt;
  send_time = [];
  reads = 0;
  calls = [];
}

module _ (clock : ℕ → ℤ) where
  -- Less than `PACKET_SEND_DURATION` since the time in slot `c`, at the next reading.
  abbrev pub is_early : ℕ → StressTestClient → Bool
  is_early c s = ltb_ℤ (clock s.reads -ℤ get_or s.send_time c (pos 0)) (pos packet_send_duration)

  -- The body of both loops, for the client with index `c`.
  unfoldable pub visit : (ℕ → Call) → ℕ → StressTestClient → Outcome StressTestClient
  visit call c s =
      let called = record s {
        send_time = blit s.send_time c (clock (s.reads + 1) ∷ []);
        reads = s.reads + 2;
        calls = s.calls ++ call (c + 1) ∷ [];
      } in
      if leb (length s.send_time) c
      then ub
      else (if is_early c s then ok (record s { reads = s.reads + 1 }) else ok called)

  -- Both loops, with `jobs` rounds to go.
  unfoldable pub visit_all : (ℕ → Call) → ℕ → ℕ → ℕ → StressTestClient → Outcome StressTestClient
  visit_all call idx zero i s = ok s
  visit_all call idx (suc jobs) i s =
      let s_idx : ℕ = i * s.thread_cnt + idx in
      let next = visit call s_idx s >>= λ s'. visit_all call idx jobs (i + 1) s' in
      if leb s.client_num s_idx then ok s else next

  -- `DisconnectFromServer`
  unfoldable pub disconnect_from_server : ℕ → StressTestClient → Outcome StressTestClient
  disconnect_from_server idx s = visit_all disconnect idx s.job_cnt 0 s

  -- `SendToServer`
  unfoldable pub send_to_server : ℕ → StressTestClient → Outcome (Bool × StressTestClient)
  send_to_server idx s =
      if not s.run_client
      then ok (false, s)
      else (visit_all send_packet idx s.job_cnt 0 s >>= λ s'. ok (true, s'))

  -- `ResetSendTime`
  unfoldable pub reset_send_time : StressTestClient → StressTestClient
  reset_send_time s =
      let start_time : ℤ = clock s.reads in
      record s {
        send_time =
            tabulate s.client_num
              (λ i. start_time +ℤ pos (packet_send_duration * i / s.client_num));
        reads = s.reads + 1;
      }

  -- `StartNormalMode` up to the loop, in the two parts between which sender threads can run.
  unfoldable pub start_run : StressTestClient → StressTestClient
  start_run s = record s { run_client = true; reads = s.reads + 1 }

  unfoldable pub start_normal_mode : StressTestClient → StressTestClient
  start_normal_mode s = reset_send_time (start_run s)

  -- `StartNormalMode` when its time is over.
  unfoldable pub stop_run : StressTestClient → StressTestClient
  stop_run s = record s { run_client = false; stop_test = true }

  -- The loop of `StartNormalMode` that ends the sessions, for the threads from `i` on.
  unfoldable pub disconnect_all : ℕ → ℕ → StressTestClient → Outcome StressTestClient
  disconnect_all zero i s = ok s
  disconnect_all (suc n) i s = disconnect_from_server i s >>= λ s'. disconnect_all n (i + 1) s'

  -- A round of `StartIncreaseMode` up to its inner loop, when the new sessions are connected.
  unfoldable pub start_increase_round : StressTestClient → StressTestClient
  start_increase_round s =
      let more = record s {
        client_num = s.client_num + increase_rate_default;
        job_cnt = job_count (s.client_num + increase_rate_default) s.thread_cnt;
      } in
      start_run (reset_send_time more)
