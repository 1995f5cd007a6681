-- ===== src/RioSession/Send.antt =====
-- `RegisterSend`, `SendCommit` and `SendDeferred` of RioSession.cpp.
pub mod Order
pub mod Stuck
pub mod Loops
pub mod Deferred
pub mod History
use rio_iocp_server.Prelude.{
  ℕ, zero, suc, ◌+◌, ◌-◌, Bool, true, false, List, [], ◌∷◌, ◌++◌, if◌then◌else◌, Outcome, ok,
  running, ◌>>=◌, ltb, leb, ◌==◌, ◌||◌, ◌&&◌, not, length, take,
}
use rio_iocp_server.Memory.{slice}
use rio_iocp_server.RingBuffer.{RingBuffer, write_buffer}
use rio_iocp_server.RioBuffer.{
  RioBuffer, get_send_data_size, get_chunk_send_size, get_send_offset, on_send_buffer,
}
use rio_iocp_server.RioSession.Defs.{
  RioSession, World, Call, SendAnswer, queued, no_buffers, failed, send_request, commit, error,
  logged,
}
use rio_iocp_server.RioSession.Connection.{disconnect, fail}

-- `SEND_LIMIT`, `COMMIT_TIME` and `MAX_POST_CNT` of RioCommon.h.
abbrev pub send_limit : ℕ
send_limit = 600

abbrev pub commit_time : ℕ
commit_time = 20

abbrev pub max_post_cnt : ℕ
max_post_cnt = 256

module _ (world : World) where
  -- What `RegisterSend` does with the answer of `RIOSend`.
  unfoldable pub answered : SendAnswer → ℕ → RioSession → Bool × RioSession
  answered no_buffers data_length s = (false, s)
  answered failed data_length s = (false, fail world s)
  answered queued data_length s =
      let counted = record s { send_cnt = s.send_cnt + 1 } in
      let (moved, buffer) = on_send_buffer s.send_buffer data_length in
      if not moved
      then (false, fail world counted)
      else (true, record counted { send_buffer = buffer })

  -- `RegisterSend`
  unfoldable pub register_send : ℕ → ℕ → RioSession → Bool × RioSession
  register_send data_length data_offset s =
      let answer = world.rio_send s data_length data_offset in
      let request = send_request (slice s.send_buffer.ring.buffer data_offset data_length) answer in
      if not s.is_connected then (false, s) else answered answer data_length (logged request s)

  -- `SendCommit`
  unfoldable pub send_commit : RioSession → RioSession
  send_commit s =
      let committed = logged commit s in
      if s.send_cnt == 0
      then s
      else (if world.rio_commit s
          then record committed { send_cnt = 0 }
          else record (fail world committed) { send_cnt = 0 })

  -- One round of the loops that hand over what is unsent.
  unfoldable pub send_chunk : RioSession → Bool × RioSession
  send_chunk s = register_send (get_chunk_send_size s.send_buffer) (get_send_offset s.send_buffer) s

  -- The inner loop of `SendDeferred`: until nothing is unsent or a request is refused.
  unfoldable pub drain : ℕ → ℕ → RioSession → Outcome (ℕ × RioSession)
  drain zero send_count s = running
  drain (suc fuel) send_count s =
      let (sent, s') = send_chunk s in
      let rest = drain fuel (send_count + 1) s' in
      if ltb 0 (get_send_data_size s.send_buffer)
      then (if sent then rest else ok (send_count, s'))
      else ok (send_count, s)

  -- The last loop: the same, with at most `max_post_cnt` requests.
  unfoldable pub drain_some : ℕ → ℕ → RioSession → Outcome (ℕ × RioSession)
  drain_some zero send_count s = running
  drain_some (suc fuel) send_count s =
      let (sent, s') = send_chunk s in
      let rest = drain_some fuel (send_count + 1) s' in
      if ltb 0 (get_send_data_size s.send_buffer)
      then (if sent
          then (if leb max_post_cnt (send_count + 1) then ok (send_count + 1, s') else rest)
          else ok (send_count, s'))
      else ok (send_count, s)

  -- The first loop of `SendDeferred`. `net_buffer` and `queue` are the front of the send queue and
  -- what is behind it.
  unfoldable pub take_queue : ℕ → ℕ → ℕ → RioSession → Outcome (ℕ × RioSession)
  take_queue fuel zero send_count s = running
  take_queue fuel (suc rounds) send_count s = elim s.send_queue [
    | [] ↦ ok (send_count, s)
    | net_buffer ∷ queue ↦
        write_buffer fuel s.send_buffer.ring net_buffer (length net_buffer) >>= λ (written, ring).
        let s' = record s {
          send_buffer = record (s.send_buffer) { ring = ring };
          send_queue = queue;
        } in
        let more = take_queue fuel rounds send_count s' in
        let drained = drain fuel send_count s' >>= λ (count, s'').
        let next = take_queue fuel rounds count s'' in
        if leb max_post_cnt count then ok (count, s'') else next in
        if not written
        then ok (send_count, s)
        else (if ltb (get_send_data_size s'.send_buffer) send_limit then more else drained)
  ]

  -- The end of `SendDeferred`, when both loops are done.
  unfoldable pub finish_send : ℕ → RioSession → RioSession
  finish_send send_count s =
      let s' = record s { last_send_time = world.now s } in
      if ltb 0 send_count then send_commit s' else s'

  -- `SendDeferred`
  unfoldable pub send_deferred : ℕ → RioSession → Outcome (Bool × RioSession)
  send_deferred fuel s =
      let too_early =
        not (s.last_send_time == 0) && leb (world.now s - s.last_send_time) commit_time in
      let work = take_queue fuel fuel 0 s >>= λ (count, s').
      if ltb count max_post_cnt
      then (drain_some fuel count s' >>= λ (count', s''). ok (true, finish_send count' s''))
      else ok (true, finish_send count s') in
      if not s.is_connected || not s.is_allocated
      then ok (false, s)
      else (if too_early then ok (false, s) else work)
