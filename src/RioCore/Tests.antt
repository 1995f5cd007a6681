-- ===== src/RioCore/Tests.antt =====
-- `DeferredSend` of RioCore.cpp for sessions whose sends fail, and for sessions whose sends succeed.
use rio_iocp_server.Prelude.{
  ℕ, ◌≡◌, refl, Bool, true, false, [], ◌∷◌, pos, if◌then◌else◌, Outcome, ok, ub, running, has,
  Distinct, blit,
}
use rio_iocp_server.RingBuffer.{get_chunk_write_size, write_buffer, write_loop, write_chunk}
use rio_iocp_server.RioBuffer.{RioBuffer, get_chunk_send_size, get_send_data_size, on_send_buffer}
use rio_iocp_server.RioSession.Defs.{RioSession, World, SendAnswer, queued, failed}
use rio_iocp_server.RioSession.Connection.{disconnect, fail}
use rio_iocp_server.RioSession.Send.{
  answered, register_send, send_commit, send_chunk, drain, drain_some, take_queue, finish_send,
  send_deferred,
}
use rio_iocp_server.RioCore.{RioCore, releases, deferred_send}
use rio_iocp_server.RioCore.Relock.{Sends, all_sent, any_releases, deferred_send_lem}

abbrev answering : SendAnswer → World
answering answer = record {
  set_linger = λ s. true;
  rio_receive = λ s offset len. true;
  rio_send = λ s len offset. answer;
  rio_commit = λ s. true;
  register_buffer = λ i. true;
  create_request_queue = true;
  on_call = λ c s. s;
  now = λ s. 1000;
}

abbrev empty_buffer : RioBuffer
empty_buffer = record {
  ring = record {
    capacity = 6;
    size = 0;
    buffer = 0 ∷ 0 ∷ 0 ∷ 0 ∷ 0 ∷ 0 ∷ [];
    head_pos = 0;
    tail_pos = 0;
  };
  send_pos = 0;
}

-- A session with one packet to send.
abbrev asked : RioSession
asked = record {
  is_connected = true;
  is_allocated = true;
  recv_buffer = empty_buffer;
  send_buffer = empty_buffer;
  send_queue = (1 ∷ 2 ∷ []) ∷ [];
  send_cnt = 0;
  last_send_time = 0;
  log = [];
}

abbrev core : RioCore
core = record {
  session_lock = false;
  sessions = 3 ∷ 5 ∷ [];
  session_cnt = pos 2;
  objects = λ h. asked;
}

abbrev value : Outcome (Bool × RioSession) → Bool × RioSession
value (ok r) = r
value ub = (false, asked)
value running = (false, asked)

abbrev after : SendAnswer → ℕ → Bool × RioSession
after answer h = value (send_deferred (answering answer) 9 asked)

two_sessions : Distinct core.sessions
unfolding Distinct has
two_sessions = (refl, (refl, tt))

all_return : Sends (λ h. answering failed) 9 (after failed) core.sessions core.objects
unfolding Sends send_deferred take_queue drain drain_some send_chunk register_send answered
    finish_send send_commit write_buffer write_loop write_chunk get_chunk_write_size
    get_chunk_send_size get_send_data_size on_send_buffer blit fail disconnect
all_return = λ h m. refl

deferred_send_lem_example : deferred_send (λ h. answering failed) 9 core ≡ (
    if any_releases (after failed) core.sessions core.objects
    then ub
    else ok (record core { objects = all_sent (after failed) core.sessions core.objects }))
deferred_send_lem_example =
    deferred_send_lem (λ h. answering failed) 9 (after failed) core refl two_sessions all_return

-- One send fails, and the core locks its mutex twice.
failing_send : any_releases (after failed) core.sessions core.objects ≡ true
unfolding any_releases releases send_deferred take_queue drain drain_some send_chunk register_send
    answered finish_send send_commit write_buffer write_loop write_chunk get_chunk_write_size
    get_chunk_send_size get_send_data_size on_send_buffer blit fail disconnect
failing_send = refl

working_send : any_releases (after queued) core.sessions core.objects ≡ false
unfolding any_releases releases send_deferred take_queue drain drain_some send_chunk register_send
    answered finish_send send_commit write_buffer write_loop write_chunk get_chunk_write_size
    get_chunk_send_size get_send_data_size on_send_buffer blit fail disconnect
working_send = refl
