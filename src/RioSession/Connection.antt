-- ===== src/RioSession/Connection.antt =====
-- `Disconnect`, `Send`, `ProcessConnect` and `InitSession` of RioSession.cpp.
pub mod Kept
pub mod Closed
use rio_iocp_server.Prelude.{
  ℕ, Bool, true, false, List, [], ◌∷◌, ◌++◌, if◌then◌else◌, ◌≡◌, refl, arith, ◌&&◌, not,
}
use rio_iocp_server.RingBuffer.{get_chunk_write_size, get_write_offset}
use rio_iocp_server.RioBuffer.{RioBuffer, make_rio_buffer}
use rio_iocp_server.RioSession.Defs.{
  RioSession, World, Call, connected, close_socket, disconnected, released, receive, error, logged,
  virtual_call,
}

-- `BUFFER_SIZE` of RioCommon.h.
abbrev pub buffer_size : ℕ
buffer_size = 65536

-- `Send`
unfoldable pub send : List ℕ → RioSession → RioSession
send net_buffer s =
    if s.is_connected then record s { send_queue = s.send_queue ++ net_buffer ∷ [] } else s

module _ (world : World) where
  -- `Disconnect`. The core outlives its sessions, so `m_rioCore.lock()` is not null.
  unfoldable pub disconnect : RioSession → RioSession
  disconnect s =
      let s' = record s { is_connected = false } in
      let closed = logged released (virtual_call world disconnected (logged close_socket s')) in
      if not s.is_connected then s else (if world.set_linger s' then closed else logged error s')

  -- `HandleError(...); Disconnect();`
  unfoldable pub fail : RioSession → RioSession
  fail s = disconnect (logged error s)

  -- `RegisterRecv`
  unfoldable pub register_recv : RioSession → RioSession
  register_recv s =
      let offset : ℕ = get_write_offset s.recv_buffer.ring in
      let len : ℕ = get_chunk_write_size s.recv_buffer.ring in
      let posted = logged (receive offset len) s in
      if not s.is_connected
      then s
      else (if world.rio_receive s offset len then posted else fail posted)

  -- `AllocBuffer`: the first failure leaves the later buffer unregistered.
  unfoldable pub alloc_buffer : RioSession → Bool × RioSession
  alloc_buffer s =
      let s' = record s {
        recv_buffer = make_rio_buffer buffer_size;
        send_buffer = make_rio_buffer buffer_size;
      } in
      if world.register_buffer 0
      then (if world.register_buffer 1 then (true, s') else (false, logged error s'))
      else (false, logged error s')

  -- `CreateRequestQueue`
  unfoldable pub create_queue : RioSession → Bool × RioSession
  create_queue s = if world.create_request_queue then (true, s) else (false, logged error s)

  -- `InitSession`
  unfoldable pub init_session : RioSession → Bool × RioSession
  init_session s =
      let (allocated, s1) = alloc_buffer s in
      let (created, s2) = create_queue s1 in
      if not allocated
      then (false, s1)
      else (if not created then (false, s2) else (true, record s2 { is_allocated = true }))

  -- `ProcessConnect`: the result of `InitSession` is not looked at.
  unfoldable pub process_connect : RioSession → RioSession
  process_connect s =
      register_recv
        (virtual_call world connected (init_session (record s { is_connected = true })).1)
