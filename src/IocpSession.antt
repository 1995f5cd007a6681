-- ===== src/IocpSession.antt =====
-- ServerCore/Network/IocpSession.cpp and IocpSession.h: one connection over I/O completion ports.
-- The calls of Winsock and the virtual methods are the fields of `IocpWorld`; the session keeps a log
-- of what it calls, in order. A NetBuffer in the send queue is the bytes that it holds.
pub mod Threads
pub mod Steps
pub mod Completion
pub mod Exclusive
pub mod Failure
pub mod Receive
mod Tests
use rio_iocp_server.Prelude.{
  ℕ, Bool, true, false, List, [], ◌∷◌, ◌++◌, if◌then◌else◌, Outcome, ok, ◌>>=◌, ltb, ◌==◌, ◌||◌,
  not, drop,
}
use rio_iocp_server.RingBuffer.{
  RingBuffer, get_write_offset, get_chunk_write_size, on_write_buffer, on_read_buffer, adjust_pos,
}
use rio_iocp_server.Packet.{iocp_on_recv}

-- What a session calls. `wsa_send` has the buffers that are offered, and whether the request started.
pub data Call : Type 0 where
  connect_ex disconnect_ex connected disconnected added released error : Call
  recv_packet : List ℕ → Call
  sent_done : ℕ → Call
  wsa_recv : ℕ → ℕ → Call
  wsa_send : List (List ℕ) → Bool → Call

-- `IOCP_IO_TYPE`
pub data IoType : Type 0 where
  io_accept io_connect io_disconnect io_recv io_send : IoType

pub record IocpSession : Type 0 where
  pub is_connected : Bool
  pub recv_buffer : RingBuffer
  pub send_buffer_queue : List (List ℕ)
  pub send_event : List (List ℕ)
  pub send_registered : Bool
  pub log : List Call

-- A request that is pending has started: only an error other than `ERROR_IO_PENDING` is false.
pub record IocpWorld : Type 0 where
  pub is_client : Bool
  pub set_reuse_addr : IocpSession → Bool
  pub bind_addr_any : IocpSession → Bool
  pub starts_connect : IocpSession → Bool
  pub starts_disconnect : IocpSession → Bool
  pub starts_recv : IocpSession → Bool
  pub starts_send : IocpSession → Bool
  pub on_call : Call → IocpSession → IocpSession

abbrev pub logged : Call → IocpSession → IocpSession
logged c s = record s { log = s.log ++ c ∷ [] }

-- The locked block of `Send`; true when the caller has to register the send.
unfoldable pub enqueue : List ℕ → IocpSession → Bool × IocpSession
enqueue net_buffer s = (
  not s.send_registered,
  record s { send_buffer_queue = s.send_buffer_queue ++ net_buffer ∷ []; send_registered = true },
)

-- `RegisterSend` up to the buffers of the request; false when the session is not connected.
unfoldable pub gather : IocpSession → Bool × IocpSession
gather s = if not s.is_connected then (false, s) else (
  true,
  record s { send_event = s.send_event ++ s.send_buffer_queue; send_buffer_queue = [] },
)

-- The locked block of `ProcessSend`; true when there is more to send.
unfoldable pub check_queue : IocpSession → Bool × IocpSession
check_queue s = elim s.send_buffer_queue [
  | [] ↦ (false, record s { send_registered = false })
  | _ ∷ _ ↦ (true, s)
]

module _ (world : IocpWorld) where
  abbrev pub virtual_call : Call → IocpSession → IocpSession
  virtual_call c s = world.on_call c (logged c s)

  -- `RegisterSend` from the call of `WSASend` on.
  unfoldable pub post : IocpSession → IocpSession
  post s =
      let posted = logged (wsa_send s.send_event (world.starts_send s)) s in
      if world.starts_send s
      then posted
      else logged error (record posted { send_event = []; send_registered = false })

  -- `RegisterSend`
  unfoldable pub register_send : IocpSession → IocpSession
  register_send s = let (goes_on, s') = gather s in if goes_on then post s' else s'

  -- `Send`
  unfoldable pub send : List ℕ → IocpSession → IocpSession
  send net_buffer s =
      let (registered, s') = enqueue net_buffer s in
      if not s.is_connected then s else (if registered then register_send s' else s')

  -- `RegisterDisconnect`
  unfoldable pub register_disconnect : IocpSession → IocpSession
  register_disconnect s =
      let called = logged disconnect_ex s in
      if world.starts_disconnect s then called else logged error called

  -- `Disconnect`
  unfoldable pub disconnect : IocpSession → IocpSession
  disconnect s =
      if not s.is_connected then s else register_disconnect (record s { is_connected = false })

  -- `RegisterConnect`
  unfoldable pub register_connect : IocpSession → Bool × IocpSession
  register_connect s =
      let called = logged connect_ex s in
      let connecting : Bool × IocpSession =
        if world.starts_connect s then (true, called) else (false, logged error called) in
      if s.is_connected || not world.is_client
      then (false, s)
      else (if not (world.set_reuse_addr s)
          then (false, s)
          else (if not (world.bind_addr_any s) then (false, s) else connecting))

  -- `RegisterRecv`
  unfoldable pub register_recv : IocpSession → IocpSession
  register_recv s =
      let posted =
        logged (wsa_recv (get_write_offset s.recv_buffer) (get_chunk_write_size s.recv_buffer)) s in
      if not s.is_connected
      then s
      else (if world.starts_recv s then posted else logged error posted)

  -- `ProcessConnect`
  unfoldable pub process_connect : IocpSession → IocpSession
  process_connect s =
      register_recv (virtual_call connected (logged added (record s { is_connected = true })))

  -- `ProcessDisconnect`
  unfoldable pub process_disconnect : IocpSession → IocpSession
  process_disconnect s = logged released (virtual_call disconnected s)

  -- The calls of `OnRecvPacket` in `OnRecv`.
  unfoldable pub deliver_packets : List (List ℕ) → IocpSession → IocpSession
  deliver_packets [] s = s
  deliver_packets (p ∷ packets) s = deliver_packets packets (virtual_call (recv_packet p) s)

  -- `HandleError(...); Disconnect();`
  unfoldable pub fail : IocpSession → IocpSession
  fail s = disconnect (logged error s)

  -- The end of `ProcessRecv`, when `OnRecv` has returned `process_len`.
  unfoldable pub finish_recv : ℕ → ℕ → IocpSession → Outcome IocpSession
  finish_recv data_size process_len s =
      let (read, ring) = on_read_buffer s.recv_buffer process_len in
      let adjusted =
        adjust_pos ring >>= λ ring'. ok (register_recv (record s { recv_buffer = ring' })) in
      if ltb data_size process_len || not read then ok (fail s) else adjusted

  -- `ProcessRecv`
  unfoldable pub process_recv : ℕ → ℕ → IocpSession → Outcome IocpSession
  process_recv fuel bytes_transferred s =
      let (fits, ring) = on_write_buffer s.recv_buffer bytes_transferred in
      let parsed =
        iocp_on_recv fuel (drop ring.tail_pos ring.buffer) ring.size >>= λ (packets, process_len).
        finish_recv ring.size process_len
          (deliver_packets packets (record s { recv_buffer = ring })) in
      if bytes_transferred == 0 then ok (fail s) else (if not fits then ok (fail s) else parsed)

  -- `ProcessSend` up to the check of the queue.
  unfoldable pub complete : ℕ → IocpSession → Bool × IocpSession
  complete bytes_transferred s =
      let cleared = record s { send_event = [] } in
      if bytes_transferred == 0
      then (false, fail cleared)
      else check_queue (virtual_call (sent_done bytes_transferred) cleared)

  -- `ProcessSend`
  unfoldable pub process_send : ℕ → IocpSession → IocpSession
  process_send bytes_transferred s =
      let (again, s') = complete bytes_transferred s in if again then register_send s' else s'

  -- `Dispatch`
  unfoldable pub dispatch : ℕ → IoType → ℕ → IocpSession → Outcome IocpSession
  dispatch fuel io_accept bytes_transferred s = ok (logged error s)
  dispatch fuel io_connect bytes_transferred s = ok (process_connect s)
  dispatch fuel io_disconnect bytes_transferred s = ok (process_disconnect s)
  dispatch fuel io_recv bytes_transferred s = process_recv fuel bytes_transferred s
  dispatch fuel io_send bytes_transferred s = ok (process_send bytes_transferred s)
