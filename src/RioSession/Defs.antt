-- ===== src/RioSession/Defs.antt =====
-- The state of a RioSession (ServerCore/Network/RioSession.h), and the world that it calls.
use rio_iocp_server.Prelude.{ℕ, Bool, List, [], ◌∷◌, ◌++◌}
use rio_iocp_server.RioBuffer.{RioBuffer}

-- How `RIOSend` answers: the request is queued, or it fails with `WSAENOBUFS` or another error.
pub data SendAnswer : Type 0 where
  queued no_buffers failed : SendAnswer

-- What a session calls. A send request is given with the bytes that it names.
pub data Call : Type 0 where
  connected close_socket disconnected released : Call
  recv_packet : List ℕ → Call
  sent_done : ℕ → Call
  receive : ℕ → ℕ → Call
  send_request : List ℕ → SendAnswer → Call
  commit : Call
  error : Call

-- The members that the session's logic reads and writes. A NetBuffer in the send queue is the bytes
-- that it holds.
pub record RioSession : Type 0 where
  pub is_connected : Bool
  pub is_allocated : Bool
  pub recv_buffer : RioBuffer
  pub send_buffer : RioBuffer
  pub send_queue : List (List ℕ)
  pub send_cnt : ℕ
  pub last_send_time : ℕ
  pub log : List Call

-- `Winsock`: the answers of the calls, which may depend on all that the session did before.
-- `on_call`: what the body of a virtual method (`OnConnected`, `OnRecvPacket`, `OnSend`,
-- `OnDisconnected`) does to the session. `now`: the clock, in milliseconds.
pub record World : Type 0 where
  pub set_linger : RioSession → Bool
  pub rio_receive : RioSession → ℕ → ℕ → Bool
  pub rio_send : RioSession → ℕ → ℕ → SendAnswer
  pub rio_commit : RioSession → Bool
  pub register_buffer : ℕ → Bool
  pub create_request_queue : Bool
  pub on_call : Call → RioSession → RioSession
  pub now : RioSession → ℕ

abbrev pub logged : Call → RioSession → RioSession
logged c s = record s { log = s.log ++ c ∷ [] }

-- A call of a virtual method.
abbrev pub virtual_call : World → Call → RioSession → RioSession
virtual_call world c s = world.on_call c (logged c s)

-- The bytes of the requests that `RIOSend` queued, in order.
unfoldable pub queued_bytes : List Call → List ℕ
queued_bytes [] = []
queued_bytes (send_request bytes queued ∷ log) = bytes ++ queued_bytes log
queued_bytes (c ∷ log) = queued_bytes log

-- The packets given to `OnRecvPacket`, in order.
unfoldable pub packets_of : List Call → List (List ℕ)
packets_of [] = []
packets_of (recv_packet p ∷ log) = p ∷ packets_of log
packets_of (c ∷ log) = packets_of log
