-- ===== src/RioSession/Tests.antt =====
-- Runs of a RIO session (ServerCore/Network/RioSession.cpp), and its theorems at concrete sessions.
use rio_iocp_server.Prelude.{
  ℕ, ◌≤◌, ◌≡◌, refl, inl, Bool, true, false, List, [], ◌∷◌, ◌++◌, arith, flatten, blit, ok,
}
use rio_iocp_server.RingBuffer.{
  get_chunk_write_size, on_write_buffer, on_read_buffer, adjust_pos, write_buffer, write_loop,
  write_chunk,
}
use rio_iocp_server.RingBuffer.Contents.{contents}
use rio_iocp_server.RioBuffer.{RioBuffer, get_chunk_send_size, get_send_data_size, on_send_buffer}
use rio_iocp_server.RioBuffer.Unsent.{IsSending}
use rio_iocp_server.Packet.{rio_on_recv, rio_loop, read_header}
use rio_iocp_server.Packet.Framing.{Framed}
use rio_iocp_server.RioSession.Defs.{
  RioSession, World, queued, recv_packet, receive, packets_of, queued_bytes, send_request, commit,
}
use rio_iocp_server.RioSession.Connection.{register_recv, send}
use rio_iocp_server.RioSession.Receive.{
  arrive, process_recv, finish_recv, deliver_packets, process_send,
}
use rio_iocp_server.RioSession.Receive.Stream.{IsReady}
use rio_iocp_server.RioSession.Receive.Delivery.{KeepsReceiving, process_recv_lem}
use rio_iocp_server.RioSession.Receive.History.{Receives, nothing, next, receives_lem}
use rio_iocp_server.RioSession.Send.{
  answered, register_send, send_commit, send_chunk, drain, drain_some, take_queue, finish_send,
  send_deferred,
}
use rio_iocp_server.RioSession.Send.Order.{KeepsSending, IsPending}
use rio_iocp_server.RioSession.Send.Deferred.{send_deferred_lem}
use rio_iocp_server.RioSession.Send.History.{Sends, start, asked, deferred, done, sends_lem}
use rio_iocp_server.RioSession.Send.Stuck.{send_deferred-stuck}

-- Calls that all succeed, with virtual methods that do nothing to the session.
abbrev plain : World
plain = record {
  set_linger = λ s. true;
  rio_receive = λ s offset len. true;
  rio_send = λ s len offset. queued;
  rio_commit = λ s. true;
  register_buffer = λ i. true;
  create_request_queue = true;
  on_call = λ c s. s;
  now = λ s. 1000;
}

abbrev empty_buffer : RioBuffer
empty_buffer = record {
  ring = record {
    capacity = 12;
    size = 0;
    buffer = 0 ∷ 0 ∷ 0 ∷ 0 ∷ 0 ∷ 0 ∷ 0 ∷ 0 ∷ 0 ∷ 0 ∷ 0 ∷ 0 ∷ [];
    head_pos = 0;
    tail_pos = 0;
  };
  send_pos = 0;
}

abbrev fresh : RioSession
fresh = record {
  is_connected = true;
  is_allocated = true;
  recv_buffer = empty_buffer;
  send_buffer = empty_buffer;
  send_queue = [];
  send_cnt = 0;
  last_send_time = 0;
  log = [];
}

fresh-IsReady : IsReady fresh.recv_buffer.ring
fresh-IsReady = record {
  valid = omega arith;
  straight = record { ordered = omega arith; piece = refl };
  room = omega arith;
}

abbrev stream_packet : List ℕ
stream_packet = 4 ∷ 0 ∷ 9 ∷ 0 ∷ []

abbrev halfway : RioSession
halfway = record fresh {
  recv_buffer = record empty_buffer {
    ring = record {
      capacity = 12;
      size = 3;
      buffer = 4 ∷ 0 ∷ 9 ∷ 0 ∷ 0 ∷ 0 ∷ 0 ∷ 0 ∷ 0 ∷ 0 ∷ 0 ∷ 0 ∷ [];
      head_pos = 3;
      tail_pos = 0;
    };
  };
  log = receive 3 9 ∷ [];
}

abbrev done_receiving : RioSession
done_receiving = record fresh {
  recv_buffer = record empty_buffer {
    ring = record {
      capacity = 12;
      size = 2;
      buffer = 4 ∷ 0 ∷ 9 ∷ 0 ∷ 4 ∷ 0 ∷ 0 ∷ 0 ∷ 0 ∷ 0 ∷ 0 ∷ 0 ∷ [];
      head_pos = 6;
      tail_pos = 4;
    };
  };
  log = receive 3 9 ∷ recv_packet stream_packet ∷ receive 6 6 ∷ [];
}

-- A packet of four bytes comes in two pieces, the second with the start of another packet.
two-Receives : Receives plain 13 fresh ((4 ∷ 0 ∷ 9 ∷ []) ∷ (0 ∷ 4 ∷ 0 ∷ []) ∷ []) done_receiving
unfolding get_chunk_write_size process_recv on_write_buffer rio_on_recv rio_loop read_header
    finish_recv on_read_buffer adjust_pos register_recv deliver_packets blit
two-Receives = next (omega arith) (omega arith) refl (next (omega arith) (omega arith) refl nothing)

plain-KeepsReceiving : KeepsReceiving plain
plain-KeepsReceiving = record { keeps_buffer = λ c s. refl; keeps_packets = λ c s. refl }

stream-Framed : Framed (4 ∷ 0 ∷ 9 ∷ 0 ∷ 4 ∷ 0 ∷ []) (stream_packet ∷ []) (4 ∷ 0 ∷ [])
unfolding flatten
stream-Framed = record {
  parts = refl;
  packets_whole = (record { whole = omega arith; sized = refl }, tt);
  rest_partial = inl (omega arith);
}

receives_lem_example :
    (packets_of done_receiving.log ≡ packets_of fresh.log ++ stream_packet ∷ [])
    × (contents done_receiving.recv_buffer.ring ≡ 4 ∷ 0 ∷ [])
    × IsReady done_receiving.recv_buffer.ring
unfolding flatten
receives_lem_example =
    receives_lem plain plain-KeepsReceiving 13 (stream_packet ∷ []) (4 ∷ 0 ∷ []) two-Receives
      fresh-IsReady (inl (omega arith)) stream-Framed (omega arith, tt) (omega arith) (omega arith)

six_fit : 6 ≤ get_chunk_write_size fresh.recv_buffer.ring
unfolding get_chunk_write_size
six_fit = omega arith

process_recv_lem_example :
    (s' : RioSession) × (process_recv plain 13 6 (arrive (4 ∷ 0 ∷ 9 ∷ 0 ∷ 4 ∷ 0 ∷ []) fresh)
      ≡ ok s')
    × IsReady s'.recv_buffer.ring
    × (contents s'.recv_buffer.ring ≡ 4 ∷ 0 ∷ [])
    × (s'.recv_buffer.ring.capacity ≡ 12)
    × (packets_of s'.log ≡ packets_of [] ++ stream_packet ∷ [])
process_recv_lem_example =
    process_recv_lem plain plain-KeepsReceiving 13 fresh (4 ∷ 0 ∷ 9 ∷ 0 ∷ 4 ∷ 0 ∷ [])
      (stream_packet ∷ []) (4 ∷ 0 ∷ []) fresh-IsReady (omega arith) (six_fit) stream-Framed
      (omega arith) (omega arith)

plain-KeepsSending : KeepsSending plain
plain-KeepsSending = record {
  keeps_buffer = λ c s. refl;
  keeps_queue = λ c s. refl;
  keeps_queued = λ c s. refl;
}

-- Two buffers wait.
abbrev asked_twice : RioSession
asked_twice = record fresh { send_queue = (1 ∷ 2 ∷ []) ∷ (3 ∷ []) ∷ [] }

fresh-IsSending : IsSending empty_buffer 0
fresh-IsSending = record { valid = omega arith; send_at = refl; held = omega arith }

asked_twice-IsPending : IsPending (1 ∷ 2 ∷ 3 ∷ []) 0 asked_twice 0
unfolding flatten queued_bytes
asked_twice-IsPending = record { sending = fresh-IsSending; all_bytes = refl; balance = refl }

fresh-IsPending : IsPending [] 0 fresh 0
unfolding flatten queued_bytes
fresh-IsPending = record { sending = fresh-IsSending; all_bytes = refl; balance = refl }

send_deferred_lem_example :
    (result : Bool) × (s' : RioSession) × (sent' : ℕ) × (send_deferred plain 13 asked_twice
      ≡ ok (result, s'))
    × IsPending (1 ∷ 2 ∷ 3 ∷ []) 0 s' sent'
unfolding flatten
send_deferred_lem_example =
    send_deferred_lem plain plain-KeepsSending 13 (1 ∷ 2 ∷ 3 ∷ []) 0 asked_twice 0
      asked_twice-IsPending (omega arith) (omega arith) (omega arith)

-- The session when both buffers are handed over and committed.
abbrev handed : RioSession
handed = record fresh {
  send_buffer = record {
    ring = record {
      capacity = 12;
      size = 3;
      buffer = 1 ∷ 2 ∷ 3 ∷ 0 ∷ 0 ∷ 0 ∷ 0 ∷ 0 ∷ 0 ∷ 0 ∷ 0 ∷ 0 ∷ [];
      head_pos = 3;
      tail_pos = 0;
    };
    send_pos = 3;
  };
  last_send_time = 1000;
  log = send_request (1 ∷ 2 ∷ 3 ∷ []) queued ∷ commit ∷ [];
}

Sends-twice : Sends plain fresh ((1 ∷ 2 ∷ []) ∷ (3 ∷ []) ∷ []) 2 (process_send plain 2 handed)
unfolding send flatten queued_bytes send_deferred take_queue drain drain_some send_chunk
    register_send answered finish_send send_commit write_buffer write_loop write_chunk
    get_chunk_write_size get_chunk_send_size get_send_data_size on_send_buffer blit
Sends-twice =
    done 2
      (deferred 13 true handed (asked (3 ∷ []) (asked (1 ∷ 2 ∷ []) start refl) refl) (omega arith)
        (omega arith) (omega arith) refl)
      (omega arith) (omega arith)

sends_lem_example :
    (sent : ℕ) × IsPending
      (flatten ((1 ∷ 2 ∷ []) ∷ (3 ∷ []) ∷ []))
      2
      (process_send plain 2 handed)
      sent
sends_lem_example =
    sends_lem plain plain-KeepsSending fresh ((1 ∷ 2 ∷ []) ∷ (3 ∷ []) ∷ []) 2
      (process_send plain 2 handed) fresh-IsPending Sends-twice

-- Two cells, both with a byte that is not handed over, and another byte that waits.
abbrev stuck : RioSession
stuck = record fresh {
  send_buffer = record {
    ring = record { capacity = 2; size = 2; buffer = 3 ∷ 4 ∷ []; head_pos = 1; tail_pos = 1 };
    send_pos = 1;
  };
  send_queue = (5 ∷ []) ∷ [];
}

send_deferred-stuck_example :
    send_deferred plain 3 stuck ≡ ok (true, record stuck { last_send_time = 1000 })
send_deferred-stuck_example =
    send_deferred-stuck plain 3 stuck (5 ∷ []) []
      (record { valid = omega arith; send_at = refl; held = omega arith }) refl refl (omega arith)
      (omega arith) refl refl refl

-- `SetLinger` fails.
abbrev lingering : World
lingering = record plain { set_linger = λ s. false }
