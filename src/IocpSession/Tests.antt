-- ===== src/IocpSession/Tests.antt =====
-- Runs of an IOCP session (ServerCore/Network/IocpSession.cpp), and its theorems at concrete sessions.
use rio_iocp_server.Prelude.{◌≤◌, ◌≡◌, refl, inl, true, false, [], ◌∷◌, ◌++◌, arith, ok, flatten}
use rio_iocp_server.RingBuffer.{get_chunk_write_size}
use rio_iocp_server.RingBuffer.Contents.{contents}
use rio_iocp_server.Packet.Framing.{Framed}
use rio_iocp_server.RioSession.Receive.Stream.{IsReady}
use rio_iocp_server.IocpSession.Receive.{KeepsReceiving, arrive, packets_of, process_recv-delivers}
use rio_iocp_server.IocpSession.{
  IocpSession, IocpWorld, wsa_send, sent_done, enqueue, gather, post, complete, check_queue,
  process_recv,
}
use rio_iocp_server.IocpSession.Threads.{
  Threads, Runs, KeepsSends, Exclusive, offered, start, sends, gathers, posts, completes,
}
use rio_iocp_server.IocpSession.Exclusive.{runs_lem}

abbrev plain : IocpWorld
plain = record {
  is_client = false;
  set_reuse_addr = λ s. true;
  bind_addr_any = λ s. true;
  starts_connect = λ s. true;
  starts_disconnect = λ s. true;
  starts_recv = λ s. true;
  starts_send = λ s. true;
  on_call = λ c s. s;
}

plain-KeepsSends : KeepsSends plain
plain-KeepsSends = record {
  keeps_queue = λ c s. refl;
  keeps_event = λ c s. refl;
  keeps_registered = λ c s. refl;
  keeps_offered = λ c s. refl;
}

abbrev fresh : IocpSession
fresh = record {
  is_connected = true;
  recv_buffer = record {
    capacity = 4;
    size = 0;
    buffer = 0 ∷ 0 ∷ 0 ∷ 0 ∷ [];
    head_pos = 0;
    tail_pos = 0;
  };
  send_buffer_queue = [];
  send_event = [];
  send_registered = false;
  log = [];
}

abbrev idle : Threads
idle = record { session = fresh; registering = 0; posting = 0; pending = 0 }

idle-Exclusive : Exclusive [] idle
unfolding offered
idle-Exclusive = record { one = omega arith; free = λ h. refl; clean = λ h. refl; order = refl }

-- The first buffer is offered, the second comes while its request is pending, the request completes.
abbrev after_two : Threads
after_two = record {
  session = record fresh {
    send_buffer_queue = (3 ∷ []) ∷ [];
    send_registered = true;
    log = wsa_send ((1 ∷ 2 ∷ []) ∷ []) true ∷ sent_done 2 ∷ [];
  };
  registering = 1;
  posting = 0;
  pending = 0;
}

two-Runs : Runs plain idle ((1 ∷ 2 ∷ []) ∷ (3 ∷ []) ∷ []) after_two
unfolding enqueue gather post complete check_queue
two-Runs =
    completes 2 0 (sends (3 ∷ []) (posts 0 (gathers 0 (sends (1 ∷ 2 ∷ []) start) refl) refl)) refl

runs_lem_example : Exclusive ((1 ∷ 2 ∷ []) ∷ (3 ∷ []) ∷ []) after_two
runs_lem_example =
    runs_lem plain plain-KeepsSends idle ((1 ∷ 2 ∷ []) ∷ (3 ∷ []) ∷ []) after_two idle-Exclusive
      two-Runs

abbrev broken : IocpWorld
broken = record plain { starts_send = λ s. false }

abbrev wide : IocpSession
wide = record fresh {
  recv_buffer = record {
    capacity = 12;
    size = 0;
    buffer = 0 ∷ 0 ∷ 0 ∷ 0 ∷ 0 ∷ 0 ∷ 0 ∷ 0 ∷ 0 ∷ 0 ∷ 0 ∷ 0 ∷ [];
    head_pos = 0;
    tail_pos = 0;
  };
}

wide-IsReady : IsReady wide.recv_buffer
wide-IsReady = record {
  valid = omega arith;
  straight = record { ordered = omega arith; piece = refl };
  room = omega arith;
}

two_parts-Framed : Framed (4 ∷ 0 ∷ 9 ∷ 0 ∷ 4 ∷ 0 ∷ []) ((4 ∷ 0 ∷ 9 ∷ 0 ∷ []) ∷ []) (4 ∷ 0 ∷ [])
unfolding flatten
two_parts-Framed = record {
  parts = refl;
  packets_whole = (omega arith, tt);
  rest_partial = inl (omega arith);
}

plain-KeepsReceiving : KeepsReceiving plain
plain-KeepsReceiving = record { keeps_buffer = λ c s. refl; keeps_packets = λ c s. refl }

six_fit : 6 ≤ get_chunk_write_size wide.recv_buffer
unfolding get_chunk_write_size
six_fit = omega arith

process_recv-delivers_example :
    (s' : IocpSession) × (process_recv plain 13 6 (arrive (4 ∷ 0 ∷ 9 ∷ 0 ∷ 4 ∷ 0 ∷ []) wide)
      ≡ ok s')
    × IsReady s'.recv_buffer
    × (contents s'.recv_buffer ≡ 4 ∷ 0 ∷ [])
    × (s'.recv_buffer.capacity ≡ 12)
    × (packets_of s'.log ≡ packets_of [] ++ (4 ∷ 0 ∷ 9 ∷ 0 ∷ []) ∷ [])
process_recv-delivers_example =
    process_recv-delivers plain plain-KeepsReceiving 13 wide (4 ∷ 0 ∷ 9 ∷ 0 ∷ 4 ∷ 0 ∷ [])
      ((4 ∷ 0 ∷ 9 ∷ 0 ∷ []) ∷ []) (4 ∷ 0 ∷ []) wide-IsReady (omega arith) six_fit two_parts-Framed
      (omega arith) (omega arith)
