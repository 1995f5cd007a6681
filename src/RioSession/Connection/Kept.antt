-- ===== src/RioSession/Connection/Kept.antt =====
-- What `Disconnect` and `RegisterRecv` of RioSession.cpp keep: any relation between sessions that
-- the calls they make keep.
use rio_iocp_server.Prelude.{ℕ, Bool, true, false, if◌then◌else◌, not}
use rio_iocp_server.RingBuffer.{get_chunk_write_size, get_write_offset}
use rio_iocp_server.RioSession.Defs.{
  RioSession, World, Call, recv_packet, send_request, close_socket, disconnected, released, receive,
  error, logged, virtual_call,
}
use rio_iocp_server.RioSession.Connection.{disconnect, fail, register_recv}

-- A call that neither delivers a packet nor asks for a send.
abbrev pub IsQuiet : Call → Type 0
IsQuiet (recv_packet p) = ⊥
IsQuiet (send_request bytes answer) = ⊥
IsQuiet _ = Unit {0}

pub record Kept (world : World) (R : RioSession → RioSession → Type 0) : Type 0 where
  pub self : (s : RioSession) → R s s
  pub trans : (s t u : RioSession) → R s t → R t u → R s u
  pub quiet : (c : Call) (s : RioSession) → IsQuiet c → R s (logged c s)
  pub called : (c : Call) (s : RioSession) → R s (world.on_call c s)
  pub down : (s : RioSession) → R s (record s { is_connected = false })

module _ (world : World) (R : RioSession → RioSession → Type 0) (kept : Kept world R) where
  if_Kept : (b : Bool) (s x y : RioSession) → R s x → R s y → R s (if b then x else y)
  if_Kept true s x y p q = p
  if_Kept false s x y p q = q

  virtual_call_Kept : (c : Call) (s : RioSession) → IsQuiet c → R s (virtual_call world c s)
  virtual_call_Kept c s h = kept.trans _ _ _ (kept.quiet c s h) (kept.called c (logged c s))

  pub disconnect_Kept : (s : RioSession) → R s (disconnect world s)
  unfolding disconnect
  disconnect_Kept s =
      let s' = record s { is_connected = false } in
      let t = logged close_socket s' in
      if_Kept (not s.is_connected) s s _ (kept.self s) (
        if_Kept (world.set_linger s') s _ _
          (kept.trans _ _ _ (kept.down s) (
            kept.trans _ _ _ (kept.quiet close_socket s' tt) (
              kept.trans _ _ _ (virtual_call_Kept disconnected t tt)
                (kept.quiet released (virtual_call world disconnected t) tt))))
          (kept.trans _ _ _ (kept.down s) (kept.quiet error s' tt)))

  pub fail_Kept : (s : RioSession) → R s (fail world s)
  unfolding fail
  fail_Kept s = kept.trans _ _ _ (kept.quiet error s tt) (disconnect_Kept (logged error s))

  pub register_recv_Kept : (s : RioSession) → R s (register_recv world s)
  unfolding register_recv
  register_recv_Kept s =
      let offset : ℕ = get_write_offset s.recv_buffer.ring in
      let len : ℕ = get_chunk_write_size s.recv_buffer.ring in
      let posted = kept.quiet (receive offset len) s tt in
      if_Kept (not s.is_connected) s s _ (kept.self s) (
        if_Kept (world.rio_receive s offset len) s _ _ posted
          (kept.trans _ _ _ posted (fail_Kept (logged (receive offset len) s))))
