-- ===== src/RioSession/Connection/Closed.antt =====
-- `Disconnect` of RioSession.cpp, called once and again.
use rio_iocp_server.Prelude.{true, false, not, ◌≡◌, refl, ap, ◌∙◌}
use rio_iocp_server.RioSession.Defs.{
  RioSession, World, close_socket, disconnected, released, error, logged, virtual_call,
}
use rio_iocp_server.RioSession.Connection.{disconnect}

-- What `Disconnect` does when `SetLinger` succeeds.
abbrev pub closed : World → RioSession → RioSession
closed world s =
    logged released
      (virtual_call world disconnected (logged close_socket (record s { is_connected = false })))

down_is_kept : (world : World) (s : RioSession) → s.is_connected ≡ false → disconnect world s ≡ s
unfolding disconnect
down_is_kept world s down = rw (ap not down) refl

up_closes :
    (world : World) (s : RioSession)
    → s.is_connected ≡ true
    → world.set_linger (record s { is_connected = false }) ≡ true
    → disconnect world s ≡ closed world s
unfolding disconnect
up_closes world s up lingers = rw (ap not up, lingers) refl

up_fails :
    (world : World) (s : RioSession)
    → s.is_connected ≡ true
    → world.set_linger (record s { is_connected = false }) ≡ false
    → disconnect world s ≡ logged error (record s { is_connected = false })
unfolding disconnect
up_fails world s up refused = rw (ap not up, refused) refl

-- When `OnDisconnected` does not connect the session again and `SetLinger` succeeds: `Disconnect` of a
-- connected session closes the socket, calls `OnDisconnected` and releases the session, in this order,
-- and a second `Disconnect` does nothing.
pub disconnect-once :
    (world : World) (s : RioSession)
    → ((t : RioSession)
        → t.is_connected ≡ false
        → (world.on_call disconnected t).is_connected ≡ false)
    → s.is_connected ≡ true
    → world.set_linger (record s { is_connected = false }) ≡ true
    → (disconnect world s ≡ closed world s)
      × (disconnect world (disconnect world s) ≡ closed world s)
disconnect-once world s stays up lingers = (
  up_closes world s up lingers,
  ap (disconnect world) (up_closes world s up lingers)
      ∙ down_is_kept world (closed world s) (stays _ refl),
)

-- When `SetLinger` fails, `Disconnect` of a connected session only marks it as not connected and
-- reports the error, and a second call does nothing: the socket is not closed, `OnDisconnected` is
-- not called and the session is not released.
pub disconnect-leaks :
    (world : World) (s : RioSession)
    → s.is_connected ≡ true
    → world.set_linger (record s { is_connected = false }) ≡ false
    → (disconnect world s ≡ logged error (record s { is_connected = false }))
      × (disconnect world (disconnect world s) ≡ logged error (record s { is_connected = false }))
disconnect-leaks world s up refused = (
  up_fails world s up refused,
  ap (disconnect world) (up_fails world s up refused)
      ∙ down_is_kept world (logged error (record s { is_connected = false })) refl,
)
