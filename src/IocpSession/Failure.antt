-- ===== src/IocpSession/Failure.antt =====
-- `Send` of IocpSession.cpp when `WSASend` fails.
use rio_iocp_server.Prelude.{ℕ, true, false, List, [], ◌∷◌, ◌++◌, ◌≡◌, refl, ap, not}
use rio_iocp_server.IocpSession.{
  IocpSession, IocpWorld, wsa_send, error, logged, enqueue, gather, post, register_send, send,
}

failed_post :
    (world : IocpWorld) (s : IocpSession)
    → world.starts_send s ≡ false
    → post world s
      ≡ logged error (record (logged (wsa_send s.send_event false) s) {
        send_event = [];
        send_registered = false;
      })
unfolding post
failed_post world s fails = rw (fails) refl

-- `Send` of a connected session on which no send is registered, when `WSASend` fails: the buffer, and
-- all that was queued before it, is in neither the queue nor the event, no send is registered, and
-- the session is still connected, so that the next `Send` goes out behind a gap.
pub send-drops :
    (world : IocpWorld) (net_buffer : List ℕ) (s : IocpSession)
    → s.is_connected ≡ true
    → s.send_registered ≡ false
    → ((t : IocpSession) → world.starts_send t ≡ false)
    → ((send world net_buffer s).send_buffer_queue ≡ [])
      × ((send world net_buffer s).send_event ≡ [])
      × ((send world net_buffer s).send_registered ≡ false)
      × ((send world net_buffer s).is_connected ≡ true)
unfolding send register_send enqueue gather
send-drops world net_buffer s up idle fails =
    rw
      (
        ap not up,
        ap not idle,
        failed_post world
            (record s {
              send_event = s.send_event ++ (s.send_buffer_queue ++ net_buffer ∷ []);
              send_buffer_queue = [];
              send_registered = true;
            })
            (fails _),
      )
      (refl, refl, refl, up)
