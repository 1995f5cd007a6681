-- ===== src/IocpSession/Exclusive.antt =====
-- The send path of IocpSession.cpp, run by any number of threads.
use rio_iocp_server.Prelude.{ℕ, List, []}
use rio_iocp_server.IocpSession.{IocpWorld}
use rio_iocp_server.IocpSession.Threads.{
  Threads, Runs, KeepsSends, Exclusive, start, sends, gathers, posts, completes, goes_down,
}
use rio_iocp_server.IocpSession.Steps.{sends_lem, gathers_lem, posts_lem, goes_down_lem}
use rio_iocp_server.IocpSession.Completion.{completes_lem}

-- From a session with an empty send queue on which no send is registered, whatever the threads that
-- call `Send`, `RegisterSend` and `ProcessSend` do and in whatever order, sends that fail and
-- `Disconnect` included, when the virtual methods leave the send path alone: at most one of them is
-- inside `RegisterSend` or waits for its request, so that the one send event is never shared; none
-- is when no send is registered; the event is empty between two requests; and the buffers that
-- `WSASend` was offered, those gathered for the next call and those queued are the ones given to
-- `Send`, each once and in order.
pub runs_lem :
    (world : IocpWorld)
    → KeepsSends world
    → (t : Threads) (buffers : List (List ℕ)) (t' : Threads) → Exclusive [] t
    → Runs world t buffers t'
    → Exclusive buffers t'
runs_lem world keeps t _ _ fresh start = fresh
runs_lem world keeps t _ _ fresh (sends net_buffer {buffers} {t'} before) =
    sends_lem net_buffer buffers t' (runs_lem world keeps t buffers t' fresh before)
runs_lem world keeps t buffers _ fresh (gathers {t' = t'} k before is_one) =
    gathers_lem buffers t' k is_one (runs_lem world keeps t buffers t' fresh before)
runs_lem world keeps t buffers _ fresh (posts {t' = t'} k before is_one) =
    posts_lem world buffers t' k is_one (runs_lem world keeps t buffers t' fresh before)
runs_lem world keeps t buffers _ fresh (completes {t' = t'} n k before is_one) =
    completes_lem world keeps buffers t' n k is_one (runs_lem world keeps t buffers t' fresh before)
runs_lem world keeps t buffers _ fresh (goes_down {t' = t'} before) =
    goes_down_lem world buffers t' (runs_lem world keeps t buffers t' fresh before)
