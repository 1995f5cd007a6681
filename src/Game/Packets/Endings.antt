-- ===== src/Game/Packets/Endings.antt =====
-- PacketHandler.h and RioServerSession.cpp: what a session does with the packets behind a logout.
use rio_iocp_server.Prelude.{
  ℕ, true, false, Option, none, some, ◌∷◌, [], ◌++◌, ◌≡◌, refl, ap, ◌∙◌, if_lem, if_true, if_false,
  not, Outcome, ub, ◌>>=◌, deref,
}
use rio_iocp_server.Game.Defs.{Game, ServerSession, logout_job, set_session, is_valid_player}
use rio_iocp_server.Game.Room.Sectors.{at_self}
use rio_iocp_server.Game.Packets.{
  Outside, MovePacket, is_id, leave_room, on_disconnected, disconnect, handle_move, handle_logout,
}

leave_room-sessions : (o : Option ℕ) (g : Game) → (leave_room o g).sessions ≡ g.sessions
unfolding leave_room
leave_room-sessions none g = refl
leave_room-sessions (some id) g =
    if_lem (λ (g' : Game). g'.sessions ≡ g.sessions) (is_valid_player (g.players id)) _ g
      (λ e. refl) (λ e. refl)

-- A session that has no player, and the id that it had.
unfoldable HasLeft : ℕ → ℕ → Game → Type 0
HasLeft h id g = ((g.sessions h).own_player ≡ none) × ((g.sessions h).session_id ≡ id)

on_disconnected-HasLeft :
    (h : ℕ) (g : Game) → HasLeft h (g.sessions h).session_id (on_disconnected h g)
unfolding on_disconnected HasLeft
on_disconnected-HasLeft h g =
    let left = leave_room (g.sessions h).own_player g in
    (
      ap (λ (s : ServerSession). s.own_player) (at_self h _ left.sessions),
      ap (λ (s : ServerSession). s.session_id) (at_self h _ left.sessions)
          ∙ ap (λ (f : ℕ → ServerSession). (f h).session_id)
              (leave_room-sessions (g.sessions h).own_player g),
    )

null : {A B : Type 0} (o : Option A) (f : A → Outcome B) → o ≡ none → (deref o >>= f) ≡ ub
null o f e = ap (λ p. deref p >>= f) e

move-HasLeft :
    (outside : Outside) (h id : ℕ) (pkt : MovePacket) (g : Game)
    → is_id pkt.session_id id ≡ true
    → HasLeft h id g
    → handle_move outside h pkt g ≡ ub
unfolding handle_move HasLeft
move-HasLeft outside h id pkt g same (gone, kept) =
    if_false (not (is_id pkt.session_id (g.sessions h).session_id)) _ _
      (ap not (ap (is_id pkt.session_id) kept ∙ same))
    ∙ null (g.sessions h).own_player _ gone

-- On a session that is open, when `SetLinger` succeeds: `Handle_LOGOUT`, and then `Handle_C2S_MOVE` for a
-- packet with the id that the session has, use a null pointer, whatever else the game and the packet are.
pub handle_logout-handle_move :
    (outside : Outside) (h : ℕ) (pkt : MovePacket) (g : Game)
    → (g.sessions h).is_connected ≡ true
    → ((x : Game) → outside.set_linger x ≡ true)
    → is_id pkt.session_id (g.sessions h).session_id ≡ true
    → (handle_logout outside h g >>= λ (handled, g'). handle_move outside h pkt g') ≡ ub
unfolding handle_logout disconnect
handle_logout-handle_move outside h pkt g up linger same =
    let queued = record g {
      room_jobs = g.room_jobs ++ logout_job (g.sessions h).own_player ∷ [];
    } in
    let down = set_session h (record (g.sessions h) { is_connected = false }) queued in
    ap (handle_move outside h pkt) (
      if_false (not (g.sessions h).is_connected) _ _ (ap not up)
      ∙ if_true (outside.set_linger down) _ _ (linger down))
    ∙ move-HasLeft outside h (down.sessions h).session_id pkt (on_disconnected h down)
        (ap (λ (s : ServerSession). is_id pkt.session_id s.session_id) (at_self h _ g.sessions)
          ∙ same)
        (on_disconnected-HasLeft h down)
