-- ===== src/Game/Steps/Rooms.antt =====
-- PacketHandler.h, RioServerSession.cpp, Room.cpp and Zone.cpp together: whatever clients send, every
-- player stays in the set of the one sector that it has noted.
use rio_iocp_server.Prelude.{ℕ, true, [], ◌≡◌, has, arith, IfOk_ok}
use rio_iocp_server.Game.Defs.{Game, Player, ServerSession}
use rio_iocp_server.Game.Room.Placed.{Placed}
use rio_iocp_server.Game.Room.Kept.{set_session-Kept, Kept-Placed}
use rio_iocp_server.Game.Packets.{Outside, handle_packet}
use rio_iocp_server.Game.Steps.{
  Step, Reaches, receives, works_for_room, works_for_zone, connects, disconnects, destroys, begins,
  goes_on, new_game,
}
use rio_iocp_server.Game.Steps.Jobs.{other_jobs, other_zone_jobs, execute_job-Placed}
use rio_iocp_server.Game.Steps.Handlers.{disconnect-Kept, destroy-Kept, handle_packet-Placed}

module _ (outside : Outside) where
  Step-Placed : (g g' : Game) → Step outside g g' → Placed g → Placed g'
  Step-Placed g g' (receives h buffer len handled e) p =
      IfOk_ok (λ r. Placed r.1) (handle_packet outside h buffer len g) (handled, g')
        (handle_packet-Placed outside h buffer len g p) e
  Step-Placed g g' (works_for_room job jobs _ e) p =
      IfOk_ok Placed _ g' (execute_job-Placed outside job _ (Kept-Placed (other_jobs jobs g) p)) e
  Step-Placed g g' (works_for_zone y x job jobs _ e) p =
      IfOk_ok Placed _ g'
        (execute_job-Placed outside job _ (Kept-Placed (other_zone_jobs (y, x) jobs g) p)) e
  Step-Placed g _ (connects h) p = Kept-Placed (set_session-Kept h _ g) p
  Step-Placed g _ (disconnects h) p = Kept-Placed (disconnect-Kept outside h g) p
  Step-Placed g _ (destroys h) p = Kept-Placed (destroy-Kept outside h g) p

  nobody : (i : ℕ) → ¬ (has i [] ≡ true)
  unfolding has
  nobody i h = ground (arith, h)

  new_game-Placed :
      (players : ℕ → Player) (sessions : ℕ → ServerSession) → Placed (new_game players sessions)
  unfolding new_game
  new_game-Placed players sessions = record {
    noted = λ y x i h. absurd (nobody i h);
    entered = λ y x i h. absurd (nobody i h);
    listed = λ i h. absurd (nobody i h);
    valid = λ i h. absurd (nobody i (ground (arith, h)));
    known = λ i h. absurd (nobody i h);
  }

-- In every game that a server comes to from a new room, by packets with any content, jobs of the room
-- and of the zones, and sessions that connect, disconnect and are destroyed, in any order: a player in
-- the set of a sector has noted this sector, so that it is in one sector at most, and it is in the map
-- of the room; a player in the map is in the set of the sector that it has noted; a connected player
-- is in the map; and the ids in the map were given. It holds whatever the parser, the clock and the
-- operating system return.
pub Reaches-Placed :
    (outside : Outside) (players : ℕ → Player) (sessions : ℕ → ServerSession) (g : Game)
    → Reaches outside (new_game players sessions) g
    → Placed g
Reaches-Placed outside players sessions _ begins = new_game-Placed outside players sessions
Reaches-Placed outside players sessions _ (goes_on {g} {g'} r step) =
    Step-Placed outside g g' step (Reaches-Placed outside players sessions g r)
