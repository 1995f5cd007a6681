-- ===== src/Game/Steps.antt =====
-- How the game changes: the packets that sessions receive, the jobs that workers execute, and the
-- sessions that come and go. A step is one of them as a whole.
-- A session is a new object when it connects; the model allows that of every session at any time.
pub mod Jobs
pub mod Handlers
pub mod Rooms
use rio_iocp_server.Prelude.{ℕ, Bool, true, false, List, [], ◌∷◌, ◌≡◌, ℤ, pos, Outcome, ok, none}
use rio_iocp_server.Game.Defs.{Game, Player, ServerSession, Job, at_idx, set_session, disconnected}
use rio_iocp_server.Game.Packets.{Outside, handle_packet, execute_job, disconnect, destroy}

-- The first job of the room, or of a zone, leaves its queue.
abbrev pub without_room_job : List Job → Game → Game
without_room_job jobs g = record g { room_jobs = jobs }

abbrev pub without_zone_job : ℕ × ℕ → List Job → Game → Game
without_zone_job idx jobs g = record g { zone_jobs = at_idx idx jobs g.zone_jobs }

pub data Step (outside : Outside) : Game → Game → Type 0 where
  receives :
      {g g' : Game} (h : ℕ) (buffer : List ℕ) (len : ℕ) (handled : Bool)
      → handle_packet outside h buffer len g ≡ ok (handled, g')
      → Step outside g g'
  works_for_room :
      {g g' : Game} (job : Job) (jobs : List Job)
      → g.room_jobs ≡ job ∷ jobs
      → execute_job outside job (without_room_job jobs g) ≡ ok g'
      → Step outside g g'
  works_for_zone :
      {g g' : Game} (y x : ℕ) (job : Job) (jobs : List Job)
      → g.zone_jobs y x ≡ job ∷ jobs
      → execute_job outside job (without_zone_job (y, x) jobs g) ≡ ok g'
      → Step outside g g'
  connects :
      {g : Game} (h : ℕ)
      → Step outside g (set_session h (record (g.sessions h) { is_connected = true }) g)
  disconnects : {g : Game} (h : ℕ) → Step outside g (disconnect outside h g)
  destroys : {g : Game} (h : ℕ) → Step outside g (destroy h g)

-- The room as it is made. The stores hold no object that anything refers to.
unfoldable pub new_game : (ℕ → Player) → (ℕ → ServerSession) → Game
new_game players sessions = record {
  session_cnt = 0;
  login_cnt = pos 0;
  members = [];
  sectors = λ y x. [];
  players = λ id. record (players id) { state = disconnected };
  sessions = λ h. record (sessions h) { is_connected = false; own_player = none };
  room_jobs = [];
  zone_jobs = λ y x. [];
  outbox = [];
}

-- The games that a server comes to.
pub data Reaches (outside : Outside) (start : Game) : Game → Type 0 where
  begins : Reaches outside start start
  goes_on : {g g' : Game} → Reaches outside start g → Step outside g g' → Reaches outside start g'
