-- ===== src/Game/Defs.antt =====
-- The state of the game (RIOIOCPServer/Contents/Player.h, Room.h, Sector.h and Zone.h, and
-- RIOIOCPServer/Session/RioServerSession.h and IocpServerSession.h).
-- A `shared_ptr<Player>` is the id of the player, which `Handle_LOGIN` never gives twice, and a
-- session is a number. Both stand for an object in a store, `players` and `sessions`.
use rio_iocp_server.Prelude.{ℕ, Bool, true, false, Option, List, if◌then◌else◌, ◌==◌, ℤ}
pub use rio_iocp_server.Prelude.{at}

-- `PLAYER_POS_INFO`, and the same twelve members of `PlayerInfo`.
pub record PosInfo : Type 0 where
  pub x : ℤ
  pub y : ℤ
  pub z : ℤ
  pub yaw : ℤ
  pub pitch : ℤ
  pub roll : ℤ
  pub vx : ℤ
  pub vy : ℤ
  pub vz : ℤ
  pub ax : ℤ
  pub ay : ℤ
  pub az : ℤ

pub record PlayerInfo : Type 0 where
  pub player_str_id : List ℕ
  pub player_type : ℤ
  pub pos_info : PosInfo
  pub time_stamp : ℤ

pub data State : Type 0 where
  connected disconnected : State

-- `m_idxInfo` has no value before `Login` sets it; `sector` holds it, y first. Its zone is not used.
pub record Player : Type 0 where
  pub info : PlayerInfo
  pub state : State
  pub sector : ℕ × ℕ
  pub owner_session : ℕ
  pub view_list : List ℕ

-- The messages to a client, with the members that the server sets (Protocol.pb.h).
pub data Message : Type 0 where
  s2c_login_result : ℕ → Bool → ℤ → ℤ → List ℕ → PosInfo → Message
  s2c_move : ℕ → ℕ → ℤ → PosInfo → Message
  s2c_move_result : ℕ → ℤ → ℤ → ℤ → ℤ → Message
  s2c_enter : ℕ → ℕ → ℤ → ℤ → List ℕ → PosInfo → Message
  s2c_leave : ℕ → ℕ → Message
  s2c_chat : ℕ → ℕ → List ℕ → List ℕ → Message

pub record ServerSession : Type 0 where
  pub is_connected : Bool
  pub player_str_id : List ℕ
  pub session_id : ℕ
  pub move_time : ℤ
  pub login_time : ℤ
  pub server_process_time : ℤ
  pub send_time : ℤ
  pub request_result : Bool
  pub own_player : Option ℕ

-- What waits in the JobQueue of the room, and in those of the zones.
pub data Job : Type 0 where
  logout_job : Option ℕ → Job
  move_job : ℕ → Job
  chat_job : ℕ → List ℕ → Job

-- `members` are the keys of the room's `m_players`, `sectors` the sets of the sectors, by y and x, and
-- `outbox` has the messages given to `Send` of connected sessions, in order.
pub record Game : Type 0 where
  pub session_cnt : ℕ
  pub login_cnt : ℤ
  pub members : List ℕ
  pub sectors : ℕ → ℕ → List ℕ
  pub players : ℕ → Player
  pub sessions : ℕ → ServerSession
  pub room_jobs : List Job
  pub zone_jobs : ℕ → ℕ → List Job
  pub outbox : List (ℕ × Message)

abbrev pub at_idx : {A : Type 0} → ℕ × ℕ → A → (ℕ → ℕ → A) → ℕ → ℕ → A
at_idx (y, x) a f j i = if j == y then (if i == x then a else f j i) else f j i

abbrev pub set_player : ℕ → Player → Game → Game
set_player id p g = record g { players = at id p g.players }

abbrev pub set_session : ℕ → ServerSession → Game → Game
set_session h s g = record g { sessions = at h s g.sessions }

-- `IsValidPlayer`
abbrev pub is_valid_player : Player → Bool
is_valid_player p = elim p.state [ connected ↦ true | disconnected ↦ false ]
