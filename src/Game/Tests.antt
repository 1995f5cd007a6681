-- ===== src/Game/Tests.antt =====
-- The game on concrete packets: two clients log in, next to each other, and one talks and logs out.
use rio_iocp_server.Prelude.{
  ◌≤◌, ◌-ℤ◌, negsuc, ◌>>=◌, ℕ, Bool, true, false, List, [], ◌∷◌, ◌++◌, ◌≡◌, refl, inl,
  if◌then◌else◌, ◌*◌, arith, ◌/ℤ◌, ◌+ℤ◌, pos, Outcome, ok, ub, running, none,
}
use rio_iocp_server.Packet.{read_header}
use rio_iocp_server.Game.Position.{
  cell_idx, sector_idx, to_int, is_near, get_adjacent_sectors, get_narrow_adjacent_sectors,
  adjacent_row, is_outside, adjacent_rows, downwards, upwards,
}
use rio_iocp_server.Game.Position.Loops.{Among}
use rio_iocp_server.Game.Position.Cover.{IsInMap, get_adjacent_sectors_lem}
use rio_iocp_server.Game.Float.{
  float_of, round_float, nearest, spacing, quotient, int_of_quotient, int_of_quotient_ℤ,
}
use rio_iocp_server.Game.Defs.{
  Game, Player, PosInfo, ServerSession, disconnected, is_valid_player, set_session,
}
use rio_iocp_server.Game.Messages.{send, own_info, send_login_result_msg}
use rio_iocp_server.Game.Room.{login, enter_room, get_player_sector_idx}
use rio_iocp_server.Game.Room.Placed.{Placed}
use rio_iocp_server.Game.Zone.{update_view, zone_chat, players_in, is_seen, near_players}
use rio_iocp_server.Game.Zone.Sync.{met_messages, left_messages}
use rio_iocp_server.Game.Zone.Sync.Loops.{moved, around, update_view-messages}
use rio_iocp_server.Game.Zone.Update.{Settled, IsOnMap}
use rio_iocp_server.Game.Zone.Hear.{zone_chat-reaches, zone_chat_lem, hears, chat_to, chat_messages}
use rio_iocp_server.Game.Packets.Endings.{handle_logout-handle_move}
use rio_iocp_server.Game.Packets.{
  Outside, handle_move, is_id, handle_logout, is_id, handle_logout, handle_packet, handle_message,
  handle_login, add_player, new_player,
}
use rio_iocp_server.Game.Steps.{Reaches, receives, connects, begins, goes_on, new_game}
use rio_iocp_server.Game.Steps.Rooms.{Reaches-Placed}

abbrev at_pos : ℕ → ℕ → PosInfo
at_pos y x = record {
  x = pos (x * 65536);
  y = pos (y * 65536);
  z = pos 0;
  yaw = pos 0;
  pitch = pos 0;
  roll = pos 0;
  vx = pos 0;
  vy = pos 0;
  vz = pos 0;
  ax = pos 0;
  ay = pos 0;
  az = pos 0;
}

-- All clients log in with the same name, and move to (700, 800).
abbrev outside : Outside
outside = record {
  parse_login =
      λ bytes. record { player_str_id = 65 ∷ []; login_time = pos 7; player_type = pos 1 };
  parse_move = λ bytes. record {
    session_id = pos 1;
    pos_info = at_pos 800 700;
    request_result = true;
    time_stamp = pos 9;
  };
  parse_chat = λ bytes. record { session_id = pos 1; message = 72 ∷ 105 ∷ [] };
  clock = λ g. pos 100;
  initial_y = λ g. pos (600 * 65536);
  initial_x = λ g. pos (500 * 65536);
  set_linger = λ g. true;
}

abbrev any_player : Player
any_player = record {
  info = record {
    player_str_id = [];
    player_type = pos 0;
    pos_info = at_pos 0 0;
    time_stamp = pos 0;
  };
  state = disconnected;
  sector = (0, 0);
  owner_session = 0;
  view_list = [];
}

abbrev any_session : ServerSession
any_session = record {
  is_connected = false;
  player_str_id = [];
  session_id = 0;
  move_time = pos 0;
  login_time = pos 0;
  server_process_time = pos 0;
  send_time = pos 0;
  request_result = false;
  own_player = none;
}

abbrev result : Game → Outcome (Bool × Game) → Game
result g (ok (handled, g')) = g'
result g ub = g
result g running = g

abbrev start : Game
start = new_game (λ id. any_player) (λ h. any_session)

abbrev online : ℕ → Game → Game
online h g = set_session h (record (g.sessions h) { is_connected = true }) g

abbrev login_bytes : List ℕ
login_bytes = 4 ∷ 0 ∷ 0 ∷ 0 ∷ []

abbrev first : Game
first = result start (handle_packet outside 20 login_bytes 4 (online 20 start))

abbrev second : Game
second = result start (handle_packet outside 30 login_bytes 4 (online 30 first))

first_handled : handle_packet outside 20 login_bytes 4 (online 20 start) ≡ ok (true, first)
unfolding handle_packet read_header handle_message handle_login login send_login_result_msg own_info
    enter_room add_player new_game new_player
first_handled = refl

second_handled : handle_packet outside 30 login_bytes 4 (online 30 first) ≡ ok (true, second)
unfolding handle_packet read_header handle_message handle_login login send_login_result_msg own_info
    enter_room add_player new_game new_player send
second_handled = refl

reached : Reaches outside start second
reached =
    goes_on
      (goes_on
        (goes_on (goes_on begins (connects 20)) (receives 20 login_bytes 4 true first_handled))
        (connects 30))
      (receives 30 login_bytes 4 true second_handled)

Reaches-Placed_example : Placed second
Reaches-Placed_example = Reaches-Placed outside (λ id. any_player) (λ h. any_session) second reached

placed : Placed second
placed = Reaches-Placed outside (λ id. any_player) (λ h. any_session) second reached

sectors_noted : Settled (second.players 2)
unfolding handle_packet read_header handle_message handle_login login send_login_result_msg own_info
    enter_room add_player new_game new_player send Settled
sectors_noted = refl

here : IsOnMap (second.players 1)
unfolding handle_packet read_header handle_message handle_login login send_login_result_msg own_info
    enter_room add_player new_game new_player send IsInMap
here = ((omega arith, omega arith), (omega arith, omega arith))

there : IsOnMap (second.players 2)
unfolding handle_packet read_header handle_message handle_login login send_login_result_msg own_info
    enter_room add_player new_game new_player send IsInMap
there = ((omega arith, omega arith), (omega arith, omega arith))

surely_chats : near_players (second.players 1) (second.players 2) 1248 ≡ true
unfolding handle_packet read_header handle_message handle_login login send_login_result_msg own_info
    enter_room add_player new_game new_player send is_near to_int ◌/ℤ◌
surely_chats = refl

sees_second : is_seen second 1 2 ≡ true
unfolding handle_packet read_header handle_message handle_login login send_login_result_msg own_info
    enter_room add_player new_game new_player send is_seen is_near to_int ◌/ℤ◌
sees_second = refl

zone_chat_lem_example :
    (zone_chat 1 (72 ∷ 105 ∷ []) second).outbox
    ≡ second.outbox
      ++ (if is_valid_player (second.players 1)
          then chat_messages second 1 (72 ∷ 105 ∷ []) (
              players_in second.sectors
                (get_narrow_adjacent_sectors (get_player_sector_idx (second.players 1))))
          else [])
zone_chat_lem_example = zone_chat_lem 1 (72 ∷ 105 ∷ []) second

talks : is_valid_player (second.players 1) ≡ true
unfolding handle_packet read_header handle_message handle_login login send_login_result_msg own_info
    enter_room add_player new_game new_player send
talks = refl

listens : hears second 1 2 ≡ true
unfolding handle_packet read_header handle_message handle_login login send_login_result_msg own_info
    enter_room add_player new_game new_player send hears is_near to_int ◌/ℤ◌
listens = refl

zone_chat-reaches_example :
    Among (chat_to second 1 (72 ∷ 105 ∷ []) 2) (zone_chat 1 (72 ∷ 105 ∷ []) second).outbox
zone_chat-reaches_example =
    zone_chat-reaches 1 2 (72 ∷ 105 ∷ []) second placed talks sectors_noted listens here there
      surely_chats

near_corner :
    is_near
      (to_int (pos (19000 * 65536)))
      (to_int (pos (18000 * 65536)))
      (to_int (pos (20000 * 65536)))
      (to_int (pos (19000 * 65536)))
      2498
    ≡ true
unfolding is_near to_int ◌/ℤ◌
near_corner = refl

in_map : (n : ℕ) → n ≤ 1310720000 → IsInMap (pos n)
unfolding IsInMap
in_map n h = (h, omega arith)

get_adjacent_sectors_lem_example :
    Among
      (sector_idx (pos (19000 * 65536)) (pos (20000 * 65536)))
      (get_adjacent_sectors (sector_idx (pos (18000 * 65536)) (pos (19000 * 65536))))
get_adjacent_sectors_lem_example =
    get_adjacent_sectors_lem (pos (18000 * 65536)) (pos (19000 * 65536)) (pos (19000 * 65536))
      (pos (20000 * 65536)) (in_map _ (omega arith), in_map _ (omega arith))
      (in_map _ (omega arith), in_map _ (omega arith)) near_corner

-- -0.5 and 2499.9998 are nearer than the view distance, and in sectors 15 and 18: the second is rounded to
-- 2500 when the edge of the map is taken from it.
over_the_edge : (cell_idx 1250 32 (negsuc 32767) ≡ 15) × (cell_idx 1250 32 (pos 163839984) ≡ 18)
unfolding cell_idx float_of round_float nearest spacing quotient int_of_quotient int_of_quotient_ℤ
    ◌-ℤ◌
over_the_edge = (refl, refl)

in_corner : Among (1, 30) (adjacent_rows (0, 31) (downwards 1) (upwards 1))
unfolding Among adjacent_rows adjacent_row is_outside ◌+ℤ◌
in_corner = inl refl

is_open : (second.sessions 20).is_connected ≡ true
unfolding handle_packet read_header handle_message handle_login login send_login_result_msg own_info
    enter_room add_player new_game new_player send
is_open = refl

same_id_sent : is_id (pos 1) (second.sessions 20).session_id ≡ true
unfolding handle_packet read_header handle_message handle_login login send_login_result_msg own_info
    enter_room add_player new_game new_player send
same_id_sent = refl

handle_logout-handle_move_example :
    (handle_logout outside 20 second >>= λ (handled, g).
    handle_move outside 20 (outside.parse_move []) g)
    ≡ ub
handle_logout-handle_move_example =
    handle_logout-handle_move outside 20 (outside.parse_move []) second is_open (λ x. refl)
      same_id_sent

update_view-messages_example :
    (update_view outside.clock 1 second).outbox
    ≡ (second.outbox
        ++ met_messages (moved outside.clock 1 second) 1 (around outside.clock 1 second))
      ++ left_messages
          (moved outside.clock 1 second)
          1
          ((update_view outside.clock 1 second).players 1).view_list
          ((moved outside.clock 1 second).players 1).view_list
update_view-messages_example = update_view-messages outside.clock 1 second
