-- ===== src/Game/Steps/Jobs.antt =====
-- Room.cpp and Zone.cpp: the jobs keep every player in the set of the one sector that it has noted.
use rio_iocp_server.Prelude.{
  ℕ, Bool, List, refl, if_lem, not, arith, ℤ, IfOk, deref, IfOk-bind_any, IfOk-imp,
}
use rio_iocp_server.Game.Defs.{Game, Job, logout_job, move_job, chat_job, is_valid_player}
use rio_iocp_server.Game.Messages.{own_info, send_login_result_msg, send_move_result_msg}
use rio_iocp_server.Game.Room.Placed.{Placed, logout-Placed}
use rio_iocp_server.Game.Room.Kept.{Kept, Kept-self, Kept-trans, set_session-Kept, Kept-Placed}
use rio_iocp_server.Game.Zone.{update_view, set_process_time, zone_move_player, zone_chat}
use rio_iocp_server.Game.Zone.Same.{send-Same, tell-Same}
use rio_iocp_server.Game.Zone.Placed.{Same-Kept, update_view-Kept, change_sector-Placed}
use rio_iocp_server.Game.Packets.{Outside, execute_job}
use rio_iocp_server.Game.Steps.{without_room_job, without_zone_job}

send_move_result_msg-Kept :
    (clock : ℤ) (h : ℕ) (g : Game) → IfOk (Kept g) (send_move_result_msg clock h g)
unfolding send_move_result_msg
send_move_result_msg-Kept clock h g =
    if_lem (IfOk (Kept g)) (not (g.sessions h).request_result) _ _ (λ e. Kept-self g)
      (λ e. IfOk-bind_any (Kept g) (own_info h g) _ (λ info. Same-Kept (send-Same h _ g)))

pub send_login_result_msg-Kept :
    (h : ℕ) (result : Bool) (player_type : ℤ) (g : Game)
    → IfOk (Kept g) (send_login_result_msg h result player_type g)
unfolding send_login_result_msg
send_login_result_msg-Kept h result player_type g =
    IfOk-bind_any (Kept g) (own_info h g) _ (λ info. Same-Kept (send-Same h _ g))

pub other_jobs : (jobs : List Job) (g : Game) → Kept g (without_room_job jobs g)
other_jobs jobs g = record {
  kept_sectors = refl;
  kept_members = refl;
  kept_count = refl;
  kept_sector = λ i. refl;
  kept_valid = λ i h. h;
}

pub other_zone_jobs :
    (idx : ℕ × ℕ) (jobs : List Job) (g : Game) → Kept g (without_zone_job idx jobs g)
other_zone_jobs idx jobs g = record {
  kept_sectors = refl;
  kept_members = refl;
  kept_count = refl;
  kept_sector = λ i. refl;
  kept_valid = λ i h. h;
}

zone_move_player-Placed :
    (clock : Game → ℤ) (id : ℕ) (g : Game) → Placed g → IfOk Placed (zone_move_player clock id g)
unfolding zone_move_player
zone_move_player-Placed clock id g p =
    let started = set_process_time id (clock g) g in
    let updated = update_view clock id started in
    if_lem (IfOk Placed) (not (is_valid_player (g.players id))) _ _ (λ e. p)
      (λ e.
        let member = p.valid id (ground (arith, e)) in
        let p₁ : Placed started = Kept-Placed (set_session-Kept _ _ g) p in
        let p₂ =
          Kept-Placed (update_view-Kept clock id started)
            (change_sector-Placed id started p₁ member) in
        IfOk-imp (Kept _) Placed (send_move_result_msg _ _ _)
          (λ g' k. Kept-Placed (Kept-trans (set_session-Kept _ _ updated) k) p₂)
          (send_move_result_msg-Kept _ (updated.players id).owner_session _))

zone_chat-Kept : (id : ℕ) (message : List ℕ) (g : Game) → Kept g (zone_chat id message g)
unfolding zone_chat
zone_chat-Kept id message g =
    if_lem (Kept g) (not (is_valid_player (g.players id))) _ _ (λ e. Kept-self g)
      (λ e. Same-Kept (tell-Same id message _ g))

module _ (outside : Outside) where
  pub execute_job-Placed :
      (job : Job) (g : Game) → Placed g → IfOk Placed (execute_job outside job g)
  unfolding execute_job
  execute_job-Placed (logout_job player) g p =
      IfOk-bind_any Placed (deref player) _ (λ id. logout-Placed id g p)
  execute_job-Placed (move_job id) g p = zone_move_player-Placed outside.clock id g p
  execute_job-Placed (chat_job id message) g p = Kept-Placed (zone_chat-Kept id message g) p
