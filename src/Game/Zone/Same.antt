-- ===== src/Game/Zone/Same.antt =====
-- What sending messages (Zone.cpp) leaves alone: all of the game but the outbox.
use rio_iocp_server.Prelude.{
  ℕ, List, [], ◌∷◌, ◌≡◌, refl, ◌∙◌, if◌then◌else◌, if_lem, ◌&&◌, has, insert,
}
use rio_iocp_server.Game.Defs.{Game, Message, is_valid_player}
use rio_iocp_server.Game.Position.{view_distance_narrow}
use rio_iocp_server.Game.Messages.{send, send_move_msg, send_enter_msg, send_leave_msg}
use rio_iocp_server.Game.Zone.{meet, look_around, part, look_back, tell, is_seen, near_players}

pub record Same (g g' : Game) : Type 0 where
  pub same_players : g'.players ≡ g.players
  pub same_sectors : g'.sectors ≡ g.sectors
  pub same_members : g'.members ≡ g.members
  pub same_count : g'.session_cnt ≡ g.session_cnt
  pub same_sessions : g'.sessions ≡ g.sessions
  pub same_logins : g'.login_cnt ≡ g.login_cnt

pub Same-self : (g : Game) → Same g g
Same-self g = record {
  same_players = refl;
  same_sectors = refl;
  same_members = refl;
  same_count = refl;
  same_sessions = refl;
  same_logins = refl;
}

pub Same-trans : {g h k : Game} → Same g h → Same h k → Same g k
Same-trans p q = record {
  same_players = q.same_players ∙ p.same_players;
  same_sectors = q.same_sectors ∙ p.same_sectors;
  same_members = q.same_members ∙ p.same_members;
  same_count = q.same_count ∙ p.same_count;
  same_sessions = q.same_sessions ∙ p.same_sessions;
  same_logins = q.same_logins ∙ p.same_logins;
}

pub send-Same : (h : ℕ) (m : Message) (g : Game) → Same g (send h m g)
unfolding send
send-Same h m g =
    if_lem (Same g) (g.sessions h).is_connected _ _
      (λ up. record {
        same_players = refl;
        same_sectors = refl;
        same_members = refl;
        same_count = refl;
        same_sessions = refl;
        same_logins = refl;
      })
      (λ down. Same-self g)

pub meet-Same : (id target : ℕ) (g : Game) → Same g (meet id target g)
unfolding meet
meet-Same id target g =
    let to_target =
      if has id (g.players target).view_list
      then send_move_msg (g.players target).owner_session id (g.players id).info g
      else send_enter_msg (g.players target).owner_session id (g.players id).info g in
    let first : Same g to_target =
      if_lem (Same g) (has id (g.players target).view_list) _ _
        (λ h. send-Same (g.players target).owner_session _ g)
        (λ h. send-Same (g.players target).owner_session _ g) in
    if_lem (Same g) (has target (g.players id).view_list) _ _ (λ h. first)
      (λ h. Same-trans first (send-Same (g.players id).owner_session _ to_target))

pub look_around-Same :
    (id : ℕ) (targets new_view_list : List ℕ) (g : Game)
    → Same g (look_around id targets new_view_list g).1
unfolding look_around
look_around-Same id [] new_view_list g = Same-self g
look_around-Same id (target ∷ targets) new_view_list g =
    if_lem (λ (r : List ℕ × Game). Same g r.1) (is_seen g id target) _ _
      (λ seen.
        Same-trans (meet-Same id target g)
          (look_around-Same id targets (insert target new_view_list) (meet id target g)))
      (λ skipped. look_around-Same id targets new_view_list g)

pub part-Same : (id target : ℕ) (g : Game) → Same g (part id target g)
unfolding part
part-Same id target g =
    let left = send_leave_msg (g.players id).owner_session target g in
    let first = send-Same (g.players id).owner_session _ g in
    if_lem (Same g) (has target g.members) _ _
      (λ h. Same-trans first (send-Same (g.players target).owner_session _ left)) (λ h. first)

pub look_back-Same :
    (id : ℕ) (new_view_list targets : List ℕ) (g : Game)
    → Same g (look_back id new_view_list targets g)
unfolding look_back
look_back-Same id new_view_list [] g = Same-self g
look_back-Same id new_view_list (target ∷ targets) g =
    if_lem (Same g) (has target new_view_list) _ _ (λ h. look_back-Same id new_view_list targets g)
      (λ h.
        Same-trans (part-Same id target g)
          (look_back-Same id new_view_list targets (part id target g)))

pub tell-Same : (id : ℕ) (message targets : List ℕ) (g : Game) → Same g (tell id message targets g)
unfolding tell
tell-Same id message [] g = Same-self g
tell-Same id message (target ∷ targets) g =
    if_lem (Same g)
      (is_valid_player (g.players target)
        && near_players (g.players id) (g.players target) view_distance_narrow)
      _ _
      (λ h.
        Same-trans (send-Same (g.players target).owner_session _ g)
          (tell-Same id message targets _))
      (λ h. tell-Same id message targets g)
