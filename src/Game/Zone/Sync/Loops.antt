-- ===== src/Game/Zone/Sync/Loops.antt =====
-- `MovePlayer` of Zone.cpp: the messages that keep the clients' views in step, and the loops that send
-- them.
use rio_iocp_server.Prelude.{
  ℕ, Bool, true, false, List, [], ◌∷◌, ◌++◌, ◌≡◌, refl, sym, ap, ◌∙◌, if◌then◌else◌, if_lem, ◌==◌,
  ◌&&◌, has, insert, append_assoc, append-nil, ℤ,
}
use rio_iocp_server.Game.Defs.{Game, Player, Message}
use rio_iocp_server.Game.Position.{get_adjacent_sectors}
use rio_iocp_server.Game.Messages.{send, send_move_msg, send_enter_msg, send_leave_msg}
use rio_iocp_server.Game.Room.{get_player_sector_idx}
use rio_iocp_server.Game.Room.Sectors.{at_self}
use rio_iocp_server.Game.Zone.{
  change_sector, update_view, players_in, is_seen, meet, look_around, part, look_back,
}
use rio_iocp_server.Game.Zone.Sync.{
  posted, move_to, enter_to, leave_to, meet_messages, met_messages, part_messages, left_messages,
}

module _ (g : Game) where
  -- The game with this much sent.
  abbrev with_sent : List (ℕ × Message) → Game
  with_sent sent = record g { outbox = sent }

  send_lem :
      (h : ℕ) (m : Message) (sent : List (ℕ × Message))
      → send h m (with_sent sent) ≡ with_sent (sent ++ posted g h m)
  unfolding send posted
  send_lem h m sent = by_state (g.sessions h).is_connected
    where
      by_state :
          (b : Bool)
          → (if b then with_sent (sent ++ (h, m) ∷ []) else with_sent sent)
            ≡ with_sent (sent ++ (if b then (h, m) ∷ [] else []))
      by_state true = refl
      by_state false = ap with_sent (sym (append-nil sent))

  module _ (id : ℕ) where
    own : ℕ
    own = (g.players id).owner_session

    meet_lem :
        (t : ℕ) (sent : List (ℕ × Message))
        → meet id t (with_sent sent) ≡ with_sent (sent ++ meet_messages g id t)
    unfolding meet meet_messages own
    meet_lem t sent =
        ap (then_player (has t (g.players id).view_list))
          (to_target (has id (g.players t).view_list))
        ∙ to_player (has t (g.players id).view_list) _
        ∙ ap with_sent (append_assoc sent _ _)
      where
        h : ℕ
        h = (g.players t).owner_session

        then_player : Bool → Game → Game
        then_player b g' = if b then g' else send_enter_msg own t (g.players t).info g'

        to_target :
            (b : Bool)
            → (if b
                then send_move_msg h id (g.players id).info (with_sent sent)
                else send_enter_msg h id (g.players id).info (with_sent sent))
              ≡ with_sent (sent ++ posted g h (if b then move_to g h id else enter_to g h id))
        to_target true = send_lem h (move_to g h id) sent
        to_target false = send_lem h (enter_to g h id) sent

        to_player :
            (b : Bool) (l : List (ℕ × Message))
            → then_player b (with_sent l)
              ≡ with_sent (l ++ (if b then [] else posted g own (enter_to g own t)))
        to_player true l = ap with_sent (sym (append-nil l))
        to_player false l = send_lem own (enter_to g own t) l

    part_lem :
        (t : ℕ) (sent : List (ℕ × Message))
        → part id t (with_sent sent) ≡ with_sent (sent ++ part_messages g id t)
    unfolding part part_messages own
    part_lem t sent =
        ap (then_target (has t g.members)) (send_lem own (leave_to g own t) sent)
        ∙ to_target (has t g.members) _
        ∙ ap with_sent (append_assoc sent _ _)
      where
        h : ℕ
        h = (g.players t).owner_session

        then_target : Bool → Game → Game
        then_target b g' = if b then send_leave_msg h id g' else g'

        to_target :
            (b : Bool) (l : List (ℕ × Message))
            → then_target b (with_sent l)
              ≡ with_sent (l ++ (if b then posted g h (leave_to g h id) else []))
        to_target true l = send_lem h (leave_to g h id) l
        to_target false l = ap with_sent (sym (append-nil l))

    look_around_lem :
        (targets new_view_list : List ℕ) (sent : List (ℕ × Message))
        → (look_around id targets new_view_list (with_sent sent)).1
          ≡ with_sent (sent ++ met_messages g id targets)
    unfolding look_around met_messages is_seen
    look_around_lem [] new_view_list sent = ap with_sent (sym (append-nil sent))
    look_around_lem (t ∷ targets) new_view_list sent =
        by_seen (is_seen g id t)
          (look_around_lem targets (insert t new_view_list) (sent ++ meet_messages g id t))
          (look_around_lem targets new_view_list sent)
      where
        by_seen :
            (b : Bool)
            → (look_around id targets
                (insert t new_view_list)
                (with_sent (sent ++ meet_messages g id t))).1
              ≡ with_sent ((sent ++ meet_messages g id t) ++ met_messages g id targets)
            → (look_around id targets new_view_list (with_sent sent)).1
              ≡ with_sent (sent ++ met_messages g id targets)
            → (if b
                then look_around id targets (insert t new_view_list) (meet id t (with_sent sent))
                else look_around id targets new_view_list (with_sent sent)).1
              ≡ with_sent (
                  sent
                  ++ (if b
                      then meet_messages g id t ++ met_messages g id targets
                      else met_messages g id targets))
        by_seen true met skipped =
            ap (λ (g' : Game). (look_around id targets (insert t new_view_list) g').1)
              (meet_lem t sent)
            ∙ met
            ∙ ap with_sent (append_assoc sent (meet_messages g id t) (met_messages g id targets))
        by_seen false met skipped = skipped

    look_back_lem :
        (new_view_list targets : List ℕ) (sent : List (ℕ × Message))
        → look_back id new_view_list targets (with_sent sent)
          ≡ with_sent (sent ++ left_messages g id new_view_list targets)
    unfolding look_back left_messages
    look_back_lem new_view_list [] sent = ap with_sent (sym (append-nil sent))
    look_back_lem new_view_list (t ∷ targets) sent =
        by_view (has t new_view_list) (look_back_lem new_view_list targets sent)
          (look_back_lem new_view_list targets (sent ++ part_messages g id t))
      where
        by_view :
            (b : Bool)
            → look_back id new_view_list targets (with_sent sent)
              ≡ with_sent (sent ++ left_messages g id new_view_list targets)
            → look_back id new_view_list targets (with_sent (sent ++ part_messages g id t))
              ≡ with_sent
                  ((sent ++ part_messages g id t) ++ left_messages g id new_view_list targets)
            → (if b
                then look_back id new_view_list targets (with_sent sent)
                else look_back id new_view_list targets (part id t (with_sent sent)))
              ≡ with_sent (
                  sent
                  ++ (if b
                      then left_messages g id new_view_list targets
                      else part_messages g id t ++ left_messages g id new_view_list targets))
        by_view true kept gone = kept
        by_view false kept gone =
            ap (look_back id new_view_list targets) (part_lem t sent)
            ∙ gone
            ∙ ap with_sent (
                append_assoc sent (part_messages g id t) (left_messages g id new_view_list targets))

module _ (clock : Game → ℤ) (id : ℕ) (g : Game) where
  abbrev pub moved : Game
  moved = change_sector id g

  abbrev pub around : List ℕ
  around =
      players_in moved.sectors (get_adjacent_sectors (get_player_sector_idx (moved.players id)))

  seen : List ℕ × Game
  seen = look_around id around [] moved

  nothing_sent : moved.outbox ≡ g.outbox
  unfolding change_sector
  nothing_sent =
      if_lem (λ (g' : Game). g'.outbox ≡ g.outbox)
        ((to.0 == (g.players id).sector.0) && (to.1 == (g.players id).sector.1)) g _ (λ h. refl)
        (λ h. refl)
    where
      to : ℕ × ℕ
      to = get_player_sector_idx (g.players id)

  -- After the change of sector and up to the result of the move, `MovePlayer` sends these messages in
  -- this order and no others: for each visit of a near and connected player in the adjacent sectors
  -- the move of this player, or the player itself when the other one did not have it in view, and the
  -- other one to this player when it was not in its old view list; then, for each player of the old
  -- view list that is not in the new one, that it left, to both sides, when the other one is in the
  -- room. A session that is closed gets none.
  pub update_view-messages :
      (update_view clock id g).outbox
      ≡ (g.outbox ++ met_messages moved id around)
        ++ left_messages moved id
            ((update_view clock id g).players id).view_list
            (moved.players id).view_list
  unfolding update_view seen
  update_view-messages =
      ap (λ (g' : Game). (look_back id seen.0 (g'.players id).view_list g').outbox)
        (look_around_lem moved id around [] moved.outbox)
      ∙ ap (λ (g' : Game). g'.outbox)
          (look_back_lem moved id seen.0 (moved.players id).view_list
            (moved.outbox ++ met_messages moved id around))
      ∙ ap
          (λ (p : Player).
            (moved.outbox ++ met_messages moved id around)
            ++ left_messages moved id p.view_list (moved.players id).view_list)
          (sym (at_self id _ parted.players))
      ∙ ap
          (λ l.
            (l ++ met_messages moved id around)
            ++ left_messages moved id ((update_view clock id g).players id).view_list
                (moved.players id).view_list)
          nothing_sent
    where
      parted : Game
      parted = look_back id seen.0 (seen.1.players id).view_list seen.1
