-- ===== src/Game/Zone/Hear.antt =====
-- `Chat` of Zone.cpp: who gets the message.
use rio_iocp_server.Prelude.{
  ℕ, Bool, true, false, List, [], ◌∷◌, ◌++◌, map, ◌≡◌, refl, sym, ap, ◌∙◌, ◌⊎◌, inl, inr,
  if◌then◌else◌, if_lem, not, ◌&&◌, ◌||◌, ◌==◌, has, arith, subst, Bool-cases, keep, same_id,
  append_assoc, append-nil,
}
use rio_iocp_server.Game.Defs.{Game, PosInfo, Message, s2c_chat, is_valid_player}
use rio_iocp_server.Game.Position.{view_distance_narrow, get_narrow_adjacent_sectors}
use rio_iocp_server.Game.Position.Loops.{Among, Among-append_right}
use rio_iocp_server.Game.Position.Cover.{get_narrow_adjacent_sectors_lem}
use rio_iocp_server.Game.Messages.{send, send_chat_msg}
use rio_iocp_server.Game.Room.{get_player_sector_idx}
use rio_iocp_server.Game.Room.Placed.{Placed}
use rio_iocp_server.Game.Zone.{near_players, players_in, tell, zone_chat}
use rio_iocp_server.Game.Zone.View.{players_in-has}
use rio_iocp_server.Game.Zone.Update.{Settled, IsOnMap}

-- The players that a message is for: connected, near, and with a session that is not closed.
unfoldable pub hears : Game → ℕ → ℕ → Bool
hears g id t =
    (is_valid_player (g.players t)
      && near_players (g.players id) (g.players t) view_distance_narrow)
    && (g.sessions (g.players t).owner_session).is_connected

unfoldable pub chat_to : Game → ℕ → List ℕ → ℕ → ℕ × Message
chat_to g id message t =
    let h : ℕ = (g.players t).owner_session in
    (h, s2c_chat (g.sessions h).session_id id (g.players id).info.player_str_id message)

-- The list of messages, made at once.
unfoldable pub chat_messages : Game → ℕ → List ℕ → List ℕ → List (ℕ × Message)
chat_messages g id message targets = map (chat_to g id message) (keep (hears g id) targets)

told : (g : Game) (id : ℕ) (message : List ℕ) (sent : List (ℕ × Message)) → List ℕ → Game
told g id message sent targets = tell id message targets (record g { outbox = sent })

module _ (g : Game) (id : ℕ) (message : List ℕ) where
  heard :
      (t : ℕ) (targets : List ℕ)
      → hears g id t ≡ true
      → chat_messages g id message (t ∷ targets)
        ≡ chat_to g id message t ∷ chat_messages g id message targets
  unfolding chat_messages keep
  heard t targets e = rw e refl

  unheard :
      (t : ℕ) (targets : List ℕ)
      → hears g id t ≡ false
      → chat_messages g id message (t ∷ targets) ≡ chat_messages g id message targets
  unfolding chat_messages keep
  unheard t targets e = rw e refl

  both : (b c : Bool) → b ≡ true → c ≡ true → (b && c) ≡ true
  both b c h k = ground (arith, h, k)

  neither : (b c : Bool) → (b ≡ false) ⊎ (c ≡ false) → (b && c) ≡ false
  neither b c h = ground (arith, h)

  tell_lem :
      (targets : List ℕ) (sent : List (ℕ × Message))
      → (told g id message sent targets).outbox ≡ sent ++ chat_messages g id message targets
  unfolding told tell send chat_to hears chat_messages keep
  tell_lem [] sent = sym (append-nil sent)
  tell_lem (t ∷ targets) sent =
      if_lem (λ (g' : Game). g'.outbox ≡ sent ++ chat_messages g id message (t ∷ targets)) here
        (tell id message targets (
          send_chat_msg (g.players t).owner_session id (g.players id).info.player_str_id message
            (record g { outbox = sent })))
        (told g id message sent targets)
        (λ near.
          if_lem
            (λ (g' : Game).
              (tell id message targets g').outbox
              ≡ sent ++ chat_messages g id message (t ∷ targets))
            up _ _
            (λ on.
              tell_lem targets (sent ++ chat_to g id message t ∷ [])
              ∙ append_assoc sent (chat_to g id message t ∷ []) (chat_messages g id message targets)
              ∙ sym (ap (λ l. sent ++ l) (heard t targets (both here up near on))))
            (λ off.
              tell_lem targets sent
              ∙ sym (ap (λ l. sent ++ l) (unheard t targets (neither here up (inr off))))))
        (λ far.
          tell_lem targets sent
          ∙ sym (ap (λ l. sent ++ l) (unheard t targets (neither here up (inl far)))))
    where
      here : Bool
      here =
          is_valid_player (g.players t)
          && near_players (g.players id) (g.players t) view_distance_narrow

      up : Bool
      up = (g.sessions (g.players t).owner_session).is_connected

-- `Chat` of a zone sends, in the order of the sectors and their sets, one message to the session of
-- every visit of a connected player within the narrow distance whose session is not closed, the
-- sender too, with its session id, the sender's id and name and the text; it sends no other message,
-- and none at all when the sender is not connected.
pub zone_chat_lem :
    (id : ℕ) (message : List ℕ) (g : Game)
    → (zone_chat id message g).outbox
      ≡ g.outbox
        ++ (if is_valid_player (g.players id)
            then chat_messages g id message (
                players_in g.sectors
                  (get_narrow_adjacent_sectors (get_player_sector_idx (g.players id))))
            else [])
unfolding zone_chat told
zone_chat_lem id message g = by_validity (is_valid_player (g.players id))
  where
    targets : List ℕ
    targets =
        players_in g.sectors (get_narrow_adjacent_sectors (get_player_sector_idx (g.players id)))

    by_validity :
        (b : Bool)
        → (if not b then g else tell id message targets g).outbox
          ≡ g.outbox ++ (if b then chat_messages g id message targets else [])
    by_validity true = tell_lem g id message targets g.outbox
    by_validity false = sym (append-nil g.outbox)

Among-chat_messages :
    (g : Game) (id : ℕ) (message : List ℕ) (t : ℕ) (targets : List ℕ)
    → hears g id t ≡ true
    → has t targets ≡ true
    → Among (chat_to g id message t) (chat_messages g id message targets)
unfolding Among has
Among-chat_messages g id message t [] h there = ground (arith, there)
Among-chat_messages g id message t (u ∷ targets) h there = elim (Bool-cases (t == u)) [
  | inl same ↦
      let e = same_id t u same in
      subst (Among (chat_to g id message t))
        (sym (heard g id message u targets (subst (λ i. hears g id i ≡ true) e h)))
        (inl (ap (chat_to g id message) e))
  | inr other ↦
      let rest =
        Among-chat_messages g id message t targets h (later t u (has t targets) other there) in
      elim (Bool-cases (hears g id u)) [
        | inl on ↦
            subst (Among (chat_to g id message t)) (sym (heard g id message u targets on))
              (inr rest)
        | inr off ↦
            subst (Among (chat_to g id message t)) (sym (unheard g id message u targets off)) rest
      ]
]
  where
    later : (i j : ℕ) (b : Bool) → (i == j) ≡ false → ((i == j) || b) ≡ true → b ≡ true
    later i j b n h = ground (arith, n, h)

-- In a game whose players are where they have noted, the message that a connected player sends in
-- `Chat` reaches every connected player that `IsNear` finds nearer than 1248 (the narrow distance is 1250) and on the
-- map, as the sender is, that has noted the sector of its position and whose session is not closed.
pub zone_chat-reaches :
    (id t : ℕ) (message : List ℕ) (g : Game)
    → Placed g
    → is_valid_player (g.players id) ≡ true
    → Settled (g.players t)
    → hears g id t ≡ true
    → IsOnMap (g.players id)
    → IsOnMap (g.players t)
    → near_players (g.players id) (g.players t) 1248 ≡ true
    → Among (chat_to g id message t) (zone_chat id message g).outbox
unfolding Settled hears
zone_chat-reaches id t message g p v s h here on near =
    let valid =
      first_of (is_valid_player (g.players t))
        (near_players (g.players id) (g.players t) view_distance_narrow) _ h in
    let view = get_narrow_adjacent_sectors (get_player_sector_idx (g.players id)) in
    let there =
      players_in-has g.sectors view (g.players t).sector.0 (g.players t).sector.1 t
        (subst (λ c. Among c view) (sym s)
          (get_narrow_adjacent_sectors_lem (pos_of id).y (pos_of id).x (pos_of t).y (pos_of t).x
            here on near))
        (p.listed t (p.valid t valid)) in
    subst (Among (chat_to g id message t))
      (sym (
        zone_chat_lem id message g
        ∙ ap
            (λ (b : Bool).
              g.outbox
              ++ (if b then chat_messages g id message (players_in g.sectors view) else []))
            v))
      (Among-append_right _ g.outbox _
        (Among-chat_messages g id message t (players_in g.sectors view) h there))
  where
    pos_of : ℕ → PosInfo
    pos_of i = (g.players i).info.pos_info

    first_of : (b c d : Bool) → ((b && c) && d) ≡ true → b ≡ true
    first_of b c d h = ground (arith, h)
