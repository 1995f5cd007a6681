-- ===== src/Game/Room/Kept.antt =====
-- What most handlers leave alone of a game: the sets of players, and the sector that a player has
-- noted.
use rio_iocp_server.Prelude.{ℕ, true, ◌≡◌, refl, sym, ap, ◌∙◌, has, List, ◌≤◌, subst}
use rio_iocp_server.Game.Defs.{
  Game, Player, ServerSession, set_player, set_session, is_valid_player,
}
use rio_iocp_server.Game.Room.Sectors.{at_lem}
use rio_iocp_server.Game.Room.Placed.{Placed}

pub record Kept (g g' : Game) : Type 0 where
  pub kept_sectors : g'.sectors ≡ g.sectors
  pub kept_members : g'.members ≡ g.members
  pub kept_count : g'.session_cnt ≡ g.session_cnt
  pub kept_sector : (i : ℕ) → (g'.players i).sector ≡ (g.players i).sector
  -- Nobody becomes connected.
  pub kept_valid :
      (i : ℕ) → is_valid_player (g'.players i) ≡ true → is_valid_player (g.players i) ≡ true

pub Kept-self : (g : Game) → Kept g g
Kept-self g = record {
  kept_sectors = refl;
  kept_members = refl;
  kept_count = refl;
  kept_sector = λ i. refl;
  kept_valid = λ i h. h;
}

pub Kept-trans : {g h k : Game} → Kept g h → Kept h k → Kept g k
Kept-trans p q = record {
  kept_sectors = q.kept_sectors ∙ p.kept_sectors;
  kept_members = q.kept_members ∙ p.kept_members;
  kept_count = q.kept_count ∙ p.kept_count;
  kept_sector = λ i. q.kept_sector i ∙ p.kept_sector i;
  kept_valid = λ i h. p.kept_valid i (q.kept_valid i h);
}

pub set_session-Kept : (h : ℕ) (s : ServerSession) (g : Game) → Kept g (set_session h s g)
set_session-Kept h s g = record {
  kept_sectors = refl;
  kept_members = refl;
  kept_count = refl;
  kept_sector = λ i. refl;
  kept_valid = λ i h. h;
}

pub set_player-Kept :
    (id : ℕ) (p : Player) (g : Game)
    → p.sector ≡ (g.players id).sector
    → (is_valid_player p ≡ true → is_valid_player (g.players id) ≡ true)
    → Kept g (set_player id p g)
set_player-Kept id p g same less = record {
  kept_sectors = refl;
  kept_members = refl;
  kept_count = refl;
  kept_sector = λ i.
      at_lem (λ (q : Player). q.sector ≡ (g.players i).sector) id p g.players i
        (λ e. same ∙ ap (λ j. (g.players j).sector) (sym e)) (λ n. refl);
  kept_valid = λ i.
      at_lem (λ (q : Player). is_valid_player q ≡ true → is_valid_player (g.players i) ≡ true) id p
        g.players i (λ e h. ap (λ j. is_valid_player (g.players j)) e ∙ less h) (λ n h. h);
}

pub Kept-Placed : {g g' : Game} → Kept g g' → Placed g → Placed g'
Kept-Placed {g} {g'} k p = record {
  noted = λ y x i h. k.kept_sector i ∙ p.noted y x i (back y x i h);
  entered = λ y x i h. member i (p.entered y x i (back y x i h));
  listed = λ i h.
      ap (λ (s : ℕ × ℕ). has i (g'.sectors s.0 s.1)) (k.kept_sector i)
      ∙ ap (λ (f : ℕ → ℕ → List ℕ). has i (f (g.players i).sector.0 (g.players i).sector.1))
          k.kept_sectors
      ∙ p.listed i (was i h);
  valid = λ i h. member i (p.valid i (k.kept_valid i h));
  known = λ i h. subst (λ n. i ≤ n) (sym k.kept_count) (p.known i (was i h));
}
  where
    back : (y x i : ℕ) → has i (g'.sectors y x) ≡ true → has i (g.sectors y x) ≡ true
    back y x i h = sym (ap (λ (f : ℕ → ℕ → List ℕ). has i (f y x)) k.kept_sectors) ∙ h

    was : (i : ℕ) → has i g'.members ≡ true → has i g.members ≡ true
    was i h = sym (ap (has i) k.kept_members) ∙ h

    member : (i : ℕ) → has i g.members ≡ true → has i g'.members ≡ true
    member i h = ap (has i) k.kept_members ∙ h
