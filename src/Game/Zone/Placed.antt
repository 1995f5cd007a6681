-- ===== src/Game/Zone/Placed.antt =====
-- Zone.cpp and PacketHandler.h: the jobs keep every player in the set of the one sector that it has
-- noted.
use rio_iocp_server.Prelude.{
  ℕ, true, List, [], ◌≡◌, ◌≢◌, refl, sym, ap, ◌∙◌, inl, inr, if_lem, ◌==◌, ◌&&◌, has, subst, ℤ,
}
use rio_iocp_server.Game.Defs.{Game, Player, is_valid_player}
use rio_iocp_server.Game.Position.{get_adjacent_sectors}
use rio_iocp_server.Game.Room.{get_player_sector_idx, insert_in_sector, erase_from_sector}
use rio_iocp_server.Game.Room.Sectors.{
  at_lem, insert_in_sector-cases, insert_in_sector-keeps, insert_in_sector-has,
  erase_from_sector-cases, erase_from_sector-keeps,
}
use rio_iocp_server.Game.Room.Placed.{Placed}
use rio_iocp_server.Game.Room.Kept.{Kept, Kept-trans, set_player-Kept}
use rio_iocp_server.Game.Zone.{change_sector, update_view, look_around, players_in}
use rio_iocp_server.Game.Zone.Same.{Same, look_around-Same, look_back-Same}

pub Same-Kept : {g g' : Game} → Same g g' → Kept g g'
Same-Kept {g} {g'} s = record {
  kept_sectors = s.same_sectors;
  kept_members = s.same_members;
  kept_count = s.same_count;
  kept_sector = λ i. ap (λ (f : ℕ → Player). (f i).sector) s.same_players;
  kept_valid = λ i h. sym (ap (λ (f : ℕ → Player). is_valid_player (f i)) s.same_players) ∙ h;
}

-- What `MovePlayer` does behind the change of sector leaves the sectors alone.
pub update_view-Kept :
    (clock : Game → ℤ) (id : ℕ) (g : Game) → Kept (change_sector id g) (update_view clock id g)
unfolding update_view
update_view-Kept clock id g =
    let moved = change_sector id g in
    let view = get_adjacent_sectors (get_player_sector_idx (moved.players id)) in
    let seen = look_around id (players_in moved.sectors view) [] moved in
    let met = look_around-Same id (players_in moved.sectors view) [] moved in
    let parted = look_back-Same id seen.0 (seen.1.players id).view_list seen.1 in
    Kept-trans (Kept-trans (Same-Kept met) (Same-Kept parted))
      (set_player-Kept id _ _ refl (λ h. h))

module _ (id : ℕ) (g : Game) (p : Placed g) (member : has id g.members ≡ true) where
  pub change_sector-Placed : Placed (change_sector id g)
  unfolding change_sector
  change_sector-Placed =
      if_lem Placed ((new.0 == old.0) && (new.1 == old.1)) _ _ (λ h. p)
        (λ h. record {
          noted = λ y x i there.
              at_lem (λ (q : Player). q.sector ≡ (y, x)) id _ g.players i
                (λ e. elim (insert_in_sector-cases new id erased y x i there) [
                  | inl (_, here) ↦ sym here
                  | inr still ↦
                      let (apart, was) = erase_from_sector-cases old id g.sectors y x i still in
                      absurd (apart (sym (p.noted y x i was) ∙ ap (λ j. (g.players j).sector) e) e)
                ])
                (λ n. p.noted y x i (before y x i n there));
          entered = λ y x i there. elim (insert_in_sector-cases new id erased y x i there) [
            | inl (e, _) ↦ subst (λ j. has j g.members ≡ true) (sym e) member
            | inr still ↦ p.entered y x i (erase_from_sector-cases old id g.sectors y x i still).1
          ];
          listed = λ i m.
              at_lem
                (λ (q : Player).
                  has i (insert_in_sector new id erased q.sector.0 q.sector.1) ≡ true)
                id _ g.players i
                (λ e.
                  subst (λ j. has j (insert_in_sector new id erased new.0 new.1) ≡ true) (sym e)
                    (insert_in_sector-has new id erased))
                (λ n.
                  insert_in_sector-keeps new id erased _ _ i
                    (erase_from_sector-keeps old id g.sectors _ _ i n (p.listed i m)));
          valid = λ i.
              at_lem (λ (q : Player). is_valid_player q ≡ true → has i g.members ≡ true) id _
                g.players i (λ e v. subst (λ j. has j g.members ≡ true) (sym e) member)
                (λ n v. p.valid i v);
          known = p.known;
        })
    where
      old : ℕ × ℕ
      old = (g.players id).sector

      new : ℕ × ℕ
      new = get_player_sector_idx (g.players id)

      erased : ℕ → ℕ → List ℕ
      erased = erase_from_sector old id g.sectors

      before :
          (y x i : ℕ)
          → i ≢ id
          → has i (insert_in_sector new id erased y x) ≡ true
          → has i (g.sectors y x) ≡ true
      before y x i n there = elim (insert_in_sector-cases new id erased y x i there) [
        | inl (e, _) ↦ absurd (n e)
        | inr still ↦ (erase_from_sector-cases old id g.sectors y x i still).1
      ]
