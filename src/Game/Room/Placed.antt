-- ===== src/Game/Room/Placed.antt =====
-- Room.cpp and Zone.cpp: every player of the room is in the set of one sector, the one that it has
-- noted.
use rio_iocp_server.Prelude.{
  ℕ, ◌≤◌, true, false, ◌≡◌, sym, ap, ◌∙◌, inl, inr, ◌==◌, has, insert, arith, subst, Bool-cases,
  same_id, other_id,
}
use rio_iocp_server.Game.Defs.{Game, Player, disconnected, at, is_valid_player}
use rio_iocp_server.Game.Room.{
  get_player_sector_idx, insert_in_sector, erase_from_sector, enter_room, logout,
}
use rio_iocp_server.Game.Room.Sectors.{
  at_lem, at_self, at_other, insert-cases, insert-keeps, insert-has, erase-cases, erase-keeps,
  insert_in_sector-cases, insert_in_sector-keeps, insert_in_sector-has, erase_from_sector-cases,
  erase_from_sector-keeps,
}

pub record Placed (g : Game) : Type 0 where
  -- A player in a sector's set has noted this sector.
  pub noted : (y x id : ℕ) → has id (g.sectors y x) ≡ true → (g.players id).sector ≡ (y, x)
  -- It is in the room's map.
  pub entered : (y x id : ℕ) → has id (g.sectors y x) ≡ true → has id g.members ≡ true
  -- A player in the map is in the set of its sector.
  pub listed :
      (id : ℕ)
      → has id g.members ≡ true
      → has id (g.sectors (g.players id).sector.0 (g.players id).sector.1) ≡ true
  -- A connected player is in the map.
  pub valid : (id : ℕ) → is_valid_player (g.players id) ≡ true → has id g.members ≡ true
  -- Its id was given.
  pub known : (id : ℕ) → has id g.members ≡ true → id ≤ g.session_cnt

pub enter_room-Placed :
    (id : ℕ) (g : Game)
    → Placed g
    → ¬ (has id g.members ≡ true)
    → id ≤ g.session_cnt
    → Placed (enter_room id g)
unfolding enter_room
enter_room-Placed id g p new given = record {
  noted = λ y x i h.
      at_lem (λ (q : Player). q.sector ≡ (y, x)) id _ g.players i
        (λ e. elim (insert_in_sector-cases idx id g.sectors y x i h) [
          | inl (_, here) ↦ sym here
          | inr old ↦ absurd (new (subst (λ j. has j g.members ≡ true) e (p.entered y x i old)))
        ])
        (λ n. elim (insert_in_sector-cases idx id g.sectors y x i h) [
          | inl (e, _) ↦ absurd (n e)
          | inr old ↦ p.noted y x i old
        ]);
  entered = λ y x i h. elim (insert_in_sector-cases idx id g.sectors y x i h) [
    | inl (e, _) ↦ subst (λ j. has j (insert id g.members) ≡ true) (sym e) (insert-has id g.members)
    | inr old ↦ insert-keeps i id g.members (p.entered y x i old)
  ];
  listed = λ i h.
      at_lem
        (λ (q : Player). has i (insert_in_sector idx id g.sectors q.sector.0 q.sector.1) ≡ true) id
        _ g.players i
        (λ e.
          subst (λ j. has j (insert_in_sector idx id g.sectors idx.0 idx.1) ≡ true) (sym e)
            (insert_in_sector-has idx id g.sectors))
        (λ n. elim (insert-cases i id g.members h) [
          | inl e ↦ absurd (n e)
          | inr old ↦ insert_in_sector-keeps idx id g.sectors _ _ i (p.listed i old)
        ]);
  valid = λ i h. elim (Bool-cases (i == id)) [
    | inl e ↦
        subst (λ j. has j (insert id g.members) ≡ true) (sym (same_id i id e))
          (insert-has id g.members)
    | inr e ↦
        insert-keeps i id g.members
          (p.valid i (sym (ap is_valid_player (at_other id _ g.players i (other_id i id e))) ∙ h))
  ];
  known = λ i h. elim (insert-cases i id g.members h) [
    | inl e ↦ omega (arith, e, given)
    | inr old ↦ p.known i old
  ];
}
  where
    idx : ℕ × ℕ
    idx = get_player_sector_idx (g.players id)

pub logout-Placed : (id : ℕ) (g : Game) → Placed g → Placed (logout id g)
unfolding logout
logout-Placed id g p = record {
  noted = λ y x i h.
      let (apart, old) = erase_from_sector-cases idx id g.sectors y x i h in
      at_lem (λ (q : Player). q.sector ≡ (y, x)) id _ g.players i
        (λ e. absurd (apart (sym (p.noted y x i old) ∙ ap (λ j. (g.players j).sector) e) e))
        (λ n. p.noted y x i old);
  entered = λ y x i h.
      let (apart, old) = erase_from_sector-cases idx id g.sectors y x i h in
      erase-keeps i id g.members
        (λ e. apart (sym (p.noted y x i old) ∙ ap (λ j. (g.players j).sector) e) e)
        (p.entered y x i old);
  listed = λ i h.
      let (n, old) = erase-cases i id g.members h in
      at_lem
        (λ (q : Player). has i (erase_from_sector idx id g.sectors q.sector.0 q.sector.1) ≡ true) id
        _ g.players i (λ e. absurd (n e))
        (λ m. erase_from_sector-keeps idx id g.sectors _ _ i n (p.listed i old));
  valid = λ i h. elim (Bool-cases (i == id)) [
    | inl e ↦ absurd (down (same_id i id e) h)
    | inr e ↦
        erase-keeps i id g.members (other_id i id e)
          (p.valid i (sym (ap is_valid_player (at_other id _ g.players i (other_id i id e))) ∙ h))
  ];
  known = λ i h. p.known i (erase-cases i id g.members h).1;
}
  where
    idx : ℕ × ℕ
    idx = (g.players id).sector

    gone : Player
    gone = record (g.players id) { state = disconnected }

    down : {i : ℕ} → i ≡ id → ¬ (is_valid_player (at id gone g.players i) ≡ true)
    down e h =
        let off : is_valid_player (at id gone g.players id) ≡ false =
          ap is_valid_player (at_self id gone g.players) in
        let on = subst (λ j. is_valid_player (at id gone g.players j) ≡ true) e h in
        ground (arith, sym off ∙ on)
