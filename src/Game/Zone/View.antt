-- ===== src/Game/Zone/View.antt =====
-- `MovePlayer` of Zone.cpp: who is in the new view list.
use rio_iocp_server.Prelude.{
  same_id, ℕ, Bool, true, false, List, [], ◌∷◌, ◌≡◌, refl, sym, ap, ap₂, ◌∙◌, inl, inr, if_lem,
  ◌&&◌, ◌||◌, ◌==◌, has, insert, has-append, has-insert, arith,
}
use rio_iocp_server.Game.Defs.{Game}
use rio_iocp_server.Game.Position.Loops.{Among}
use rio_iocp_server.Game.Zone.{meet, look_around, is_seen, players_in}
use rio_iocp_server.Game.Zone.Same.{meet-Same}

pub players_in-has :
    (sectors : ℕ → ℕ → List ℕ) (view : List (ℕ × ℕ)) (y x id : ℕ)
    → Among (y, x) view
    → has id (sectors y x) ≡ true
    → has id (players_in sectors view) ≡ true
unfolding Among players_in
players_in-has sectors [] y x id h there = absurd h
players_in-has sectors ((v, u) ∷ view) y x id (inl e) there =
    has-append id (sectors v u) (players_in sectors view)
    ∙ ap (λ b. b || has id (players_in sectors view))
        (sym (ap (λ (c : ℕ × ℕ). has id (sectors c.0 c.1)) e) ∙ there)
players_in-has sectors ((v, u) ∷ view) y x id (inr h) there =
    has-append id (sectors v u) (players_in sectors view)
    ∙ ground (arith, players_in-has sectors view y x id h there)

seen_same : (id t target : ℕ) (g : Game) → is_seen (meet id target g) id t ≡ is_seen g id t
unfolding is_seen
seen_same id t target g = rw ((meet-Same id target g).same_players) refl

take_seen :
    (e n m s : Bool) → (e ≡ true → s ≡ true) → ((e || n) || (m && s)) ≡ (n || ((e || m) && s))
take_seen true n m s h = ground (arith, h refl)
take_seen false n m s h = refl

skip_unseen : (e n m s : Bool) → (e ≡ true → s ≡ false) → (n || (m && s)) ≡ (n || ((e || m) && s))
skip_unseen true n m s h = ground (arith, h refl)
skip_unseen false n m s h = refl

pub look_around-has :
    (id t : ℕ) (targets new_view_list : List ℕ) (g : Game)
    → has t (look_around id targets new_view_list g).0
      ≡ (has t new_view_list || (has t targets && is_seen g id t))
unfolding look_around has
look_around-has id t [] new_view_list g = ground arith
look_around-has id t (target ∷ targets) new_view_list g =
    if_lem
      (λ (r : List ℕ × Game).
        has t r.0 ≡ (has t new_view_list || (((t == target) || has t targets) && is_seen g id t)))
      (is_seen g id target) _ _
      (λ seen.
        look_around-has id t targets (insert target new_view_list) (meet id target g)
        ∙ ap₂ (λ a b. a || (has t targets && b)) (has-insert t target new_view_list)
            (seen_same id t target g)
        ∙ take_seen (t == target) (has t new_view_list) (has t targets) (is_seen g id t)
            (λ e. ap (is_seen g id) (same_id t target e) ∙ seen))
      (λ skipped.
        look_around-has id t targets new_view_list g
        ∙ skip_unseen (t == target) (has t new_view_list) (has t targets) (is_seen g id t)
            (λ e. ap (is_seen g id) (same_id t target e) ∙ skipped))
