-- ===== src/DummyClient/Sessions/Orderly.antt =====
-- What a session of the stress test sends, in every order of calls.
use rio_iocp_server.Prelude.{
  ℕ, ◌≤◌, ◌<◌, ◌≡◌, ◌≢◌, refl, sym, ap, subst, ◌∙◌, Bool, true, false, List, [], ◌∷◌, ◌++◌,
  append_assoc, append-nil, if◌then◌else◌, if_lem, if_true, if_false, ℕ_discrete as dec_eq, ◌==◌,
  length, All, arith, at_lem, at_self,
}
use rio_iocp_server.DummyClient.Sessions.{
  Client, ClientSession, Request, c2s_login, c2s_move, send, set_session,
}

-- The messages of one session.
abbrev pub requests : ℕ → List (ℕ × Request) → List Request
requests h [] = []
requests h ((k, r) ∷ rest) = let others = requests h rest in if k == h then r ∷ others else others

abbrev pub IsLogin : Request → Type 0
IsLogin (c2s_login _ _ _) = Unit
IsLogin (c2s_move _ _ _ _) = ⊥

abbrev pub IsMove : Request → Type 0
IsMove (c2s_login _ _ _) = ⊥
IsMove (c2s_move _ _ _ _) = Unit

-- At most one login, and then moves; no login before the session started one, and no move before it has
-- logged in.
pub record Orderly (started logged : Bool) (rs : List Request) : Type 0 where
  pub logins : List Request
  pub moves : List Request
  pub parts : rs ≡ logins ++ moves
  pub login_only : All IsLogin logins
  pub move_only : All IsMove moves
  pub once : length logins ≤ 1
  pub none_yet : started ≡ false → logins ≡ []
  pub no_moves : logged ≡ false → moves ≡ []

-- What holds of all sessions: each is orderly, and objects not made yet have sent nothing.
pub record OrderedIn (sessions : ℕ → ClientSession) (outbox : List (ℕ × Request)) (made : ℕ)
    (alive : ℕ → Bool) : Type 0 where
  pub orderly : (h : ℕ) → Orderly (sessions h).start_login (sessions h).login (requests h outbox)
  pub unused : (h : ℕ) → made ≤ h → requests h outbox ≡ []
  pub in_use : (h : ℕ) → alive h ≡ true → h < made

abbrev pub Ordered : Client → Type 0
Ordered c = OrderedIn c.sessions c.outbox c.made c.alive

requests-append :
    (h k : ℕ) (r : Request) (os : List (ℕ × Request))
    → requests h (os ++ (k, r) ∷ []) ≡ requests h os ++ (if k == h then r ∷ [] else [])
requests-append h k r [] = refl
requests-append h k r ((j, q) ∷ os) =
    if_lem
      (λ l.
        (if j == h then q ∷ requests h (os ++ (k, r) ∷ []) else requests h (os ++ (k, r) ∷ []))
        ≡ l ++ (if k == h then r ∷ [] else []))
      (j == h) (q ∷ requests h os) (requests h os)
      (λ e. if_true _ _ _ e ∙ ap (λ l. q ∷ l) (requests-append h k r os))
      (λ e. if_false _ _ _ e ∙ requests-append h k r os)

requests_own :
    (h : ℕ) (r : Request) (os : List (ℕ × Request))
    → requests h (os ++ (h, r) ∷ []) ≡ requests h os ++ r ∷ []
requests_own h r os =
    requests-append h h r os ∙ ap (λ l. requests h os ++ l) (if_true (h == h) _ _ (ground arith))

requests_other :
    (h k : ℕ) (r : Request) (os : List (ℕ × Request))
    → k ≢ h
    → requests h (os ++ (k, r) ∷ []) ≡ requests h os
requests_other h k r os n =
    requests-append h k r os
    ∙ ap (λ l. requests h os ++ l) (if_false (k == h) _ _ (ground (arith, n)))
    ∙ append-nil _

-- How a session stays orderly.
pub Orderly-nil : (started logged : Bool) → Orderly started logged []
Orderly-nil started logged = record {
  logins = [];
  moves = [];
  parts = refl;
  login_only = tt;
  move_only = tt;
  once = omega arith;
  none_yet = λ e. refl;
  no_moves = λ e. refl;
}

pub Orderly-start :
    (started logged : Bool) (rs : List Request) → Orderly started logged rs → Orderly true logged rs
Orderly-start started logged rs o = record {
  logins = o.logins;
  moves = o.moves;
  parts = o.parts;
  login_only = o.login_only;
  move_only = o.move_only;
  once = o.once;
  none_yet = λ e. ground (arith, e);
  no_moves = o.no_moves;
}

pub Orderly-login :
    (started logged : Bool) (rs : List Request) (r : Request)
    → started ≡ false
    → logged ≡ false
    → IsLogin r
    → Orderly started logged rs
    → Orderly true logged (rs ++ r ∷ [])
Orderly-login started logged rs r start login is_login o = record {
  logins = r ∷ [];
  moves = [];
  parts =
      ap (λ l. l ++ r ∷ [])
        (o.parts ∙ ap (λ l. l ++ o.moves) (o.none_yet start) ∙ o.no_moves login);
  login_only = (is_login, tt);
  move_only = tt;
  once = omega arith;
  none_yet = λ e. ground (arith, e);
  no_moves = λ e. refl;
}

pub Orderly-logged :
    (started logged : Bool) (rs : List Request)
    → Orderly started logged rs
    → Orderly started true rs
Orderly-logged started logged rs o = record {
  logins = o.logins;
  moves = o.moves;
  parts = o.parts;
  login_only = o.login_only;
  move_only = o.move_only;
  once = o.once;
  none_yet = o.none_yet;
  no_moves = λ e. ground (arith, e);
}

All-append : (xs ys : List Request) → All IsMove xs → All IsMove ys → All IsMove (xs ++ ys)
All-append [] ys p q = q
All-append (x ∷ xs) ys (p, ps) q = (p, All-append xs ys ps q)

pub Orderly-move :
    (started logged : Bool) (rs : List Request) (m : Request)
    → logged ≡ true
    → IsMove m
    → Orderly started logged rs
    → Orderly started logged (rs ++ m ∷ [])
Orderly-move started logged rs m login is_move o = record {
  logins = o.logins;
  moves = o.moves ++ m ∷ [];
  parts = ap (λ l. l ++ m ∷ []) o.parts ∙ append_assoc o.logins o.moves (m ∷ []);
  login_only = o.login_only;
  move_only = All-append o.moves (m ∷ []) o.move_only (is_move, tt);
  once = o.once;
  none_yet = o.none_yet;
  no_moves = λ e. ground (arith, e, login);
}

-- How all stay ordered, when one session changes or sends.
pub Ordered-set :
    (h : ℕ) (s : ClientSession) (c : Client)
    → Orderly s.start_login s.login (requests h c.outbox)
    → Ordered c
    → Ordered (set_session h s c)
Ordered-set h s c new o = record {
  orderly = λ k.
      at_lem (λ (t : ClientSession). Orderly t.start_login t.login (requests k c.outbox)) h s
        c.sessions k
        (λ e. subst (λ j. Orderly s.start_login s.login (requests j c.outbox)) (sym e) new)
        (λ e. o.orderly k);
  unused = o.unused;
  in_use = o.in_use;
}

pub Ordered-send :
    (h : ℕ) (r : Request) (c : Client)
    → h < c.made
    → Orderly (c.sessions h).start_login (c.sessions h).login (requests h c.outbox ++ r ∷ [])
    → Ordered c
    → Ordered (send h r c)
unfolding send
Ordered-send h r c used new o =
    if_lem (λ (d : Client). Ordered d) (c.sessions h).is_connected _ _
      (λ up. record {
        orderly = λ k. elim (dec_eq k h) [
          | yes e ↦
              subst
                (λ j.
                  Orderly (c.sessions j).start_login (c.sessions j).login
                    (requests j (c.outbox ++ (h, r) ∷ [])))
                (sym e)
                (subst (Orderly (c.sessions h).start_login (c.sessions h).login)
                  (sym (requests_own h r c.outbox)) new)
          | no n ↦
              subst (Orderly (c.sessions k).start_login (c.sessions k).login)
                (sym (requests_other k h r c.outbox (λ e. n (sym e)))) (o.orderly k)
        ];
        unused =
            λ k over. requests_other k h r c.outbox (omega (arith, used, over)) ∙ o.unused k over;
        in_use = o.in_use;
      })
      (λ down. o)

-- A session changes, and then sends.
pub Ordered-say :
    (h : ℕ) (s : ClientSession) (r : Request) (c : Client)
    → h < c.made
    → Orderly s.start_login s.login (requests h c.outbox)
    → Orderly s.start_login s.login (requests h c.outbox ++ r ∷ [])
    → Ordered c
    → Ordered (send h r (set_session h s c))
Ordered-say h s r c used silent said o =
    Ordered-send h r (set_session h s c) used
      (subst (λ (t : ClientSession). Orderly t.start_login t.login (requests h c.outbox ++ r ∷ []))
        (sym (at_self h s c.sessions)) said)
      (Ordered-set h s c silent o)
