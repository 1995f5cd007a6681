-- ===== src/DummyClient/Sessions/Keeps.antt =====
-- What the sessions of the stress test do keeps them orderly, call by call.
use rio_iocp_server.Prelude.{
  ℕ, ◌+◌, ◌-◌, wrap_int, ◌<◌, ◌≡◌, refl, sym, subst, Bool, true, false, not, ◌&&◌, Option, none,
  some, List, if◌then◌else◌, if_lem, ◌==◌, arith, IfOk, IfOk-bind_any, at, at_lem, at_self, ltb,
}
use rio_iocp_server.Packet.{PacketHeader, read_header, header_size}
use rio_iocp_server.Memory.{slice}
use rio_iocp_server.DummyClient.Moves.{update}
use rio_iocp_server.Game.Defs.{PosInfo}
use rio_iocp_server.DummyClient.Sessions.{
  Client, ClientSession, c2s_login, c2s_move, eq_ℤ, Outside, LoginResult, MoveResult, sized,
  is_ignored, set_session, close, handle_packet, login_result, move_result, send_login, send_move,
  on_connected, add_session, find,
}
use rio_iocp_server.DummyClient.Sessions.Manager.{
  login_session, send_to_session, disconnect_session, connect_new, new_session, with_session,
  locked,
}
use rio_iocp_server.DummyClient.Sessions.Orderly.{
  Ordered, Orderly, requests, Orderly-nil, Orderly-start, Orderly-login, Orderly-logged,
  Orderly-move, Ordered-set, Ordered-say,
}

pub close-Ordered : (h : ℕ) (c : Client) → Ordered c → Ordered (close h c)
unfolding close
close-Ordered h c o = Ordered-set h _ c (o.orderly h) o

module _ (outside : Outside) where
  pub send_login-Ordered :
      (h : ℕ) (c : Client)
      → h < c.made
      → (c.sessions h).start_login ≡ false
      → (c.sessions h).login ≡ false
      → Ordered c
      → Ordered (send_login outside h c)
  unfolding send_login
  send_login-Ordered h c used start login o =
      let s = c.sessions h in
      let rs = requests h c.outbox in
      let pkt = c2s_login c.login_num (outside.player_type c) (wrap_int (outside.clock 0 c)) in
      Ordered-say h (record s { start_login = true }) pkt (record c { login_num = c.login_num + 1 })
        used (Orderly-start s.start_login s.login rs (o.orderly h))
        (Orderly-login s.start_login s.login rs pkt start login tt (o.orderly h)) o

  pub send_move-Ordered :
      (h : ℕ) (c : Client)
      → h < c.made
      → (c.sessions h).login ≡ true
      → Ordered c
      → Ordered (send_move outside h c)
  unfolding send_move
  send_move-Ordered h c used login o =
      let s = c.sessions h in
      let moved = update outside.sqrtf (outside.draws c) 1 s.pos_info in
      let pkt = c2s_move s.session_id true moved (outside.clock 0 c) in
      Ordered-say h (record s { pos_info = moved }) pkt c used (o.orderly h)
        (Orderly-move s.start_login s.login (requests h c.outbox) pkt login tt (o.orderly h)) o

  pub send_to_session-Ordered :
      (h : ℕ) (c : Client) → h < c.made → Ordered c → Ordered (send_to_session outside h c)
  unfolding send_to_session
  send_to_session-Ordered h c used o =
      if_lem (λ (d : Client). Ordered d) (c.sessions h).login _ _
        (λ login. send_move-Ordered h c used login o)
        (λ out.
          if_lem (λ (d : Client). Ordered d)
            ((c.sessions h).connect && not (c.sessions h).start_login) _ _
            (λ go. send_login-Ordered h c used (ground (arith, go)) out o) (λ stay. o))

  pub login_session-Ordered :
      (h : ℕ) (c : Client) → h < c.made → Ordered c → Ordered (login_session outside h c)
  unfolding login_session
  login_session-Ordered h c used o =
      if_lem (λ (d : Client). Ordered d)
        (not (c.sessions h).login && (c.sessions h).connect && not (c.sessions h).start_login) _ _
        (λ go. send_login-Ordered h c used (ground (arith, go)) (ground (arith, go)) o) (λ stay. o)

  pub disconnect_session-Ordered :
      (h : ℕ) (c : Client) → h < c.made → Ordered c → Ordered (disconnect_session outside h c)
  unfolding disconnect_session
  disconnect_session-Ordered h c used o =
      if_lem (λ (d : Client). Ordered d) (c.sessions h).is_connected _ _ (λ up. close-Ordered h c o)
        (λ down. o)

  pub with_session-Ordered :
      (act : ℕ → Client → Client) (id : ℕ) (c : Client)
      → ((h : ℕ) → h < c.made → Ordered c → Ordered (act h c))
      → Ordered c
      → Ordered (with_session outside act id c)
  with_session-Ordered act id c keeps o = for_session (find id c.table)
    where
      for_session :
          (found : Option ℕ)
          → Ordered
              (elim (elim found as (λ r. Option ℕ) [
                | none ↦ none
                | some h ↦ if c.alive h then some h else none
              ])
                as (λ r. Client) [ none ↦ c | some h ↦ act h c ])
      for_session none = o
      for_session (some h) =
          if_lem
            (λ (l : Option ℕ). Ordered (elim l as (λ r. Client) [ none ↦ c | some k ↦ act k c ]))
            (c.alive h) (some h) none (λ up. keeps h (o.in_use h up) o) (λ down. o)

  -- `SendMove` of the manager, when the session that it finds has logged in.
  pub manager_send_move-Ordered :
      (id : ℕ) (c : Client)
      → ((h : ℕ) → locked outside id c ≡ some h → (c.sessions h).login ≡ true)
      → Ordered c
      → Ordered (with_session outside (send_move outside) id c)
  manager_send_move-Ordered id c logged o = for_session (find id c.table) logged
    where
      for_session :
          (found : Option ℕ)
          → ((h : ℕ)
              → (elim found as (λ r. Option ℕ) [
                | none ↦ none
                | some k ↦ if c.alive k then some k else none
              ])
                ≡ some h
              → (c.sessions h).login ≡ true)
          → Ordered
              (elim (elim found as (λ r. Option ℕ) [
                | none ↦ none
                | some k ↦ if c.alive k then some k else none
              ])
                as (λ r. Client) [ none ↦ c | some h ↦ send_move outside h c ])
      for_session none in_login = o
      for_session (some h) in_login =
          if_lem
            (λ (l : Option ℕ).
              ((k : ℕ) → l ≡ some k → (c.sessions k).login ≡ true)
              → Ordered (elim l as (λ r. Client) [ none ↦ c | some k ↦ send_move outside k c ]))
            (c.alive h) (some h) none
            (λ up found. send_move-Ordered h c (o.in_use h up) (found h refl) o) (λ down found. o)
            in_login

  pub connect_new-Ordered :
      (unset : PosInfo) (c : Client) → Ordered c → Ordered (connect_new outside unset c)
  unfolding connect_new on_connected add_session
  connect_new-Ordered unset c o =
      let h : ℕ = c.made in
      let made = record c { made = c.made + 1; alive = at h true c.alive } in
      let nothing : Orderly false false (requests h c.outbox) =
        subst (Orderly false false) (sym (o.unused h (omega arith))) (Orderly-nil false false) in
      let before : Ordered made = record {
        orderly = o.orderly;
        unused = λ k over. o.unused k (omega (arith, over));
        in_use = λ k.
            at_lem (λ b. b ≡ true → k < c.made + 1) h true c.alive k (λ e up. omega (arith, e))
              (λ e up. omega (arith, o.in_use k up));
      } in
      Ordered-set h _ (set_session h (new_session outside unset) made)
        (subst (λ (t : ClientSession). Orderly t.start_login t.login (requests h c.outbox))
          (sym (at_self h (new_session outside unset) c.sessions)) nothing)
        (Ordered-set h (new_session outside unset) made nothing before)

  pub login_result-Ordered :
      (h : ℕ) (pkt : LoginResult) (c : Client)
      → Ordered c
      → Ordered ((login_result outside h pkt c).1)
  unfolding login_result
  login_result-Ordered h pkt c o =
      if_lem (λ (d : Bool × Client). Ordered d.1) (not pkt.result) _ _
        (λ refused. Ordered-set h _ c (o.orderly h) o)
        (λ good. Ordered-set h _ c (Orderly-logged _ _ _ (o.orderly h)) o)

  pub move_result-Ordered :
      (h : ℕ) (pkt : MoveResult) (c : Client)
      → Ordered c
      → Ordered ((move_result outside h pkt c).1)
  unfolding move_result
  move_result-Ordered h pkt c o =
      if_lem (λ (d : Bool × Client). Ordered d.1)
        (not (eq_ℤ pkt.session_id (c.sessions h).session_id)) _ _ (λ other. o) (λ own. o)

  pub sized-Ordered :
      (header : PacketHeader) (buffer : List ℕ) (len : ℕ) (c : Client)
      (handle : List ℕ → Bool × Client)
      → ((m : List ℕ) → Ordered (handle m).1)
      → Ordered c
      → IfOk (λ (d : Bool × Client). Ordered d.1) (sized outside header buffer len c handle)
  sized-Ordered header buffer len c handle keeps o =
      if_lem (IfOk (λ (d : Bool × Client). Ordered d.1)) (ltb len header.size) _ _ (λ short. o)
        (λ long.
          if_lem (IfOk (λ (d : Bool × Client). Ordered d.1)) (ltb len header_size) _ _ (λ bad. tt)
            (λ good. keeps (slice buffer header_size (len - header_size))))

  pub handle_packet-Ordered :
      (h : ℕ) (buffer : List ℕ) (len : ℕ) (c : Client)
      → Ordered c
      → IfOk (λ (d : Bool × Client). Ordered d.1) (handle_packet outside h buffer len c)
  unfolding handle_packet
  handle_packet-Ordered h buffer len c o =
      let P = λ (d : Bool × Client). Ordered d.1 in
      IfOk-bind_any P (read_header buffer 0) _ (λ header.
        if_lem (IfOk P) (header.id == 5) _ _
          (λ e.
            sized-Ordered header buffer len c
              (λ m. move_result outside h (outside.parse_move_result m) c)
              (λ m. move_result-Ordered h (outside.parse_move_result m) c o) o)
          (λ e.
            if_lem (IfOk P) (is_ignored header.id) _ _ (λ e. o)
              (λ e.
                if_lem (IfOk P) (header.id == 2) _ _
                  (λ e.
                    sized-Ordered header buffer len c
                      (λ m. login_result outside h (outside.parse_login_result m) c)
                      (λ m. login_result-Ordered h (outside.parse_login_result m) c o) o)
                  (λ e. o))))
