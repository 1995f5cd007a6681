-- ===== src/DummyClient/Sessions/Handled.antt =====
-- The packets of the server at a client of the stress test: `_CreateNetBuffer` of the server, and
-- `OnRecvPacket` of the client on the bytes.
use rio_iocp_server.Prelude.{
  ℕ, ◌+◌, ◌-◌, ◌^◌, ◌<◌, ◌≡◌, refl, sym, ap, ap₂, subst, ◌∙◌, Bool, true, false, not, ◌&&◌, ◌||◌,
  List, if◌then◌else◌, if_true, if_false, if_lem, le→leb, if_ok, ge→ltb, ◌==◌, ℤ, pos, ok, ub,
  bind_ok, length, arith, at_self, take-length,
}
use rio_iocp_server.Packet.{PacketHeader, header_size, read_header, u16_at}
use rio_iocp_server.NetBuffer.RoundTrip.{packet_bytes}
use rio_iocp_server.Game.Defs.{
  PosInfo, Message, s2c_login_result, s2c_move, s2c_move_result, s2c_enter, s2c_leave, s2c_chat,
}
use rio_iocp_server.Game.Messages.{proto_id}
use rio_iocp_server.DummyClient.Sessions.{
  Client, Outside, LoginResult, MoveResult, ClientSession, is_ignored, eq_ℤ, sized, handle_packet,
  login_result, move_result, on_recv_packet, close, set_session,
}

-- What `ParseFromArray` makes of the bytes of a message: its members.
abbrev pub IsRead : Outside → List ℕ → Message → Type 0
IsRead outside bytes (s2c_login_result id result login_time _ _ pos_info) =
    outside.parse_login_result bytes
    ≡ record { session_id = pos id; result = result; pos_info = pos_info; login_time = login_time }
IsRead outside bytes (s2c_move_result id time_stamp process_time send_time recv_time) =
    outside.parse_move_result bytes ≡ record {
      session_id = pos id;
      time_stamp = time_stamp;
      process_time = process_time;
      send_time = send_time;
      recv_time = recv_time;
    }
IsRead outside bytes (s2c_move _ _ _ _) = Unit
IsRead outside bytes (s2c_enter _ _ _ _ _ _) = Unit
IsRead outside bytes (s2c_leave _ _) = Unit
IsRead outside bytes (s2c_chat _ _ _ _) = Unit

-- The switch of `HandlePacket`, when the packet is whole.
abbrev switch : Outside → ℕ → ℕ → List ℕ → Client → Bool × Client
switch outside id h message c =
    if id == 5
    then move_result outside h (outside.parse_move_result message) c
    else (if is_ignored id
        then (true, c)
        else (if id == 2
            then login_result outside h (outside.parse_login_result message) c
            else (false, c)))

read_bytes :
    (message : List ℕ) (id : ℕ)
    → length message + header_size < 2 ^ 16
    → id < 2 ^ 16
    → read_header (packet_bytes message id) 0
      ≡ ok (record { size = length message + header_size; id = id })
unfolding read_header
read_bytes message id small known =
    if_true _ _ ub (le→leb (0 + header_size) (length (packet_bytes message id)) (omega arith))
    ∙ ap₂ (λ (size id : ℕ). ok (record { size = size; id = id }))
        {x = u16_at (packet_bytes message id) 0} {u = u16_at (packet_bytes message id) 2}
        (omega (arith, small)) (omega (arith, known))

sized_lem :
    (outside : Outside) (header : PacketHeader) (message : List ℕ) (id : ℕ) (c : Client)
    (handle : List ℕ → Bool × Client)
    → header.size ≡ length message + header_size
    → sized outside header (packet_bytes message id) (length (packet_bytes message id)) c handle
      ≡ ok (handle message)
sized_lem outside header message id c handle whole =
    let len : ℕ = length (packet_bytes message id) in
    if_false _ (ok (false, c)) _ (ge→ltb len header.size (omega (arith, whole)))
    ∙ if_false _ ub _ (ge→ltb len header_size (omega arith))
    ∙ ap (λ m. ok (handle m)) (take-length (len - header_size) message (omega arith))

handle_packet-bytes :
    (outside : Outside) (h : ℕ) (message : List ℕ) (id : ℕ) (c : Client)
    → length message + header_size < 2 ^ 16
    → id < 2 ^ 16
    → handle_packet outside h (packet_bytes message id) (length (packet_bytes message id)) c
      ≡ ok (switch outside id h message c)
unfolding handle_packet
handle_packet-bytes outside h message id c small known =
    let header : PacketHeader = record { size = length message + header_size; id = id } in
    bind_ok header _ (read_bytes message id small known)
    ∙ if_ok (id == 5)
        (sized_lem outside header message id c
          (λ m. move_result outside h (outside.parse_move_result m) c) refl)
        (if_ok (is_ignored id) {x' = (true, c)} refl (
          if_ok (id == 2) {y' = (false, c)}
            (sized_lem outside header message id c
              (λ m. login_result outside h (outside.parse_login_result m) c) refl)
            refl))

-- What a message of the server does to the session that it is for.
abbrev pub IsAnswered : ClientSession → ClientSession → Message → Type 0
IsAnswered s s' (s2c_login_result id result _ _ _ pos_info) =
    (s'.session_id ≡ pos id)
    × (s'.is_connected ≡ (result && s.is_connected))
    × (s'.login ≡ (result || s.login))
    × (result ≡ true → s'.pos_info ≡ pos_info)
IsAnswered s s' (s2c_move_result id _ _ _ _) =
    s' ≡ record s { is_connected = eq_ℤ (pos id) s.session_id && s.is_connected }
IsAnswered s s' (s2c_move _ _ _ _) = s' ≡ s
IsAnswered s s' (s2c_enter _ _ _ _ _ _) = s' ≡ s
IsAnswered s s' (s2c_leave _ _) = s' ≡ s
IsAnswered s s' (s2c_chat _ _ _ _) = s' ≡ s

abbrev hang_up : ℕ → Bool × Client → Client
hang_up h (handled, c) = if handled then c else close h c

login_answer :
    (outside : Outside) (h id : ℕ) (result : Bool) (p : PosInfo) (t type : ℤ) (str : List ℕ)
    (c : Client)
    → let pkt : LoginResult = record {
      session_id = pos id;
      result = result;
      pos_info = p;
      login_time = t;
    } in
      IsAnswered
        (c.sessions h)
        ((hang_up h (login_result outside h pkt c)).sessions h)
        (s2c_login_result id result t type str p)
unfolding login_result close
login_answer outside h id true p t type str c =
    subst (λ s'. IsAnswered (c.sessions h) s' (s2c_login_result id true t type str p))
      (sym (at_self h _ c.sessions)) (refl, refl, refl, λ yes. refl)
login_answer outside h id false p t type str c =
    let named = record (c.sessions h) { session_id = pos id } in
    let c1 = set_session h named c in
    subst (λ s'. IsAnswered (c.sessions h) s' (s2c_login_result id false t type str p))
      (sym (at_self h (record (c1.sessions h) { is_connected = false }) c1.sessions))
      (subst
        (λ (s' : ClientSession).
          IsAnswered (c.sessions h) (record s' { is_connected = false })
            (s2c_login_result id false t type str p))
        (sym (at_self h named c.sessions)) (refl, refl, refl, λ yes. absurd (ground (arith, yes))))

move_answer :
    (outside : Outside) (h : ℕ) (pkt : MoveResult) (c : Client)
    → let s = c.sessions h in
      (hang_up h (move_result outside h pkt c)).sessions h
      ≡ record s { is_connected = eq_ℤ pkt.session_id s.session_id && s.is_connected }
unfolding move_result close
move_answer outside h pkt c =
    let s = c.sessions h in
    let own = eq_ℤ pkt.session_id s.session_id in
    let keeps = λ (b : Bool). record s { is_connected = b && s.is_connected } in
    if_lem (λ (r : Bool × Client). (hang_up h r).sessions h ≡ keeps own) (not own) _ _
      (λ differs.
        at_self h (keeps false) c.sessions ∙ ap keeps {x = false} (ground (arith, differs)))
      (λ same. ap keeps {x = true} (ground (arith, same)))

-- The switch has a case for each message of the server.
switch_lem :
    (outside : Outside) (h : ℕ) (bytes : List ℕ) (m : Message) (c : Client)
    → IsRead outside bytes m
    → IsAnswered (c.sessions h) ((hang_up h (switch outside (proto_id m) h bytes c)).sessions h) m
switch_lem outside h bytes (s2c_login_result id result time type str p) c read =
    subst
      (λ pkt.
        IsAnswered (c.sessions h) ((hang_up h (login_result outside h pkt c)).sessions h)
          (s2c_login_result id result time type str p))
      (sym read) (login_answer outside h id result p time type str c)
switch_lem outside h bytes (s2c_move_result id ts pt st rt) c read =
    subst
      (λ pkt.
        IsAnswered (c.sessions h) ((hang_up h (move_result outside h pkt c)).sessions h)
          (s2c_move_result id ts pt st rt))
      (sym read) (move_answer outside h _ c)
switch_lem outside h bytes (s2c_move _ _ _ _) c read = refl
switch_lem outside h bytes (s2c_enter _ _ _ _ _ _) c read = refl
switch_lem outside h bytes (s2c_leave _ _) c read = refl
switch_lem outside h bytes (s2c_chat _ _ _ _) c read = refl

small_id : (m : Message) → proto_id m < 2 ^ 16
small_id (s2c_login_result _ _ _ _ _ _) = omega arith
small_id (s2c_move_result _ _ _ _ _) = omega arith
small_id (s2c_move _ _ _ _) = omega arith
small_id (s2c_enter _ _ _ _ _ _) = omega arith
small_id (s2c_leave _ _) = omega arith
small_id (s2c_chat _ _ _ _) = omega arith

-- Every message that the server can send, put into a packet of fewer than 2 ^ 16 bytes by the server's
-- `_CreateNetBuffer`, at a session of the stress test whose `ParseFromArray` gives back its members:
-- `OnRecvPacket` returns. A login result gives the session its id, and logs it in at its position or, if
-- it says no, ends it. A move result ends the session if it is for another id. Every other message of
-- the server leaves the session as it is.
pub on_recv_packet-message :
    (outside : Outside) (serialize : Message → List ℕ) (h : ℕ) (m : Message) (c : Client)
    → length (serialize m) + header_size < 2 ^ 16
    → IsRead outside (serialize m) m
    → (c' : Client) × (on_recv_packet outside h (packet_bytes (serialize m) (proto_id m)) c ≡ ok c')
      × IsAnswered (c.sessions h) (c'.sessions h) m
unfolding on_recv_packet
on_recv_packet-message outside serialize h m c small read = (
  hang_up h (switch outside (proto_id m) h (serialize m) c),
  bind_ok _ (λ r. ok (hang_up h r))
      (handle_packet-bytes outside h (serialize m) (proto_id m) c small (small_id m)),
  switch_lem outside h (serialize m) m c read,
)
