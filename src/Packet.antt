-- ===== src/Packet.antt =====
-- ServerCore/Network/PacketHeader.h, and the loop `OnRecv` of RioSession.cpp and IocpSession.cpp that
-- cuts the received bytes into packets.
-- A header is four bytes, two little-endian `unsigned short`. `OnRecvPacket` is virtual; the model
-- returns the arguments of its calls in order: the bytes of each packet.
pub mod Framing
pub mod Prefix
pub mod OnRecv
mod Tests
use rio_iocp_server.Prelude.{
  ℕ, zero, suc, ◌+◌, ◌-◌, ◌*◌, ◌/◌, ◌%◌, Bool, List, [], ◌∷◌, ltb, leb, if◌then◌else◌, Outcome, ok,
  ub, running, ◌>>=◌, get_or, length,
}
use rio_iocp_server.Memory.{slice}

pub record PacketHeader : Type 0 where
  pub size : ℕ
  pub id : ℕ

-- `sizeof(PacketHeader)`, under `#pragma pack(1)`.
abbrev pub header_size : ℕ
header_size = 4

-- An `unsigned short` in memory, and back.
abbrev pub u16_bytes : ℕ → List ℕ
u16_bytes n = n % 256 ∷ (n / 256) % 256 ∷ []

abbrev pub u16_at : List ℕ → ℕ → ℕ
u16_at buffer i = get_or buffer i 0 + get_or buffer (i + 1) 0 * 256

-- `*(reinterpret_cast<PacketHeader*>(&buffer[i]))`
unfoldable pub read_header : List ℕ → ℕ → Outcome PacketHeader
read_header buffer i =
    if leb (i + header_size) (length buffer)
    then ok (record { size = u16_at buffer i; id = u16_at buffer (i + 2) })
    else ub

-- The calls of `OnRecvPacket`, and `processLen`.
abbrev pub Received : Type 0
Received = List (List ℕ) × ℕ

abbrev pub deliver : List ℕ → Outcome Received → Outcome Received
deliver packet rest = rest >>= λ (packets, process_len). ok (packet ∷ packets, process_len)

-- The loop of `RioSession::OnRecv`.
unfoldable pub rio_loop : ℕ → List ℕ → ℕ → ℕ → Outcome Received
rio_loop zero buffer len process_len = running
rio_loop (suc fuel) buffer len process_len =
    let stop : Outcome Received = ok ([], process_len) in
    let parse = read_header buffer process_len >>= λ header.
    let next =
      deliver (slice buffer process_len header.size)
        (rio_loop fuel buffer len (process_len + header.size)) in
    if ltb (len - process_len) header.size then stop else next in
    if leb len process_len
    then stop
    else (if ltb (len - process_len) header_size then stop else parse)

unfoldable pub rio_on_recv : ℕ → List ℕ → ℕ → Outcome Received
rio_on_recv fuel buffer len = rio_loop fuel buffer len 0

-- The loop of `IocpSession::OnRecv`.
unfoldable pub iocp_loop : ℕ → List ℕ → ℕ → ℕ → Outcome Received
iocp_loop zero buffer len process_len = running
iocp_loop (suc fuel) buffer len process_len =
    let data_size : ℕ = len - process_len in
    let parse = read_header buffer process_len >>= λ header.
    let next =
      deliver (slice buffer process_len header.size)
        (iocp_loop fuel buffer len (process_len + header.size)) in
    if ltb data_size header.size then ok ([], process_len) else next in
    if ltb data_size header_size then ok ([], process_len) else parse

unfoldable pub iocp_on_recv : ℕ → List ℕ → ℕ → Outcome Received
iocp_on_recv fuel buffer len = iocp_loop fuel buffer len 0
