-- ===== src/Packet/Framing.antt =====
-- What a stream of bytes says, independently of the loops that cut it (PacketHeader.h): packets, each
-- with its own length in its header, and behind them a packet that is not complete yet.
use rio_iocp_server.Prelude.{
  ℕ, ◌+◌, ◌*◌, ◌≤◌, ◌<◌, ◌≡◌, ap, ap₂, ◌∙◌, ◌⊎◌, List, ◌++◌, arith, length, get_or, drop,
  get_or-take, get_or-drop, All, flatten, get_or-append_left,
}
use rio_iocp_server.Memory.{slice}
use rio_iocp_server.Packet.{header_size, u16_at}

pub record IsPacket (packet : List ℕ) : Type 0 where
  pub whole : header_size ≤ length packet
  pub sized : u16_at packet 0 ≡ length packet

-- Not even a header, or less than its header says.
abbrev pub IsPartial : List ℕ → Type 0
IsPartial bytes = (length bytes < header_size) ⊎ (length bytes < u16_at bytes 0)

pub record Framed (bytes : List ℕ) (packets : List (List ℕ)) (rest : List ℕ) : Type 0 where
  pub parts : bytes ≡ flatten packets ++ rest
  pub packets_whole : All IsPacket packets
  pub rest_partial : IsPartial rest

-- A number in memory is the same number in a piece of the memory.
pub u16_at-slice :
    (buffer : List ℕ) (pos n : ℕ) → 2 ≤ n → u16_at (slice buffer pos n) 0 ≡ u16_at buffer pos
u16_at-slice buffer pos n h =
    ap₂ (λ a b. a + b * 256) (byte 0 (omega arith) ∙ ap (λ k. get_or buffer k 0) (omega arith))
      (byte 1 (omega arith))
  where
    byte : (k : ℕ) → k < n → get_or (slice buffer pos n) k 0 ≡ get_or buffer (pos + k) 0
    byte k l = get_or-take n (drop pos buffer) k 0 l ∙ get_or-drop pos buffer k 0

pub u16_at-append : (xs ys : List ℕ) → 2 ≤ length xs → u16_at (xs ++ ys) 0 ≡ u16_at xs 0
u16_at-append xs ys h =
    ap₂ (λ a b. a + b * 256) (get_or-append_left xs ys 0 0 (omega arith))
      (get_or-append_left xs ys 1 0 (omega arith))
