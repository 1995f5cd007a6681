-- ===== src/RioBuffer/Tests.antt =====
-- Runs of the send buffer (ServerCore/Network/RioBuffer.cpp), and its theorems at a concrete buffer.
use rio_iocp_server.Prelude.{◌≡◌, refl, [], ◌∷◌, arith}
use rio_iocp_server.RioBuffer.{RioBuffer, get_chunk_send_size}
use rio_iocp_server.RioBuffer.Unsent.{IsSending, unsent}

-- 1, 2, 3 and 4 from the fifth of six cells on, round the end; the first is handed over.
abbrev pub sending_one : RioBuffer
sending_one = record {
  ring = record {
    capacity = 6;
    size = 4;
    buffer = 3 ∷ 4 ∷ 0 ∷ 0 ∷ 1 ∷ 2 ∷ [];
    head_pos = 2;
    tail_pos = 4;
  };
  send_pos = 5;
}

pub sending_one-IsSending : IsSending sending_one 1
sending_one-IsSending = record { valid = omega arith; send_at = refl; held = omega arith }

unsent-sending_one : unsent sending_one 1 ≡ 2 ∷ 3 ∷ 4 ∷ []
unsent-sending_one = refl

-- The chunk ends where the memory ends.
get_chunk_send_size-sending_one : get_chunk_send_size sending_one ≡ 1
unfolding get_chunk_send_size
get_chunk_send_size-sending_one = refl
