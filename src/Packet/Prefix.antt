-- ===== src/Packet/Prefix.antt =====
-- Cutting a stream of packets (PacketHeader.h) at any byte.
use rio_iocp_server.Prelude.{
  ℕ, ◌≤◌, ◌<◌, ◌≡◌, refl, sym, ap, ◌∙◌, inl, inr, List, [], ◌∷◌, ◌++◌, arith, length, take, drop,
  All, flatten, length-append, append_assoc, drop-append, drop-append_le, take-append-drop, dec_lt,
  take-append, take-append_le, subst,
}
use rio_iocp_server.Packet.{header_size, u16_at}
use rio_iocp_server.Packet.Framing.{IsPacket, IsPartial, Framed, u16_at-append}

-- A stream `a ++ b` is the packets that `a` completes, and those that `b` completes.
pub record Cut (a b : List ℕ) (packets : List (List ℕ)) (rest : List ℕ) : Type 0 where
  pub first : List (List ℕ)
  pub between : List ℕ
  pub second : List (List ℕ)
  pub together : packets ≡ first ++ second
  pub before : Framed a first between
  pub behind : Framed (between ++ b) second rest
  pub bounded : (k : ℕ) → All (λ p. length p ≤ k) packets → length rest ≤ k → length between ≤ k
  pub bounded_second : (k : ℕ) → All (λ p. length p ≤ k) packets → All (λ p. length p ≤ k) second

-- The front of an incomplete packet is incomplete.
IsPartial-front : (a b : List ℕ) → IsPartial (a ++ b) → IsPartial a
IsPartial-front a b p = elim (dec_lt (length a) header_size) [
  | yes h ↦ inl h
  | no h ↦ ground (arith, p, length-append a b, u16_at-append a b)
]

-- The front of a packet is incomplete.
packet_front :
    (a b packet more : List ℕ)
    → a ++ b ≡ packet ++ more
    → IsPacket packet
    → length a < length packet
    → IsPartial a
packet_front a b packet more e w h = elim (dec_lt (length a) header_size) [
  | yes l ↦ inl l
  | no l ↦
      inr (omega (arith, w, ap (λ l. u16_at l 0) e, u16_at-append a b, u16_at-append packet more))
]

-- The front contains the whole packet.
packet_inside :
    (a b packet more : List ℕ)
    → a ++ b ≡ packet ++ more
    → length packet ≤ length a
    → a ≡ packet ++ drop (length packet) a
packet_inside a b packet more e h =
    sym (take-append-drop (length packet) a)
    ∙ ap (λ l. l ++ drop (length packet) a)
        (sym (take-append_le (length packet) a b h)
          ∙ ap (take (length packet)) e
          ∙ take-append (length packet) packet more refl)

-- A packet before a cut that is known.
Cut-behind :
    (p : List ℕ) (packets : List (List ℕ)) (a b rest : List ℕ)
    → Framed (a ++ b) (p ∷ packets) rest
    → length p ≤ length a
    → Cut (drop (length p) a) b packets rest
    → Cut a b (p ∷ packets) rest
unfolding flatten
Cut-behind p packets a b rest f h later = record {
  first = p ∷ later.first;
  between = later.between;
  second = later.second;
  together = ap (λ l. p ∷ l) later.together;
  before = record {
    parts =
        packet_inside a b p (flatten packets ++ rest) cut h
        ∙ ap (λ l. p ++ l) later.before.parts
        ∙ sym (append_assoc p (flatten later.first) later.between);
    packets_whole = (f.packets_whole.0, later.before.packets_whole);
    rest_partial = later.before.rest_partial;
  };
  behind = later.behind;
  bounded = λ k all short. later.bounded k all.1 short;
  bounded_second = λ k all. later.bounded_second k all.1;
}
  where
    cut : a ++ b ≡ p ++ (flatten packets ++ rest)
    cut = f.parts ∙ append_assoc p (flatten packets) rest

pub cut_lem :
    (packets : List (List ℕ)) (a b rest : List ℕ)
    → Framed (a ++ b) packets rest
    → Cut a b packets rest
unfolding flatten
cut_lem [] a b rest f = record {
  first = [];
  between = a;
  second = [];
  together = refl;
  before = record {
    parts = refl;
    packets_whole = tt;
    rest_partial = IsPartial-front a b (subst IsPartial (sym f.parts) f.rest_partial);
  };
  behind = f;
  bounded = λ k all short. omega (arith, short, ap length f.parts, length-append a b);
  bounded_second = λ k all. tt;
}
cut_lem (p ∷ packets) a b rest f = elim (dec_lt (length a) (length p)) [
  | yes h ↦ record {
    first = [];
    between = a;
    second = p ∷ packets;
    together = refl;
    before = record {
      parts = refl;
      packets_whole = tt;
      rest_partial = packet_front a b p (flatten packets ++ rest) cut f.packets_whole.0 h;
    };
    behind = f;
    bounded = λ k all short. omega (arith, all, h);
    bounded_second = λ k all. all;
  }
  | no h ↦ Cut-behind p packets a b rest f (omega arith) (
      cut_lem packets (drop (length p) a) b rest (record {
        parts =
            sym (drop-append_le (length p) a b (omega arith))
            ∙ ap (drop (length p)) cut
            ∙ drop-append (length p) p (flatten packets ++ rest) refl;
        packets_whole = f.packets_whole.1;
        rest_partial = f.rest_partial;
      }))
]
  where
    cut : a ++ b ≡ p ++ (flatten packets ++ rest)
    cut = f.parts ∙ append_assoc p (flatten packets) rest
