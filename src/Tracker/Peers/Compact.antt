-- ===== src/Tracker/Peers/Compact.antt =====
-- The compact peer list of a reply.
use torrent_link.Prelude.{
  ℕ, ◌+◌, ◌*◌, ◌^◌, ◌<◌, ◌≡◌, refl, ap₂, Bool, List, [], ◌∷◌, map, arith, All, length, count, Bytes,
}
use torrent_link.Tracker.Peers.{Peer, compact}

length-compact : (ps : List Peer) → length (compact ps) ≡ 6 * length ps
unfolding compact
length-compact [] = refl
length-compact (p ∷ ps) = omega (arith, length-compact ps)

-- The addresses and ports that a client reads, six bytes at a time (BEP 23).
pub read_compact : Bytes → List (ℕ × ℕ)
read_compact (a ∷ b ∷ c ∷ d ∷ x ∷ y ∷ rest) =
    (((a * 256 + b) * 256 + c) * 256 + d, x * 256 + y) ∷ read_compact rest
read_compact _ = []

-- A peer as the program stores it: a 32-bit address and a 16-bit port.
pub record InRange (p : Peer) : Type 0 where
  pub address : p.ipv4_host < 2 ^ 32
  pub port : p.port < 2 ^ 16

-- A client that reads a compact list gets the addresses and the ports of its peers, in order.
pub read_compact-compact :
    (ps : List Peer)
    → All InRange ps
    → read_compact (compact ps) ≡ map (λ p. (p.ipv4_host, p.port)) ps
unfolding read_compact compact
read_compact-compact [] h = refl
read_compact-compact (p ∷ ps) h =
    ap₂ ◌∷◌ (ap₂ (λ a b. (a, b)) (omega (arith, h.0.address)) (omega (arith, h.0.port)))
      (read_compact-compact ps h.1)

-- What the documentation of `std::shuffle` promises: the same elements, as often.
pub record IsShuffle (shuffle : List Peer → List Peer) : Type 0 where
  pub counts : (p : Peer → Bool) (ps : List Peer) → count p (shuffle ps) ≡ count p ps
