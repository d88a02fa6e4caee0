-- ===== src/Tracker/Peers.antt =====
-- The peer table of core/builtin_http_tracker.cc. Peers of a swarm keep the order in which they
-- came. `std::shuffle` with the global generator is the argument `shuffle`.
pub mod Table
pub mod Swarms
pub mod Counts
pub mod Compact
use torrent_link.Prelude.{
  ℕ, ℤ, pos, negsuc, ◌+◌, ◌/◌, ◌%◌, ◌^◌, min, pos_part, neg_part, ltb, ltb_ℤ, ◌==◌, Bool, true,
  false, not, Option, none, some, List, [], ◌∷◌, ◌++◌, length, filter, count, take, if◌then◌else◌,
  Bytes, bytes_eq, bytes_key,
}
use torrent_link.Prelude.Assoc.{Assoc, lookup, put, erase}

pub record Peer : Type 0 where
  pub peer_id : Bytes
  pub ipv4_host : ℕ
  pub port : ℕ
  pub left : ℤ
  pub last_seen_ms : ℤ

-- `by_ih_`
abbrev pub PeerTable : Type 0
PeerTable = Assoc Bytes (List Peer)

abbrev pub max_peers_return : ℕ
max_peers_return = 50

abbrev pub default_numwant : ℤ
default_numwant = pos 50

-- 45 minutes in milliseconds
abbrev pub peer_ttl_ms : ℕ
peer_ttl_ms = 2_700_000

-- The swarm of an info-hash; `QHash::find`, with no peers for an absent one.
unfoldable pub swarm : Bytes → PeerTable → List Peer
swarm ih t = elim (lookup ih t) [ none ↦ [] | some ps ↦ ps ]

-- The loop of `upsert`: the first peer with the id is rewritten, or a new one goes to the end.
unfoldable pub upsert_peer : Peer → List Peer → List Peer
upsert_peer p [] = p ∷ []
upsert_peer p (q ∷ ps) =
    if bytes_eq q.peer_id p.peer_id
    then record q {
      ipv4_host = p.ipv4_host;
      port = p.port;
      left = p.left;
      last_seen_ms = p.last_seen_ms;
    }
      ∷ ps
    else q ∷ upsert_peer p ps

unfoldable pub upsert : Bytes → Peer → PeerTable → PeerTable
upsert ih p t = put ih (upsert_peer p (swarm ih t)) t

-- What is left of a swarm goes back; an empty one goes out of the table.
unfoldable pub put_or_erase : Bytes → List Peer → PeerTable → PeerTable
put_or_erase ih [] t = erase ih t
put_or_erase ih (p ∷ ps) t = put ih (p ∷ ps) t

unfoldable pub remove : Bytes → Bytes → PeerTable → PeerTable
remove ih peer_id t = elim (lookup ih t) [
  | none ↦ t
  | some ps ↦ put_or_erase ih (filter (λ p. not (bytes_eq p.peer_id peer_id)) ps) t
]

-- `(now_ms - p.last_seen_ms) > kPeerTtlMs`
unfoldable pub is_stale : ℤ → Peer → Bool
is_stale now p =
    ltb (pos_part p.last_seen_ms + neg_part now + peer_ttl_ms)
      (pos_part now + neg_part p.last_seen_ms)

-- The loop over the table.
unfoldable pub prune : ℤ → PeerTable → PeerTable
prune now [] = []
prune now ((ih, ps) ∷ t) = elim (filter (λ p. not (is_stale now p)) ps) [
  | [] ↦ prune now t
  | q ∷ qs ↦ (ih, q ∷ qs) ∷ prune now t
]

-- `p.left == 0`, `p.left > 0`
abbrev pub is_complete : Peer → Bool
is_complete p = elim p.left [ pos n ↦ n == 0 | negsuc n ↦ false ]

abbrev pub is_incomplete : Peer → Bool
is_incomplete p = ltb_ℤ (pos 0) p.left

unfoldable pub count_complete : Bytes → PeerTable → ℕ
count_complete ih t = count is_complete (swarm ih t)

unfoldable pub count_incomplete : Bytes → PeerTable → ℕ
count_incomplete ih t = count is_incomplete (swarm ih t)

-- `qToBigEndian`, as the bytes that are appended.
unfoldable pub be32 : ℕ → Bytes
be32 n = n / 2 ^ 24 % 256 ∷ n / 2 ^ 16 % 256 ∷ n / 2 ^ 8 % 256 ∷ n % 256 ∷ []

unfoldable pub be16 : ℕ → Bytes
be16 n = n / 2 ^ 8 % 256 ∷ n % 256 ∷ []

unfoldable pub compact : List Peer → Bytes
unfolding be32 be16
compact [] = []
compact (p ∷ ps) = be32 p.ipv4_host ++ (be16 p.port ++ compact ps)

-- The peers that a reply may name.
unfoldable pub candidates : Bytes → Bytes → PeerTable → List Peer
candidates ih exclude t = filter (λ p. not (bytes_eq p.peer_id exclude)) (swarm ih t)

unfoldable pub build_compact_peers : (List Peer → List Peer) → Bytes → Bytes → ℤ → PeerTable → Bytes
build_compact_peers shuffle ih exclude numwant t =
    let cand = shuffle (candidates ih exclude t) in
    compact (take (min (pos_part numwant) (min max_peers_return (length cand))) cand)
