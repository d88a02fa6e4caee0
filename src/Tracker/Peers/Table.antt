-- ===== src/Tracker/Peers/Table.antt =====
-- The table as a map from an info-hash and a peer id to a peer: what each operation does to it.
use torrent_link.Prelude.{
  ◌≡◌, refl, ◌∙◌, ap, not, ◌&&◌, inl, inr, Option, none, some, List, [], ◌∷◌, arith, filter, find?,
  Bool-cases, Option-cases, if◌then◌else◌, Bytes, bytes_eq, bytes_eq_iff, bytes_key,
}
use torrent_link.Prelude.Assoc.{lookup, lookup-put, lookup-erase}
use torrent_link.Tracker.Peers.{Peer, PeerTable, swarm, upsert_peer, upsert, put_or_erase, remove}

-- The peer with the id, in a swarm.
abbrev pub find_peer : Bytes → List Peer → Option Peer
find_peer id = find? (λ q. bytes_eq q.peer_id id)

-- The peer that the table has for an info-hash and an id.
abbrev pub peer_at : Bytes → Bytes → PeerTable → Option Peer
peer_at ih id t = find_peer id (swarm ih t)

pub swarm-upsert :
    (ih j : Bytes) (p : Peer) (t : PeerTable)
    → swarm j (upsert ih p t) ≡ (if bytes_eq ih j then upsert_peer p (swarm ih t) else swarm j t)
unfolding swarm upsert
swarm-upsert ih j p t = ground (arith, lookup-put ih j (upsert_peer p (swarm ih t)) t)

swarm-put_or_erase :
    (ih j : Bytes) (ps : List Peer) (t : PeerTable)
    → swarm j (put_or_erase ih ps t) ≡ (if bytes_eq ih j then ps else swarm j t)
unfolding swarm put_or_erase
swarm-put_or_erase ih j [] t = ground (arith, lookup-erase ih j t)
swarm-put_or_erase ih j (p ∷ ps) t = ground (arith, lookup-put ih j (p ∷ ps) t)

abbrev pub without : Bytes → List Peer → List Peer
without id = filter (λ p. not (bytes_eq p.peer_id id))

pub swarm-remove :
    (ih j id : Bytes) (t : PeerTable)
    → swarm j (remove ih id t) ≡ (if bytes_eq ih j then without id (swarm ih t) else swarm j t)
unfolding remove swarm
swarm-remove ih j id t = elim (Option-cases (lookup ih t)) [
  | inl e ↦
      rw (e, remove)
        (elim (Bool-cases (bytes_eq ih j)) [
          | inl own ↦ rw own (ground (arith, e, bytes_eq_iff ih j))
          | inr other ↦ rw other
        ])
  | inr (ps, e) ↦ rw (e, remove, swarm) (unfold swarm in swarm-put_or_erase ih j (without id ps) t)
]

find_peer-upsert_peer :
    (id : Bytes) (p : Peer) (ps : List Peer)
    → find_peer id (upsert_peer p ps) ≡ (if bytes_eq p.peer_id id then some p else find_peer id ps)
unfolding upsert_peer
find_peer-upsert_peer id p [] = refl
find_peer-upsert_peer id p (q ∷ ps) = ground (
  arith,
  bytes_eq_iff q.peer_id p.peer_id,
  bytes_eq_iff q.peer_id id,
  bytes_eq_iff p.peer_id id,
  find_peer-upsert_peer id p ps,
)

find_peer-without :
    (id gone : Bytes) (ps : List Peer)
    → find_peer id (without gone ps) ≡ (if bytes_eq gone id then none else find_peer id ps)
find_peer-without id gone [] = ground arith
find_peer-without id gone (q ∷ ps) = ground (
  arith,
  bytes_eq_iff q.peer_id gone,
  bytes_eq_iff q.peer_id id,
  bytes_eq_iff gone id,
  find_peer-without id gone ps,
)

-- An announce sets the peer of its info-hash and id to what it says, and no other.
pub peer_at-upsert :
    (ih j id : Bytes) (p : Peer) (t : PeerTable)
    → peer_at j id (upsert ih p t)
      ≡ (if bytes_eq ih j && bytes_eq p.peer_id id then some p else peer_at j id t)
peer_at-upsert ih j id p t = elim (Bool-cases (bytes_eq ih j)) [
  | inl own ↦
      let same : ih ≡ j = (bytes_eq_iff ih j).0 own in
      ap (find_peer id) (swarm-upsert ih j p t)
      ∙ rw own (rw same (find_peer-upsert_peer id p (swarm j t)))
  | inr other ↦ ap (find_peer id) (swarm-upsert ih j p t) ∙ rw other
]

-- A removal drops the peer of its info-hash and id, and no other.
pub peer_at-remove :
    (ih j id gone : Bytes) (t : PeerTable)
    → peer_at j id (remove ih gone t)
      ≡ (if bytes_eq ih j && bytes_eq gone id then none else peer_at j id t)
peer_at-remove ih j id gone t = elim (Bool-cases (bytes_eq ih j)) [
  | inl own ↦
      let same : ih ≡ j = (bytes_eq_iff ih j).0 own in
      ap (find_peer id) (swarm-remove ih j gone t)
      ∙ rw own (rw same (find_peer-without id gone (swarm j t)))
  | inr other ↦ ap (find_peer id) (swarm-remove ih j gone t) ∙ rw other
]
