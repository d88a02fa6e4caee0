-- ===== src/Tracker/Peers/Counts.antt =====
-- The counts of a reply.
use torrent_link.Prelude.{
  pos, negsuc, ◌+◌, ◌≡◌, Bool, true, false, List, [], ◌∷◌, arith, length, count, Bytes, bytes_key,
}
use torrent_link.Tracker.Peers.{
  Peer, PeerTable, swarm, is_complete, is_incomplete, count_complete, count_incomplete,
}

abbrev pub has_negative_left : Peer → Bool
has_negative_left p = elim p.left [ pos n ↦ false | negsuc n ↦ true ]

counts-swarm :
    (ps : List Peer)
    → count is_complete ps + count is_incomplete ps + count has_negative_left ps ≡ length ps
counts-swarm [] = omega arith
counts-swarm (p ∷ ps) = ground (arith, counts-swarm ps)

-- The seeds and the downloaders that a reply counts, and the peers that announced a negative number
-- of bytes left, make up the swarm: such peers are in the swarm and in neither count.
pub count_complete-count_incomplete :
    (ih : Bytes) (t : PeerTable)
    → count_complete ih t + count_incomplete ih t + count has_negative_left (swarm ih t)
      ≡ length (swarm ih t)
unfolding count_complete count_incomplete
count_complete-count_incomplete ih t = counts-swarm (swarm ih t)
