-- ===== src/Tracker/Peers/Swarms.antt =====
-- The table is well formed: one entry for an info-hash, one peer for an id, and no empty swarm.
use torrent_link.Prelude.{
  ℤ, ◌≤◌, ◌≡◌, ◌≢◌, refl, ◌∙◌, Bool, false, not, ◌||◌, inl, inr, none, some, List, [], ◌∷◌, arith,
  filter, any, Bool-cases, Option-cases, Bytes, bytes_eq, bytes_eq_iff, bytes_key,
}
use torrent_link.Prelude.Assoc.{
  lookup, entries, entries-put, entries-erase_le, lookup-put, lookup-erase,
}
use torrent_link.Tracker.Peers.{
  Peer, PeerTable, swarm, upsert_peer, upsert, put_or_erase, remove, is_stale, prune,
}
use torrent_link.Tracker.Peers.Table.{without, swarm-upsert, swarm-remove}

-- Some peer of the list has the id.
abbrev pub has_id : Bytes → List Peer → Bool
has_id id = any (λ q. bytes_eq q.peer_id id)

abbrev pub AreDistinct : List Peer → Type 0
AreDistinct [] = Unit {0}
AreDistinct (p ∷ ps) = (has_id p.peer_id ps ≡ false) × AreDistinct ps

pub record IsValid (t : PeerTable) : Type 0 where
  pub unique : (ih : Bytes) → entries ih t ≤ 1
  pub distinct : (ih : Bytes) → AreDistinct (swarm ih t)
  pub inhabited : (ih : Bytes) → lookup ih t ≢ some []

has_id-upsert_peer :
    (id : Bytes) (p : Peer) (ps : List Peer)
    → has_id id (upsert_peer p ps) ≡ (bytes_eq p.peer_id id || has_id id ps)
unfolding upsert_peer
has_id-upsert_peer id p [] = refl
has_id-upsert_peer id p (q ∷ ps) =
    ground (arith, bytes_eq_iff q.peer_id p.peer_id, has_id-upsert_peer id p ps)

upsert_peer-AreDistinct :
    (p : Peer) (ps : List Peer) → AreDistinct ps → AreDistinct (upsert_peer p ps)
unfolding upsert_peer
upsert_peer-AreDistinct p [] d = (refl, tt)
upsert_peer-AreDistinct p (q ∷ ps) d = elim (Bool-cases (bytes_eq q.peer_id p.peer_id)) [
  | inl same ↦ rw same d
  | inr other ↦ rw other (
    has_id-upsert_peer q.peer_id p ps
        ∙ ground (arith, d.0, bytes_eq_iff q.peer_id p.peer_id, bytes_eq_iff p.peer_id q.peer_id),
    upsert_peer-AreDistinct p ps d.1,
  )
]

has_id-filter :
    (id : Bytes) (keep : Peer → Bool) (ps : List Peer)
    → has_id id ps ≡ false
    → has_id id (filter keep ps) ≡ false
has_id-filter id keep [] h = refl
has_id-filter id keep (q ∷ ps) h = ground (arith, has_id-filter id keep ps)

filter-AreDistinct :
    (keep : Peer → Bool) (ps : List Peer) → AreDistinct ps → AreDistinct (filter keep ps)
filter-AreDistinct keep [] d = tt
filter-AreDistinct keep (q ∷ ps) d = elim (Bool-cases (keep q)) [
  | inl kept ↦ rw kept (has_id-filter q.peer_id keep ps d.0, filter-AreDistinct keep ps d.1)
  | inr gone ↦ rw gone (filter-AreDistinct keep ps d.1)
]

entries-put_or_erase :
    (ih j : Bytes) (ps : List Peer) (t : PeerTable)
    → entries j t ≤ 1
    → entries j (put_or_erase ih ps t) ≤ 1
unfolding put_or_erase
entries-put_or_erase ih j [] t h = omega (arith, entries-erase_le ih j t)
entries-put_or_erase ih j (p ∷ ps) t h = ground (arith, entries-put ih j (p ∷ ps) t)

entries-remove :
    (ih j id : Bytes) (t : PeerTable) → entries j t ≤ 1 → entries j (remove ih id t) ≤ 1
unfolding remove
entries-remove ih j id t h = elim (Option-cases (lookup ih t)) [
  | inl e ↦ rw (e, remove) h
  | inr (ps, e) ↦ rw (e, remove) (entries-put_or_erase ih j (without id ps) t h)
]

upsert_peer-ne-nil : (p : Peer) (ps : List Peer) → upsert_peer p ps ≢ []
unfolding upsert_peer
upsert_peer-ne-nil p [] h = cc
upsert_peer-ne-nil p (q ∷ ps) h = ground arith

inhabited-put_or_erase :
    (ih j : Bytes) (ps : List Peer) (t : PeerTable)
    → lookup j t ≢ some []
    → lookup j (put_or_erase ih ps t) ≢ some []
unfolding put_or_erase
inhabited-put_or_erase ih j [] t h e = ground (arith, lookup-erase ih j t)
inhabited-put_or_erase ih j (p ∷ ps) t h e = ground (arith, lookup-put ih j (p ∷ ps) t)

inhabited-remove :
    (ih j id : Bytes) (t : PeerTable) → lookup j t ≢ some [] → lookup j (remove ih id t) ≢ some []
unfolding remove
inhabited-remove ih j id t h = elim (Option-cases (lookup ih t)) [
  | inl e ↦ rw (e, remove) h
  | inr (ps, e) ↦ rw (e, remove) (inhabited-put_or_erase ih j (without id ps) t h)
]

inhabited-upsert :
    (ih j : Bytes) (p : Peer) (t : PeerTable)
    → lookup j t ≢ some []
    → lookup j (upsert ih p t) ≢ some []
unfolding upsert
inhabited-upsert ih j p t h e =
    ground
      (arith, lookup-put ih j (upsert_peer p (swarm ih t)) t, upsert_peer-ne-nil p (swarm ih t))

-- Pruning.
abbrev pub fresh : ℤ → Peer → Bool
fresh now p = not (is_stale now p)

entries-prune_le : (now : ℤ) (j : Bytes) (t : PeerTable) → entries j (prune now t) ≤ entries j t
unfolding entries prune
entries-prune_le now j [] = omega arith
entries-prune_le now j ((ih, ps) ∷ t) = ground (arith, entries-prune_le now j t)

lookup-entries : (j : Bytes) (t : PeerTable) → entries j t ≡ 0 → lookup j t ≡ none
unfolding entries lookup
lookup-entries j [] h = refl
lookup-entries j ((ih, ps) ∷ t) h = ground (arith, lookup-entries j t)

inhabited-prune : (now : ℤ) (j : Bytes) (t : PeerTable) → lookup j (prune now t) ≢ some []
unfolding lookup prune
inhabited-prune now j [] h = cc
inhabited-prune now j ((ih, ps) ∷ t) h = ground (arith, inhabited-prune now j t)

-- Pruning keeps, in every swarm, the peers that are not stale, in their order.
pub swarm-prune :
    (now : ℤ) (j : Bytes) (t : PeerTable)
    → entries j t ≤ 1
    → swarm j (prune now t) ≡ filter (fresh now) (swarm j t)
unfolding swarm lookup entries prune
swarm-prune now j [] h = refl
swarm-prune now j ((ih, ps) ∷ t) h =
    by_rest (swarm-prune now j t (ground arith)) (filter (fresh now) ps) refl
  where
    by_rest :
        swarm j (prune now t) ≡ filter (fresh now) (swarm j t)
        → (r : List Peer) → filter (fresh now) ps ≡ r
        → swarm j (prune now ((ih, ps) ∷ t)) ≡ filter (fresh now) (swarm j ((ih, ps) ∷ t))
    by_rest rest [] e = rw (e, prune) (ground (arith, rest, lookup-entries j t, e))
    by_rest rest (q ∷ qs) e = rw (e, prune) (ground (arith, rest, e))

upsert-IsValid : (ih : Bytes) (p : Peer) (t : PeerTable) → IsValid t → IsValid (upsert ih p t)
unfolding upsert
upsert-IsValid ih p t v = record {
  unique = λ j. ground (arith, entries-put ih j (upsert_peer p (swarm ih t)) t, v.unique j);
  distinct = λ j. rw (swarm-upsert ih j p t) (elim (Bool-cases (bytes_eq ih j)) [
    | inl own ↦ rw own (upsert_peer-AreDistinct p (swarm ih t) (v.distinct ih))
    | inr other ↦ rw other (v.distinct j)
  ]);
  inhabited = λ j. inhabited-upsert ih j p t (v.inhabited j);
}

remove-IsValid : (ih id : Bytes) (t : PeerTable) → IsValid t → IsValid (remove ih id t)
remove-IsValid ih id t v = record {
  unique = λ j. entries-remove ih j id t (v.unique j);
  distinct = λ j. rw (swarm-remove ih j id t) (elim (Bool-cases (bytes_eq ih j)) [
    | inl own ↦ rw own (filter-AreDistinct _ (swarm ih t) (v.distinct ih))
    | inr other ↦ rw other (v.distinct j)
  ]);
  inhabited = λ j. inhabited-remove ih j id t (v.inhabited j);
}

prune-IsValid : (now : ℤ) (t : PeerTable) → IsValid t → IsValid (prune now t)
prune-IsValid now t v = record {
  unique = λ j. omega (arith, entries-prune_le now j t, v.unique j);
  distinct = λ j.
      rw (swarm-prune now j t (v.unique j))
        (filter-AreDistinct (fresh now) (swarm j t) (v.distinct j));
  inhabited = λ j. inhabited-prune now j t;
}

-- What the tracker does to its table.
pub data Change : Type 0 where
  upserted : Bytes → Peer → Change
  removed : Bytes → Bytes → Change
  pruned : ℤ → Change

abbrev pub change : Change → PeerTable → PeerTable
change (upserted ih p) t = upsert ih p t
change (removed ih id) t = remove ih id t
change (pruned now) t = prune now t

pub change-IsValid : (c : Change) (t : PeerTable) → IsValid t → IsValid (change c t)
change-IsValid (upserted ih p) t v = upsert-IsValid ih p t v
change-IsValid (removed ih id) t v = remove-IsValid ih id t v
change-IsValid (pruned now) t v = prune-IsValid now t v

abbrev pub changes : List Change → PeerTable → PeerTable
changes [] t = t
changes (c ∷ cs) t = changes cs (change c t)

pub IsValid-nil : IsValid []
unfolding entries swarm lookup
IsValid-nil = record { unique = λ ih. omega arith; distinct = λ ih. tt; inhabited = λ ih h. cc }

changes_from-IsValid : (cs : List Change) (t : PeerTable) → IsValid t → IsValid (changes cs t)
changes_from-IsValid [] t v = v
changes_from-IsValid (c ∷ cs) t v = changes_from-IsValid cs (change c t) (change-IsValid c t v)

-- After any sequence of announces, removals and prunings of an empty table, an info-hash has one
-- entry at most, its swarm holds a peer id once at most, and no swarm that is stored is empty.
pub changes-IsValid : (cs : List Change) → IsValid (changes cs [])
changes-IsValid cs = changes_from-IsValid cs [] IsValid-nil
