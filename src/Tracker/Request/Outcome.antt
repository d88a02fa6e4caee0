-- ===== src/Tracker/Request/Outcome.antt =====
-- What a read does to the peer table, and what it answers.
use torrent_link.Prelude.{
  ℕ, ℤ, pos, negsuc, ◌<◌, ◌≡◌, ◌≢◌, refl, subst, sym, ◌⊎◌, inl, inr, ltb, ltb_ℤ, leb_ℤ, take, true,
  ◌&&◌, String, str_eq, Option, none, some, List, [], ◌∷◌, ◌++◌, arith, length, Bool-cases,
  if◌then◌else◌, Bytes, bytes_eq, nat_key,
}
use torrent_link.Prelude.Assoc.{erase}
use torrent_link.Tracker.Peers.{PeerTable}
use torrent_link.Tracker.Peers.Table.{peer_at, peer_at-upsert, peer_at-remove}
use torrent_link.Tracker.Peers.Swarms.{IsValid, change-IsValid, upserted, removed, pruned}
use torrent_link.Tracker.Request.{
  Qt, Worker, Announce, Checked, failed, passed, require_some, ◌>>=◌, request_line_end,
  request_query, valid_port, numwant_of, header_end, check_query, check_request, peer_of,
  apply_announce, announce_body, write_http, respond, buffer_of, handle_buffer, handle_read,
  disconnected, clean_up,
}
use torrent_link.Tracker.Request.Buffers.{Event, read, closed, timer, handle, handle_all}

-- What the checks promise of an announce.
pub record IsChecked (a : Announce) : Type 0 where
  pub hash_size : length a.info_hash ≡ 20
  pub id_size : length a.peer_id ≡ 20
  pub port_low : 0 < a.port
  pub port_high : a.port < 65536
  pub wanted_low : ltb_ℤ (pos 0) a.numwant ≡ true
  pub wanted_high : leb_ℤ a.numwant (pos 50) ≡ true

>>=-eq-passed :
    {A B : Type 0} (m : Checked A) (f : A → Checked B) {b : B}
    → (m >>= f) ≡ passed b
    → (a : A) × (m ≡ passed a) × (f a ≡ passed b)
>>=-eq-passed (passed a) f h = (a, refl, h)
>>=-eq-passed (failed code reason) f h = cc

valid_port_bounds : (o : Option ℤ) (n : ℕ) → valid_port o ≡ some n → (0 < n) × (n < 65536)
unfolding valid_port
valid_port_bounds none n h = cc
valid_port_bounds (some (negsuc m)) n h = cc
valid_port_bounds (some (pos m)) n h = ground arith

numwant_of_bounds :
    (s : String) (o : Option ℤ)
    → (ltb_ℤ (pos 0) (numwant_of s o) ≡ true) × (leb_ℤ (numwant_of s o) (pos 50) ≡ true)
unfolding numwant_of
numwant_of_bounds s none = ground arith
numwant_of_bounds s (some (negsuc n)) = ground arith
numwant_of_bounds s (some (pos n)) = ground arith

module _ (qt : Qt) where
  check_query-IsChecked :
      (address : Option ℕ) (qs : Bytes) (a : Announce)
      → check_query qt address qs ≡ passed a
      → IsChecked a
  unfolding check_query
  check_query-IsChecked address qs a h = ground (
    arith,
    valid_port_bounds (qt.to_int (qt.query_item qs "port")) a.port,
    numwant_of_bounds (qt.query_item qs "numwant") (qt.to_int (qt.query_item qs "numwant")),
  )

  check_request-IsChecked :
      (address : Option ℕ) (buf : Bytes) (end : ℕ) (a : Announce)
      → check_request qt address buf end ≡ passed a
      → IsChecked a
  unfolding check_request
  check_request-IsChecked address buf end a h =
      let (e, p, h') =
        >>=-eq-passed (require_some (request_line_end buf end) 400 "bad request") _ h in
      let (qs, p', h'') = >>=-eq-passed (request_query (qt.trimmed (take e buf))) _ h' in
      check_query-IsChecked address qs a h''

  -- The two things that a read can do to the table, with the reply in the second case; `buf` is all
  -- that has come in on the socket.
  abbrev pub Untouched : Option ℕ → Bytes → PeerTable → Worker × Option Bytes → Type 0
  Untouched address buf t r =
      (r.0.table ≡ t)
      × ((end : ℕ) (a : Announce)
          → header_end buf ≡ some end
          → check_request qt address buf end ≡ passed a
          → 1_048_576 < length buf)

  abbrev pub Applied : ℤ → Announce → PeerTable → Worker × Option Bytes → Type 0
  Applied now a t r =
      IsChecked a
      × (r.0.table ≡ apply_announce qt now a t)
      × (r.1 ≡ some (write_http qt 200 (announce_body qt a (apply_announce qt now a t))))

  abbrev pub Announced : Option ℕ → Bytes → ℤ → PeerTable → Worker × Option Bytes → Type 0
  Announced address buf now t r =
      (end : ℕ) × (header_end buf ≡ some end)
      × (a : Announce) × (check_request qt address buf end ≡ passed a)
      × Applied now a t r

  respond_cases :
      (sock : ℕ) (now : ℤ) (c : Checked Announce) (w : Worker)
      → ((a : Announce) → c ≡ passed a → IsChecked a)
      → let (t, reply) = respond qt now c w.table in
        let r : Worker × Option Bytes =
          (record { table = t; buffers = erase sock w.buffers }, some reply) in
        ((r.0.table ≡ w.table) × ((a : Announce) → c ≢ passed a))
        ⊎ ((a : Announce) × (c ≡ passed a) × Applied now a w.table r)
  unfolding respond
  respond_cases sock now (failed code reason) w h = inl (refl, λ a e. cc)
  respond_cases sock now (passed a) w h = inr (a, refl, (h a refl, refl, refl))

  handle_buffer_table :
      (sock : ℕ) (address : Option ℕ) (now : ℤ) (buf : Bytes) (end : Option ℕ) (w : Worker)
      → header_end buf ≡ end
      → let r = handle_buffer qt sock address now buf end w in
        Untouched address buf w.table r ⊎ Announced address buf now w.table r
  unfolding handle_buffer
  handle_buffer_table sock address now buf (some end) w e =
      elim (respond_cases sock now (check_request qt address buf end) w
        (λ a h. check_request-IsChecked address buf end a h)) [
          | inl (same, fails) ↦ inl (
            same,
            λ end' a q h. absurd (
                fails a (
                  subst (λ i. check_request qt address buf i ≡ passed a) (ground (arith, e, q)) h)),
          )
          | inr (a, h, applied) ↦ inr (end, e, a, h, applied)
        ]
  handle_buffer_table sock address now buf none w e = elim (Bool-cases (ltb 8192 (length buf))) [
    | inl long ↦ rw long (inl (refl, λ end a q h. cc))
    | inr short ↦ rw short (inl (refl, λ end a q h. cc))
  ]

  -- A read touches the table only if what has come in on the socket has the end of a header and is an
  -- announce that passes every check: its hash and its peer id have twenty bytes, its port is between 1
  -- and 65535 and it wants between one and fifty peers. Then the table is what that announce makes of
  -- it, and the reply counts and names the peers of that new table. Otherwise the table stays as it
  -- was, and what has come in is no such announce or has more than 1048576 bytes.
  pub handle_read_table :
      (sock : ℕ) (address : Option ℕ) (now : ℤ) (chunk : Bytes) (w : Worker)
      → let r = handle_read qt sock address now chunk w in
        Untouched address (buffer_of qt sock w ++ chunk) w.table r
        ⊎ Announced address (buffer_of qt sock w ++ chunk) now w.table r
  unfolding handle_read
  handle_read_table sock address now chunk w =
      elim (Bool-cases (ltb 1_048_576 (length (buffer_of qt sock w ++ chunk)))) [
        | inl long ↦ rw long (inl (refl, λ end a q h. ground (arith, long)))
        | inr short ↦ rw short (
            handle_buffer_table sock address now (buffer_of qt sock w ++ chunk)
              (header_end (buffer_of qt sock w ++ chunk)) w refl)
      ]

  -- After an announce the table has the announcing peer with the data and the time of the announce,
  -- or, if it said `stopped`, does not have it; every other entry is as before.
  pub peer_at-apply_announce :
      (now : ℤ) (a : Announce) (t : PeerTable) (ih id : Bytes)
      → peer_at ih id (apply_announce qt now a t) ≡ (
          if bytes_eq a.info_hash ih && bytes_eq a.peer_id id
          then (if str_eq a.event "stopped" then none else some (peer_of qt now a))
          else peer_at ih id t)
  unfolding apply_announce
  peer_at-apply_announce now a t ih id = elim (Bool-cases (str_eq a.event "stopped")) [
    | inl stopped ↦ rw stopped (peer_at-remove a.info_hash ih id a.peer_id t)
    | inr alive ↦ rw alive (peer_at-upsert a.info_hash ih id (peer_of qt now a) t)
  ]

  apply_announce-IsValid :
      (now : ℤ) (a : Announce) (t : PeerTable) → IsValid t → IsValid (apply_announce qt now a t)
  unfolding apply_announce
  apply_announce-IsValid now a t v = elim (Bool-cases (str_eq a.event "stopped")) [
    | inl stopped ↦ rw stopped (change-IsValid (removed a.info_hash a.peer_id) t v)
    | inr alive ↦ rw alive (change-IsValid (upserted a.info_hash (peer_of qt now a)) t v)
  ]

  handle-IsValid : (e : Event) (w : Worker) → IsValid w.table → IsValid (handle qt e w).table
  unfolding handle disconnected clean_up
  handle-IsValid (closed sock) w v = v
  handle-IsValid (timer now) w v = change-IsValid (pruned now) w.table v
  handle-IsValid (read sock address now chunk) w v =
      elim (handle_read_table sock address now chunk w) [
        | inl (same, fails) ↦ subst IsValid (sym same) v
        | inr (end, found, a, passes, (checked, e, reply)) ↦
            subst IsValid (sym e) (apply_announce-IsValid now a w.table v)
      ]

  -- Whatever bytes come in on whatever sockets, and whenever connections end and the timer fires,
  -- the peer table stays well formed: one entry for an info-hash, one peer for a peer id in it, and
  -- no empty swarm.
  pub handle_all-IsValid :
      (es : List Event) (w : Worker) → IsValid w.table → IsValid (handle_all qt es w).table
  unfolding handle_all
  handle_all-IsValid [] w v = v
  handle_all-IsValid (e ∷ es) w v = handle_all-IsValid es (handle qt e w) (handle-IsValid e w v)
