-- ===== src/Tracker/Request.antt =====
-- TrackerWorker::handleRead of core/builtin_http_tracker.cc: what comes in on a socket, from the
-- bytes to the reply. A socket is a number. Qt's parsing of queries and numbers, `trimmed`,
-- `toLower`, `QByteArray::number` and `std::shuffle` are the fields of `Qt`.
pub mod Outcome
pub mod Buffers
use torrent_link.Prelude.{
  ℕ, suc, ℤ, pos, negsuc, nonneg, ◌+◌, ◌-◌, min, pos_part, ltb, leb, ltb_ℤ, leb_ℤ, ◌==◌, Bool, true,
  false, not, ◌&&◌, ◌||◌, String, str_eq, is_empty, Option, none, some, List, [], ◌∷◌, ◌++◌, length,
  take, drop, if◌then◌else◌, Bytes, bytes, starts_with, index_of, nat_key,
}
use torrent_link.Prelude.Assoc.{Assoc, lookup, put, erase}
use torrent_link.Tracker.Bencode.{encode_announce_failure, encode_announce_ok}
use torrent_link.Tracker.Query.{query_param_raw}
use torrent_link.Tracker.Peers.{
  Peer, PeerTable, upsert, remove, count_complete, count_incomplete, build_compact_peers, prune,
  default_numwant,
}

pub record Qt : Type 0 where
  -- QByteArray::trimmed, QByteArray::number
  pub trimmed : Bytes → Bytes
  pub number : ℤ → Bytes
  -- QUrlQuery::queryItemValue of a query
  pub query_item : Bytes → String → String
  -- QString::toInt with its flag, QString::toLongLong, QString::toLower
  pub to_int : String → Option ℤ
  pub to_long_long : String → ℤ
  pub to_lower : String → String
  pub shuffle : List Peer → List Peer

-- `table_` and `read_buffers_`
pub record Worker : Type 0 where
  pub table : PeerTable
  pub buffers : Assoc ℕ Bytes

-- An announce that passed the checks.
pub record Announce : Type 0 where
  pub info_hash : Bytes
  pub peer_id : Bytes
  pub port : ℕ
  pub left : ℤ
  pub numwant : ℤ
  pub event : String
  pub ipv4_host : ℕ

-- A failed check has the status code and the reason of its reply.
pub data Checked (A : Type 0) : Type 0 where
  failed : ℕ → String → Checked A
  passed : A → Checked A

infixl 5 ◌>>=◌ ◌>>◌
abbrev pub ◌>>=◌ : {A B : Type 0} → Checked A → (A → Checked B) → Checked B
failed code reason >>= f = failed code reason
passed a >>= f = f a

abbrev pub ◌>>◌ : {B : Type 0} → Checked (Unit {0}) → Checked B → Checked B
m >> k = m >>= λ _. k

abbrev pub require : Bool → ℕ → String → Checked (Unit {0})
require true code reason = passed tt
require false code reason = failed code reason

abbrev pub require_some : {A : Type 0} → Option A → ℕ → String → Checked A
require_some none code reason = failed code reason
require_some (some a) code reason = passed a

abbrev pub crlf : Bytes
crlf = 13 ∷ 10 ∷ []

abbrev pub max_request : ℕ
max_request = 1_048_576

abbrev pub max_header : ℕ
max_header = 8192

-- Where the header ends: at an empty line, with or without carriage returns.
unfoldable pub header_end : Bytes → Option ℕ
header_end buf = elim (index_of (13 ∷ 10 ∷ 13 ∷ 10 ∷ []) buf) [
  | some i ↦ some i
  | none ↦ index_of (10 ∷ 10 ∷ []) buf
]

-- The end of the request line: the first line break before the end of the header, not at 0.
unfoldable pub request_line_end : Bytes → ℕ → Option ℕ
request_line_end buf hdr_end =
    let bare = index_of (10 ∷ []) buf in
    let end : Option ℕ = elim (index_of crlf buf) [
      | some i ↦ if ltb hdr_end i then bare else some i
      | none ↦ bare
    ] in
    elim end [ none ↦ none | some i ↦ if i == 0 || ltb hdr_end i then none else some i ]

-- The query of an announce, from the request line.
unfoldable pub request_query : Bytes → Checked Bytes
request_query first = do
  require (starts_with (bytes "GET ") first) 400 "method not allowed"
  sp2 ← require_some (index_of (b' ' ∷ []) (drop 4 first)) 400 "bad request line"
  let path_query = take sp2 (drop 4 first)
  require (starts_with (bytes "/announce") path_query) 400 "unsupported path"
  qmark ← require_some (index_of (b'?' ∷ []) path_query) 200 "missing query"
  passed (drop (qmark + 1) path_query)

-- `port_ok && port > 0 && port <= 65535`
unfoldable pub valid_port : Option ℤ → Option ℕ
valid_port none = none
valid_port (some (negsuc n)) = none
valid_port (some (pos n)) = if n == 0 || ltb 65535 n then none else some n

-- `numwant` as the client asked for it, and then as it is passed on.
unfoldable pub wanted : Option ℤ → ℤ
wanted none = default_numwant
wanted (some (negsuc n)) = default_numwant
wanted (some (pos n)) = pos (min n 50)

unfoldable pub numwant_of : String → Option ℤ → ℤ
unfolding wanted
numwant_of text parsed =
    let n = if is_empty text then default_numwant else wanted parsed in
    if ltb_ℤ (pos 0) n then n else default_numwant

module _ (qt : Qt) where
  open qt use {trimmed, number, query_item, to_int, to_long_long, to_lower, shuffle}

  -- The checks on the query and on the peer's address; `none` is an address that is not IPv4.
  unfoldable pub check_query : Option ℕ → Bytes → Checked Announce
  check_query address qs = do
    let info_hash = query_param_raw qs (bytes "info_hash")
    require (length info_hash == 20) 200 "invalid info_hash"
    let peer_id = query_param_raw qs (bytes "peer_id")
    require (length peer_id == 20) 200 "invalid peer_id"
    port ← require_some (valid_port (to_int (query_item qs "port"))) 200 "invalid port"
    let compact_s = query_item qs "compact"
    require (is_empty compact_s || str_eq compact_s "1") 200 "compact=1 required"
    let nw = query_item qs "numwant"
    ipv4_host ← require_some address 200 "IPv6 not supported"
    passed (record {
      info_hash = info_hash;
      peer_id = peer_id;
      port = port;
      left = to_long_long (query_item qs "left");
      numwant = numwant_of nw (to_int nw);
      event = to_lower (query_item qs "event");
      ipv4_host = ipv4_host;
    })

  -- All checks, from the end of the header on.
  unfoldable pub check_request : Option ℕ → Bytes → ℕ → Checked Announce
  check_request address buf hdr_end = do
    end ← require_some (request_line_end buf hdr_end) 400 "bad request"
    qs ← request_query (trimmed (take end buf))
    check_query address qs

  -- The peer that an announce puts into the table.
  unfoldable pub peer_of : ℤ → Announce → Peer
  peer_of now a = record {
    peer_id = a.peer_id;
    ipv4_host = a.ipv4_host;
    port = a.port;
    left = a.left;
    last_seen_ms = now;
  }

  unfoldable pub apply_announce : ℤ → Announce → PeerTable → PeerTable
  unfolding peer_of
  apply_announce now a t =
      if str_eq a.event "stopped"
      then remove a.info_hash a.peer_id t
      else upsert a.info_hash (peer_of now a) t

  -- The body of the reply, from the table after the announce.
  unfoldable pub announce_body : Announce → PeerTable → Bytes
  announce_body a t =
      encode_announce_ok number (pos 1800) (pos 900) (pos (count_complete a.info_hash t))
        (pos (count_incomplete a.info_hash t))
        (build_compact_peers shuffle a.info_hash a.peer_id a.numwant t)

  -- writeHttp
  unfoldable pub write_http : ℕ → Bytes → Bytes
  write_http code body =
      bytes "HTTP/1.0 "
      ++ (number (pos code)
          ++ ((if code == 200 then bytes " OK" else bytes " Error")
              ++ (crlf
                  ++ (bytes "Content-Type: text/plain"
                      ++ (crlf
                          ++ (bytes "Content-Length: "
                              ++ (number (pos (length body)) ++ (crlf ++ (crlf ++ body)))))))))

  unfoldable pub failure : ℕ → String → Bytes
  unfolding write_http
  failure code reason = write_http code (encode_announce_failure number (bytes reason))

  -- A whole request: the table after it, and the reply.
  unfoldable pub respond : ℤ → Checked Announce → PeerTable → PeerTable × Bytes
  respond now (failed code reason) t = (t, failure code reason)
  respond now (passed a) t =
      let t' = apply_announce now a t in (t', write_http 200 (announce_body a t'))

  -- The buffer of a socket, empty if there is none.
  unfoldable pub buffer_of : ℕ → Worker → Bytes
  buffer_of sock w = elim (lookup sock w.buffers) [ none ↦ [] | some b ↦ b ]

  -- The reply is `none` while the header is incomplete.
  unfoldable pub handle_buffer :
      ℕ → Option ℕ → ℤ → Bytes → Option ℕ → Worker → Worker × Option Bytes
  handle_buffer sock address now buf none w =
      if ltb max_header (length buf)
      then (record w { buffers = erase sock w.buffers }, some (failure 400 "request too large"))
      else (record w { buffers = put sock buf w.buffers }, none)
  handle_buffer sock address now buf (some hdr_end) w =
      let (t, reply) = respond now (check_request address buf hdr_end) w.table in
      (record { table = t; buffers = erase sock w.buffers }, some reply)

  unfoldable pub handle_read : ℕ → Option ℕ → ℤ → Bytes → Worker → Worker × Option Bytes
  unfolding buffer_of
  handle_read sock address now chunk w =
      let buf = buffer_of sock w ++ chunk in
      if ltb max_request (length buf)
      then (record w { buffers = erase sock w.buffers }, some (failure 400 "request too large"))
      else handle_buffer sock address now buf (header_end buf) w

-- The lambda on `disconnected`.
unfoldable pub disconnected : ℕ → Worker → Worker
disconnected sock w = record w { buffers = erase sock w.buffers }

-- The timer `cleanup_`.
unfoldable pub clean_up : ℤ → Worker → Worker
clean_up now w = record w { table = prune now w.table }
