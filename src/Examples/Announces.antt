-- ===== src/Examples/Announces.antt =====
-- The tracker (core/builtin_http_tracker.cc, core/bencode_minimal.cc) at concrete inputs. Of Qt there
-- is what the inputs need.
use torrent_link.Prelude.{
  ℤ, pos, negsuc, ◌≡◌, ◌⊎◌, ◌+◌, refl, true, false, String, str_eq, Option, some, none, List, [],
  ◌∷◌, ◌++◌, arith, length, count, if◌then◌else◌, Bytes, bytes, bytes_key,
}
use torrent_link.Prelude.Assoc.{lookup}
use torrent_link.Tracker.Bencode.{encode_announce_ok}
use torrent_link.Tracker.Bencode.Decimal.{number, number-IsDecimal}
use torrent_link.Tracker.Bencode.Reader.{read_dict, num, str}
use torrent_link.Tracker.Bencode.Parse.{read_dict-announce_ok}
use torrent_link.Tracker.Query.{percent_decode_query_value}
use torrent_link.Tracker.Query.Decode.{done, literal, space, escape, percent_decode-Spells}
use torrent_link.Tracker.Peers.{Peer, PeerTable, swarm, compact, count_complete, count_incomplete}
use torrent_link.Tracker.Peers.Table.{peer_at}
use torrent_link.Tracker.Peers.Swarms.{IsValid, IsValid-nil}
use torrent_link.Tracker.Peers.Counts.{has_negative_left, count_complete-count_incomplete}
use torrent_link.Tracker.Peers.Compact.{read_compact, read_compact-compact}
use torrent_link.Tracker.Request.{
  Qt, Worker, Announce, peer_of, apply_announce, buffer_of, handle_read,
}
use torrent_link.Tracker.Request.Buffers.{
  Kept, Answered, AreSmall, read, closed, timer, handle_all, handle_read_cases, handle_all-AreSmall,
}
use torrent_link.Tracker.Request.Outcome.{
  Untouched, Announced, handle_read_table, peer_at-apply_announce, handle_all-IsValid,
}

abbrev port_item : Bytes → String → String
port_item qs key = if str_eq key "port" then "6881" else ""

abbrev int_of : String → Option ℤ
int_of s = if str_eq s "6881" then some (pos 6881) else none

abbrev qt : Qt
qt = record {
  trimmed = λ s. s;
  number = number;
  query_item = port_item;
  to_int = int_of;
  to_long_long = λ s. pos 0;
  to_lower = λ s. s;
  shuffle = λ ps. ps;
}

abbrev hash : Bytes
hash = bytes "AAAAAAAAAAAAAAAAAAAA"

abbrev peer : String → ℤ → Peer
peer id left = record {
  peer_id = bytes id;
  ipv4_host = 2_130_706_433;
  port = 6881;
  left = left;
  last_seen_ms = pos 1000;
}

-- A seed, a downloader, and a peer that says it has less than nothing left.
abbrev peers : List Peer
peers = peer "p1" (pos 0) ∷ peer "p2" (pos 10) ∷ peer "p3" (negsuc 0) ∷ []

abbrev table : PeerTable
table = (hash, peers) ∷ []

abbrev start : Worker
start = record { table = []; buffers = [] }

abbrev request : Bytes
request =
    bytes
      "GET /announce?info_hash=AAAAAAAAAAAAAAAAAAAA&peer_id=BBBBBBBBBBBBBBBBBBBB&port=6881 HTTP/1.0\r\n\r\n"

abbrev announce : Announce
announce = record {
  info_hash = hash;
  peer_id = bytes "p4";
  port = 6881;
  left = pos 5;
  numwant = pos 50;
  event = "started";
  ipv4_host = 2_130_706_434;
}

handle_read_cases_example :
    Kept qt 1
      (some 2)
      (pos 1000)
      (buffer_of qt 1 start ++ bytes "GET /ann")
      (handle_read qt 1 (some 2) (pos 1000) (bytes "GET /ann") start)
    ⊎ Answered qt 1
        (some 2)
        (pos 1000)
        (handle_read qt 1 (some 2) (pos 1000) (bytes "GET /ann") start)
handle_read_cases_example = handle_read_cases qt 1 (some 2) (pos 1000) (bytes "GET /ann") start

handle_read_table_example :
    Untouched qt
      (some 2)
      (buffer_of qt 1 start ++ request)
      []
      (handle_read qt 1 (some 2) (pos 1000) request start)
    ⊎ Announced qt
        (some 2)
        (buffer_of qt 1 start ++ request)
        (pos 1000)
        []
        (handle_read qt 1 (some 2) (pos 1000) request start)
handle_read_table_example = handle_read_table qt 1 (some 2) (pos 1000) request start

start-AreSmall : AreSmall start
unfolding lookup
start-AreSmall j b h = cc

handle_all-AreSmall_example : AreSmall (
    handle_all qt
      (read 1 (some 2) (pos 1000) (bytes "GET /ann")
        ∷ read 2 none (pos 1001) request
        ∷ closed 1
        ∷ [])
      start)
handle_all-AreSmall_example =
    handle_all-AreSmall qt
      (read 1 (some 2) (pos 1000) (bytes "GET /ann")
        ∷ read 2 none (pos 1001) request
        ∷ closed 1
        ∷ [])
      start start-AreSmall

handle_all-IsValid_example :
    IsValid (handle_all qt (read 1 (some 2) (pos 1000) request ∷ timer (pos 5000) ∷ []) start).table
handle_all-IsValid_example =
    handle_all-IsValid qt (read 1 (some 2) (pos 1000) request ∷ timer (pos 5000) ∷ []) start
      IsValid-nil

peer_at-apply_announce_example :
    peer_at hash (bytes "p4") (apply_announce qt (pos 2000) announce table)
    ≡ some (peer_of qt (pos 2000) announce)
peer_at-apply_announce_example =
    peer_at-apply_announce qt (pos 2000) announce table hash (bytes "p4")

count_complete-count_incomplete_example :
    count_complete hash table
      + count_incomplete hash table
      + count has_negative_left (swarm hash table)
    ≡ length (swarm hash table)
count_complete-count_incomplete_example = count_complete-count_incomplete hash table

read_compact-compact_example :
    read_compact (compact peers)
    ≡ (2_130_706_433, 6881) ∷ (2_130_706_433, 6881) ∷ (2_130_706_433, 6881) ∷ []
read_compact-compact_example = read_compact-compact peers (
  record { address = omega arith; port = omega arith },
  (
    record { address = omega arith; port = omega arith },
    (record { address = omega arith; port = omega arith }, tt),
  ),
)

read_dict-announce_ok_example :
    read_dict (encode_announce_ok number (pos 1800) (pos 900) (pos 1) (pos 2) (bytes "aaaabb"))
    ≡ some (
        (bytes "interval", num 1800)
        ∷ (bytes "min interval", num 900)
        ∷ (bytes "complete", num 1)
        ∷ (bytes "incomplete", num 2)
        ∷ (bytes "peers", str (bytes "aaaabb"))
        ∷ [])
read_dict-announce_ok_example =
    read_dict-announce_ok number number-IsDecimal 1800 900 1 2 (bytes "aaaabb")

percent_decode-Spells_example : percent_decode_query_value (bytes "a+%fF") ≡ b'a' ∷ b' ' ∷ 255 ∷ []
percent_decode-Spells_example = percent_decode-Spells (
    literal b'a' (λ h. omega arith) (λ h. omega arith)
      (space refl refl (escape 255 false true (omega arith) refl refl refl done)))
