-- ===== src/Session.antt =====
-- lt/session_cmds.h, lt/session_ops.h and the state of SessionWorker::Impl of lt/session_worker.cc.
-- libtorrent is outside: a record of what the code asks it and Qt for, and a list of what it is told.
-- The maps' keys, the texts of task ids, are the task ids.
pub mod Adding
pub mod Control
pub mod Files
pub mod Cmds
pub mod Alerts
pub mod Loop
pub mod Ledger
pub mod Quiet
pub mod Promises
pub mod Once
pub mod Resume
pub mod Steady
pub mod Saves
use torrent_link.Prelude.{
  ℕ, ℤ, pos, Bool, true, false, String, Option, none, some, List, [], ◌∷◌, ◌++◌, Bytes, nat_key,
}
use torrent_link.Prelude.Assoc.{Assoc, lookup}
use torrent_link.Types.{TaskId}
use torrent_link.Base.Input.{QtText}

abbrev pub Handle : Type 0
Handle = ℕ

-- A std::promise that is shared with the thread that waits for it.
abbrev pub Promise : Type 0
Promise = ℕ

pub record TorrentInfo : Type 0 where
  pub info_hashes : String
  pub name : String
  pub comment : String
  pub creation_date : ℤ
  pub files : List (String × ℤ)
  pub info_hash_v1 : Option String
  pub info_hash_v2 : Option String

pub record Flags : Type 0 where
  pub auto_managed : Bool
  pub paused : Bool
  pub upload_mode : Bool
  pub stop_when_ready : Bool
  pub sequential_download : Bool
  pub no_verify_files : Bool

pub record AddTorrentParams : Type 0 where
  pub ti : Option TorrentInfo
  pub info_hashes : String
  pub name : String
  pub save_path : String
  pub trackers : List String
  pub flags : Flags
  pub file_priorities : List ℕ

pub record AddTorrentOptions : Type 0 where
  pub file_priorities : List ℕ
  pub start_torrent : Bool
  pub stop_when_ready : Bool
  pub sequential_download : Bool
  pub skip_hash_check : Bool
  pub add_to_top_queue : Bool
  pub category : String
  pub tags_csv : String

pub record AnnounceEntry : Type 0 where
  pub url : String
  pub tier : ℕ
  pub source : ℕ
  pub fail_limit : ℕ

pub data FilePriorityLevel : Type 0 where
  not_downloaded do_not_download normal high highest file_order : FilePriorityLevel

pub record MagnetMetadata : Type 0 where
  pub task_id : TaskId
  pub name : String
  pub total_bytes : ℤ
  pub creation_date : ℤ
  pub info_hash_v1 : String
  pub info_hash_v2 : String
  pub comment : String
  pub file_paths : List String
  pub file_sizes : List ℤ
  pub exported_torrent_path : String

pub record SessionStats : Type 0 where
  pub dht_nodes : ℤ
  pub download_rate : ℤ
  pub upload_rate : ℤ

-- What libtorrent, Qt and the file system answer at one moment. `none` is an error.
pub record World : Type 0 where
  pub qt : QtText
  pub task_id_from : String → TaskId
  pub is_valid : Handle → Bool
  pub has_metadata : Handle → Bool
  pub is_paused : Handle → Bool
  pub handle_hashes : Handle → String
  pub torrent_file : Handle → Option TorrentInfo
  pub torrent_file_with_hashes : Handle → Option TorrentInfo
  pub trackers : Handle → List AnnounceEntry
  pub priorities : Handle → List ℕ
  pub parse_magnet_uri : String → Option AddTorrentParams
  pub load_torrent_file : String → Option TorrentInfo
  pub read_resume_data : Bytes → Option AddTorrentParams
  pub default_params : AddTorrentParams
  pub announce_entry : String → AnnounceEntry
  -- exportTorrentInfoToFile and magnetDisplayNameFallback
  pub exported_path : TorrentInfo → String → TaskId → String
  pub display_name : String → TaskId → String
  -- defaultPerTorrentUploadSlotsLimit, which applyRuntimeSettings sets from another thread.
  pub upload_slots_limit : ℕ
  -- lastIndexOf('/'), `none` for -1
  pub last_slash : String → Option ℕ
  -- mid(prefix.size()) of a text that starts with the prefix, `none` for one that does not
  pub strip_prefix : String → String → Option String
  pub num_pieces : TorrentInfo → ℕ
  -- the piece of map_file(file, offset, 1)
  pub piece_at : TorrentInfo → ℕ → ℤ → ℕ

pub data Flag : Type 0 where
  auto_managed_flag sequential_flag upload_mode_flag paused_flag : Flag

pub data HandleCall : Type 0 where
  set_flag : Flag → HandleCall
  unset_flag : Flag → HandleCall
  pause : HandleCall
  resume : HandleCall
  move_storage : String → HandleCall
  replace_trackers : List AnnounceEntry → HandleCall
  force_recheck : HandleCall
  force_reannounce : HandleCall
  force_reannounce_at : ℕ → HandleCall
  queue_position_up : HandleCall
  queue_position_down : HandleCall
  queue_position_top : HandleCall
  queue_position_bottom : HandleCall
  save_resume_data : HandleCall
  prioritize_files : List ℕ → HandleCall
  piece_priority : ℕ → ℕ → HandleCall
  rename_file : ℕ → String → HandleCall
  set_max_connections : ℕ → HandleCall
  set_max_uploads : ℕ → HandleCall

pub data Call : Type 0 where
  async_add_torrent : AddTorrentParams → Call
  remove_torrent : Handle → Bool → Call
  on_handle : Handle → HandleCall → Call
  post_session_stats : Call
  post_torrent_updates : Call

pub data Answer : Type 0 where
  no_metadata : Answer
  metadata : MagnetMetadata → Answer
  saved : ℕ → Answer
  stats : SessionStats → Answer
  -- A query is answered from a handle, or without one.
  queried : Option Handle → Answer

pub record PendingMagnetMetaEntry : Type 0 where
  pub done : Option Promise
  pub temp_save_path : String
  pub magnet_uri : String

pub record Worker : Type 0 where
  pub handles_by_task_id : Assoc TaskId Handle
  pub default_connections_limit : ℕ
  pub per_task_connections_limit : Assoc TaskId ℕ
  pub pending_add_opts : Assoc TaskId AddTorrentOptions
  pub prepared_torrent_info : Assoc TaskId TorrentInfo
  pub pending_magnet_meta : Assoc TaskId PendingMagnetMetaEntry
  pub pending_resume_data_saves : ℤ
  pub completed_resume_data_saves : ℕ
  pub resume_data_dir : String
  pub resume_data_done : Option Promise
  pub pending_session_stats : Option Promise
  -- What went out: calls of libtorrent, values given to promises, ids of the rejected duplicates.
  pub calls : List Call
  pub answers : List (Promise × Answer)
  pub rejected : List TaskId

abbrev pub new_worker : Worker
new_worker = record {
  handles_by_task_id = [];
  default_connections_limit = 0;
  per_task_connections_limit = [];
  pending_add_opts = [];
  prepared_torrent_info = [];
  pending_magnet_meta = [];
  pending_resume_data_saves = pos 0;
  completed_resume_data_saves = 0;
  resume_data_dir = "";
  resume_data_done = none;
  pending_session_stats = none;
  calls = [];
  answers = [];
  rejected = [];
}

unfoldable pub call : Call → Worker → Worker
call c w = record w { calls = w.calls ++ c ∷ [] }

abbrev pub tell : Handle → HandleCall → Worker → Worker
tell h c w = call (on_handle h c) w

-- `done->set_value(…)`
unfoldable pub fulfil : Promise → Answer → Worker → Worker
fulfil p a w = record w { answers = w.answers ++ (p, a) ∷ [] }

-- The handle of a task that is in the map and valid.
unfoldable pub valid_handle : World → TaskId → Worker → Option Handle
valid_handle world id w = elim (lookup id w.handles_by_task_id) [
  | none ↦ none
  | some h ↦ elim (world.is_valid h) [ true ↦ some h | false ↦ none ]
]
