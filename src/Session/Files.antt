-- ===== src/Session/Files.antt =====
-- SetFirstLastPiecePriority and RenameTaskFileOrFolder of lt/session_ops_control.cc.
pub mod Renames
use Prim.Native.String.{◌++◌ as joined}
use torrent_link.Prelude.{
  ℕ, ℤ, pos, negsuc, ◌+ℤ◌, ◌+◌, ◌==◌, Bool, true, false, not, ◌||◌, String, str_eq, is_empty,
  Option, none, some, List, [], ◌∷◌, ◌++◌, if◌then◌else◌,
}
use torrent_link.Types.{TaskId}
use torrent_link.Session.{
  Handle, World, Worker, TorrentInfo, HandleCall, piece_priority, rename_file, tell, valid_handle,
}
use torrent_link.Session.Control.{tell_all}

-- `std::max<std::int64_t>(n, 0)`
abbrev pub at_least_zero : ℤ → ℤ
at_least_zero (pos n) = pos n
at_least_zero (negsuc n) = pos 0

abbrev pub with_slash : String → String
with_slash s = joined s "/"

module _ (world : World) where
  -- The first and the last piece of each file, from file i on.
  unfoldable pub end_pieces : TorrentInfo → ℕ → ℕ → List (String × ℤ) → List HandleCall
  end_pieces ti prio i [] = []
  end_pieces ti prio i ((path, size) ∷ files) =
      let first_piece = world.piece_at ti i (pos 0) in
      let last_piece = world.piece_at ti i (at_least_zero (size +ℤ negsuc 0)) in
      let rest = end_pieces ti prio (i + 1) files in
      piece_priority first_piece prio
      ∷ (if last_piece == first_piece then rest else piece_priority last_piece prio ∷ rest)

  unfoldable pub set_first_last_piece_priority : TaskId → Bool → Worker → Worker
  unfolding valid_handle end_pieces
  set_first_last_piece_priority id enabled w = elim (valid_handle world id w) [
    | none ↦ w
    | some h ↦ elim (world.torrent_file h) [
      | none ↦ w
      | some ti ↦
          if world.num_pieces ti == 0
          then w
          else tell_all h (end_pieces ti (if enabled then 7 else 4) 0 ti.files) w
    ]
  ]

  unfoldable pub renamed_root : String → String → String
  renamed_root src target_name = elim (world.last_slash src) [
    | none ↦ target_name
    | some slash ↦
        let parent = world.qt.left src slash in
        if is_empty parent then target_name else joined (with_slash parent) target_name
  ]

  -- The path that a file gets.
  unfoldable pub new_path : String → String → String → Option String
  new_path src root p =
      if str_eq p src then some root else elim (world.strip_prefix (with_slash src) p) [
        | none ↦ none
        | some suffix ↦ some (joined (with_slash root) suffix)
      ]

  -- The calls for the files from i on.
  unfoldable pub rename_calls : String → String → ℕ → List (String × ℤ) → List HandleCall
  unfolding new_path
  rename_calls src root i [] = []
  rename_calls src root i ((p, size) ∷ files) =
      let rest = rename_calls src root (i + 1) files in
      elim (new_path src root p) [ none ↦ rest | some q ↦ rename_file i q ∷ rest ]

  unfoldable pub rename_task_file_or_folder : TaskId → String → String → Worker → Worker
  unfolding valid_handle renamed_root rename_calls
  rename_task_file_or_folder id logical_path new_name w = elim (valid_handle world id w) [
    | none ↦ w
    | some h ↦ elim (world.torrent_file h) [
      | none ↦ w
      | some ti ↦
          let src = world.qt.trimmed logical_path in
          let target_name = world.qt.trimmed new_name in
          if is_empty src || is_empty target_name
          then w
          else tell_all h (rename_calls src (renamed_root src target_name) 0 ti.files) w
    ]
  ]
