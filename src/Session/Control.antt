-- ===== src/Session/Control.antt =====
-- lt/session_ops_control.cc, and of lt/session_ops_settings.cc the limits on connections. Not here:
-- SetFirstLastPiecePriority, RenameTaskFileOrFolder and ApplyRuntimeSettings.
use torrent_link.Prelude.{
  ℕ, ℤ, pos, negsuc, pos_part, zero, suc, ◌+◌, ◌%◌, min, ◌==◌, find?, Bool, String, str_eq,
  is_empty, Option, none, some, List, [], ◌∷◌, ◌++◌, map, if◌then◌else◌, nat_key,
}
use torrent_link.Prelude.Assoc.{lookup, put}
use torrent_link.Types.{TaskId}
use torrent_link.Session.{
  Handle, Promise, World, Worker, AnnounceEntry, HandleCall, set_flag, unset_flag,
  auto_managed_flag, sequential_flag, pause, resume, move_storage, replace_trackers,
  force_reannounce, force_reannounce_at, queue_position_top, save_resume_data, prioritize_files,
  set_max_connections, FilePriorityLevel, do_not_download, not_downloaded, normal, high, highest,
  file_order, remove_torrent, saved, call, tell, fulfil, valid_handle,
}

unfoldable pub to_lt_priority : FilePriorityLevel → ℕ
to_lt_priority do_not_download = 0
to_lt_priority not_downloaded = 1
to_lt_priority high = 6
to_lt_priority highest = 7
to_lt_priority file_order = 4
to_lt_priority normal = 4

unfoldable pub tell_all : Handle → List HandleCall → Worker → Worker
unfolding call
tell_all h [] w = w
tell_all h (c ∷ cs) w = tell_all h cs (tell h c w)

-- Calls on the handle of a task that is in the map, valid or not.
unfoldable pub on_known : TaskId → List HandleCall → Worker → Worker
unfolding tell_all
on_known id cs w = elim (lookup id w.handles_by_task_id) [ none ↦ w | some h ↦ tell_all h cs w ]

unfoldable pub pause_task : TaskId → Worker → Worker
unfolding on_known
pause_task id = on_known id (unset_flag auto_managed_flag ∷ pause ∷ [])

unfoldable pub remove_task : TaskId → Bool → Worker → Worker
unfolding call
remove_task id remove_files w = elim (lookup id w.handles_by_task_id) [
  | none ↦ w
  | some h ↦ call (remove_torrent h remove_files) w
]

unfoldable pub move_storage_of : TaskId → String → Worker → Worker
unfolding on_known
move_storage_of id target_path = on_known id (move_storage target_path ∷ [])

-- std::clamp(limit, 0, 20000)
abbrev pub clamp_connections : ℤ → ℕ
clamp_connections limit = min (pos_part limit) 20000

-- saveAllResumeData where no save has been asked for.
unfoldable pub nothing_to_save : Option Promise → Worker → Worker
unfolding fulfil
nothing_to_save none w = w
nothing_to_save (some p) w = fulfil p (saved 0) (record w { resume_data_done = none })

module _ (world : World) where
  -- Calls on the handle of a task that is in the map and valid.
  unfoldable pub on_valid : TaskId → List HandleCall → Worker → Worker
  unfolding valid_handle tell_all
  on_valid id cs w = elim (valid_handle world id w) [ none ↦ w | some h ↦ tell_all h cs w ]

  unfoldable pub resume_task : TaskId → Worker → Worker
  unfolding on_valid
  resume_task id = on_valid id (set_flag auto_managed_flag ∷ resume ∷ queue_position_top ∷ [])

  -- The loop of EditTrackers.
  unfoldable pub entries_of : List String → List AnnounceEntry
  entries_of [] = []
  entries_of (u ∷ us) =
      let rest = entries_of us in
      let t = world.qt.trimmed u in if is_empty t then rest else world.announce_entry t ∷ rest

  unfoldable pub edit_trackers : TaskId → List String → Worker → Worker
  unfolding on_known entries_of
  edit_trackers id trackers = on_known id (replace_trackers (entries_of trackers) ∷ [])

  unfoldable pub set_sequential_download : TaskId → Bool → Worker → Worker
  unfolding on_valid
  set_sequential_download id enabled =
      on_valid id ((if enabled then set_flag sequential_flag else unset_flag sequential_flag) ∷ [])

  unfoldable pub set_auto_managed : TaskId → Bool → Worker → Worker
  unfolding on_valid
  set_auto_managed id enabled =
      on_valid id
        ((if enabled then set_flag auto_managed_flag else unset_flag auto_managed_flag) ∷ [])

  unfoldable pub force_start : TaskId → Worker → Worker
  unfolding on_valid
  force_start id = on_valid id (unset_flag auto_managed_flag ∷ resume ∷ [])

  -- A loop over the handles of the map that are valid, with one call for each.
  unfoldable pub on_each_valid : HandleCall → List (TaskId × Handle) → Worker → Worker
  unfolding call
  on_each_valid c [] w = w
  on_each_valid c ((id, h) ∷ hs) w = on_each_valid c hs (if world.is_valid h then tell h c w else w)

  unfoldable pub count_valid : List (TaskId × Handle) → ℕ
  count_valid [] = 0
  count_valid ((id, h) ∷ hs) = if world.is_valid h then suc (count_valid hs) else count_valid hs

  unfoldable pub save_all_resume_data : String → Option Promise → Worker → Worker
  unfolding on_each_valid count_valid nothing_to_save
  save_all_resume_data resume_dir done w =
      let n = count_valid w.handles_by_task_id in
      let asked = on_each_valid save_resume_data w.handles_by_task_id w in
      let w' = record asked {
        resume_data_dir = resume_dir;
        resume_data_done = done;
        pending_resume_data_saves = pos n;
        completed_resume_data_saves = 0;
      } in
      if n == 0 then nothing_to_save done w' else w'

  -- A file index that is negative or too large is passed over.
  unfoldable pub set_priority : ℕ → ℕ → List ℕ → List ℕ
  set_priority target i [] = []
  set_priority target zero (p ∷ ps) = target ∷ ps
  set_priority target (suc i) (p ∷ ps) = p ∷ set_priority target i ps

  unfoldable pub set_priorities : ℕ → List ℤ → List ℕ → List ℕ
  unfolding set_priority
  set_priorities target [] ps = ps
  set_priorities target (raw ∷ raws) ps =
      set_priorities target raws (elim raw [ pos i ↦ set_priority target i ps | negsuc i ↦ ps ])

  unfoldable pub set_task_file_priority : TaskId → List ℤ → FilePriorityLevel → Worker → Worker
  unfolding valid_handle set_priorities to_lt_priority tell_all
  set_task_file_priority id file_indices level w = elim (valid_handle world id w) [
    | none ↦ w
    | some h ↦
        let prioritized =
          prioritize_files
            (set_priorities (to_lt_priority level) file_indices (world.priorities h)) in
        elim (world.priorities h) [
          | [] ↦ w
          | p ∷ ps ↦ elim level [
            | file_order ↦ tell_all h (set_flag sequential_flag ∷ prioritized ∷ []) w
            | _ ↦ tell_all h (prioritized ∷ []) w
          ]
        ]
  ]

  -- The loop of mergedTrackers; the tier of an announce_entry is a byte.
  unfoldable pub merged_from : ℕ → List AnnounceEntry → List String → List AnnounceEntry
  merged_from tier old [] = []
  merged_from tier old (u ∷ us) =
      let t = world.qt.trimmed u in
      let skip = is_empty t in
      let rest = merged_from (if skip then tier else tier + 1) old us in
      let fresh = record (world.announce_entry t) { tier = tier % 256 } in
      if skip
      then rest
      else (elim (find? (λ o. str_eq (world.qt.trimmed o.url) t) old) [
        | none ↦ fresh
        | some o ↦ record fresh { source = o.source; fail_limit = o.fail_limit }
      ])
        ∷ rest

  unfoldable pub merged_trackers : List AnnounceEntry → List String → List AnnounceEntry
  unfolding merged_from
  merged_trackers old urls = merged_from 0 old urls

  -- The commands on single trackers replace them all, by the new list of URLs.
  unfoldable pub change_trackers : (List String → List String) → TaskId → Worker → Worker
  unfolding valid_handle merged_trackers call
  change_trackers change id w = elim (valid_handle world id w) [
    | none ↦ w
    | some h ↦
        let old = world.trackers h in
        tell h (replace_trackers (merged_trackers old (change (map (λ a. a.url) old)))) w
  ]

  unfoldable pub add_task_tracker : TaskId → String → Worker → Worker
  unfolding change_trackers
  add_task_tracker id url = change_trackers (λ urls. urls ++ url ∷ []) id

  unfoldable pub edited_urls : String → String → List String → List String
  edited_urls old_url new_url [] = []
  edited_urls old_url new_url (u ∷ us) =
      (if str_eq (world.qt.trimmed u) (world.qt.trimmed old_url)
        then world.qt.trimmed new_url
        else u)
      ∷ edited_urls old_url new_url us

  unfoldable pub edit_task_tracker : TaskId → String → String → Worker → Worker
  unfolding change_trackers edited_urls
  edit_task_tracker id old_url new_url = change_trackers (edited_urls old_url new_url) id

  unfoldable pub remaining_urls : String → List String → List String
  remaining_urls url [] = []
  remaining_urls url (u ∷ us) =
      if str_eq (world.qt.trimmed u) (world.qt.trimmed url)
      then remaining_urls url us
      else u ∷ remaining_urls url us

  unfoldable pub remove_task_tracker : TaskId → String → Worker → Worker
  unfolding change_trackers remaining_urls
  remove_task_tracker id url = change_trackers (remaining_urls url) id

  -- The index of the first tracker with this URL, from `i` on.
  unfoldable pub tracker_index : ℕ → String → List AnnounceEntry → Option ℕ
  tracker_index i url [] = none
  tracker_index i url (a ∷ as') =
      let rest = tracker_index (i + 1) url as' in
      if str_eq (world.qt.trimmed a.url) (world.qt.trimmed url) then some i else rest

  unfoldable pub force_reannounce_tracker : TaskId → String → Worker → Worker
  unfolding valid_handle tracker_index call
  force_reannounce_tracker id url w = elim (valid_handle world id w) [
    | none ↦ w
    | some h ↦ elim (tracker_index 0 url (world.trackers h)) [
      | none ↦ tell h force_reannounce w
      | some i ↦ tell h (force_reannounce_at i) w
    ]
  ]

  unfoldable pub set_default_connections_limit : ℤ → Worker → Worker
  unfolding on_each_valid
  set_default_connections_limit limit w =
      let v = clamp_connections limit in
      on_each_valid (set_max_connections v) w.handles_by_task_id
        (record w { default_connections_limit = v })

  unfoldable pub set_task_connections_limit : TaskId → ℤ → Worker → Worker
  unfolding on_valid
  set_task_connections_limit id limit w =
      let v = clamp_connections limit in
      on_valid id (set_max_connections v ∷ [])
        (record w { per_task_connections_limit = put id v w.per_task_connections_limit })
