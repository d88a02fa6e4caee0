-- ===== src/Examples/Sessions.antt =====
-- lt/session_worker.cc and base/input_sanitizer.cc at concrete inputs.
use Prim.Native.String.{◌++◌ as joined}
use torrent_link.Prelude.{
  ◌≢◌, Bool, arith, Option, pos, ap, ap₂, sym, ◌∙◌, Bool-cases, inl, inr, str_eq_iff, ◌≡◌, ◌≤◌,
  refl, true, false, String, str_eq, none, some, List, [], ◌∷◌, ◌++◌, ◌&&◌, filter, is_empty, not,
  count, nat_key, suc, length,
}
use torrent_link.Base.Errors.{is_ok}
use torrent_link.Base.Input.{QtText, validate_tracker_url, sanitize_trackers}
use torrent_link.Base.Input.Trackers.{unique, sanitize_trackers-unique}
use torrent_link.Session.{World, Worker, new_worker, AddTorrentParams, Flags}
use torrent_link.Session.Control.{count_valid}
use torrent_link.Session.Cmds.{
  prepare_magnet_metadata_cmd, save_all_resume_data_cmd, shutdown_cmd, pause_cmd,
}
use torrent_link.Session.Alerts.{
  metadata_failed_alert, save_resume_data_alert, save_resume_data_failed_alert,
}
use torrent_link.Session.Loop.{Round, run}
use torrent_link.Session.Promises.{settled}
use torrent_link.Session.Once.{carried_in, run-settled}
use torrent_link.Session.Files.{rename_calls}
use torrent_link.Session.Files.Renames.{targets, AreApart, rename_calls-AreApart}
use torrent_link.Session.Resume.{Input, command, alert, poll, saves, step}
use torrent_link.Session.Saves.{Answered, saved_through, save_all-Answered}

abbrev plain_text : QtText
plain_text = record {
  trimmed = λ s. s;
  size = λ s. 20;
  to_lower = λ s. s;
  contains_null_byte = λ s. false;
  starts_with_ci = λ p s. true;
  ends_with = λ s e. true;
  segments = λ s. s ∷ [];
  clean_path = λ s. s;
  url_is_valid = λ s. not (str_eq s "bad");
  url_scheme = λ s. "udp";
  split_commas = λ s. s ∷ [];
  left = λ s n. s;
}

sanitize_trackers-unique_example :
    sanitize_trackers plain_text ("a" ∷ "bad" ∷ "b" ∷ "a" ∷ [])
    ≡ unique plain_text (
        filter
          (λ x. not (is_empty x) && is_ok (validate_tracker_url plain_text x))
          ("a" ∷ "bad" ∷ "b" ∷ "a" ∷ []))
sanitize_trackers-unique_example =
    sanitize_trackers-unique plain_text ("a" ∷ "bad" ∷ "b" ∷ "a" ∷ [])

sanitize_trackers_run : sanitize_trackers plain_text ("a" ∷ "bad" ∷ "b" ∷ "a" ∷ []) ≡ "a" ∷ "b" ∷ []
unfolding sanitize_trackers validate_tracker_url
sanitize_trackers_run = refl

abbrev no_flags : Flags
no_flags = record {
  auto_managed = false;
  paused = false;
  upload_mode = false;
  stop_when_ready = false;
  sequential_download = false;
  no_verify_files = false;
}

abbrev no_params : AddTorrentParams
no_params = record {
  ti = none;
  info_hashes = "h";
  name = "";
  save_path = "";
  trackers = [];
  flags = no_flags;
  file_priorities = [];
}

-- Every magnet link names the torrent of task 7, and every handle is valid.
abbrev still_world : World
still_world = record {
  qt = plain_text;
  task_id_from = λ s. 7;
  is_valid = λ h. true;
  has_metadata = λ h. false;
  is_paused = λ h. false;
  handle_hashes = λ h. "h";
  torrent_file = λ h. none;
  torrent_file_with_hashes = λ h. none;
  trackers = λ h. [];
  priorities = λ h. [];
  parse_magnet_uri = λ s. some no_params;
  load_torrent_file = λ s. none;
  read_resume_data = λ s. some no_params;
  default_params = no_params;
  announce_entry = λ s. record { url = s; tier = 0; source = 0; fail_limit = 0 };
  exported_path = λ ti dir key. "";
  display_name = λ uri key. uri;
  upload_slots_limit = 0;
  last_slash = λ s. none;
  strip_prefix = λ p s. none;
  num_pieces = λ ti. 1;
  piece_at = λ ti i o. 0;
}

-- Two fetches of one magnet link: the second takes the place of the first.
abbrev rounds : List Round
rounds =
    record {
      commands =
          (still_world, prepare_magnet_metadata_cmd "magnet:?a" "/tmp" [] (some 5))
          ∷ (still_world, prepare_magnet_metadata_cmd "magnet:?a" "/tmp" [] (some 6))
          ∷ [];
      alerts = (still_world, metadata_failed_alert 1) ∷ (still_world, metadata_failed_alert 1) ∷ [];
      poll_world = still_world;
    }
    ∷ record {
      commands =
          (still_world, save_all_resume_data_cmd "/d" (some 8)) ∷ (still_world, shutdown_cmd) ∷ [];
      alerts = (still_world, save_resume_data_failed_alert) ∷ [];
      poll_world = still_world;
    }
    ∷ []

run-settled_example : settled 6 (run rounds new_worker).answers ≤ carried_in 6 rounds
run-settled_example = run-settled 6 rounds

abbrev two_tasks : Worker
two_tasks = record new_worker { handles_by_task_id = (1, 11) ∷ (2, 12) ∷ [] }

abbrev between : List Input
between =
    command still_world (pause_cmd 1)
    ∷ alert still_world (save_resume_data_alert true)
    ∷ poll still_world
    ∷ []

two_valid : count_valid still_world two_tasks.handles_by_task_id ≡ suc (length (saves between))
unfolding count_valid
two_valid = refl

save_all-Answered_example :
    ((saved_through still_world "/d" 4 two_tasks between).resume_data_done ≡ some 4)
    × Answered 4
        (count (λ x. x) (saves between ++ false ∷ []))
        (saved_through still_world "/d" 4 two_tasks between)
        (step
          (alert still_world save_resume_data_failed_alert)
          (saved_through still_world "/d" 4 two_tasks between))
save_all-Answered_example =
    save_all-Answered still_world "/d" 4 two_tasks between
      (alert still_world save_resume_data_failed_alert) false refl (refl, (refl, (refl, tt))) refl
      two_valid

abbrev text_or : String → Option String → String
text_or d none = d
text_or d (some t) = t

text_differ : (s t : String) → str_eq s t ≡ false → s ≢ t
text_differ s t h = λ e. let same : str_eq s t ≡ true = (str_eq_iff s t).1 e in cc

abbrev below_a : Bool → Option String
below_a true = some "x"
below_a false = none

-- Its files are a folder with a file, and a file beside it.
abbrev folder_world : World
folder_world = record still_world {
  strip_prefix = λ p s. below_a (str_eq s "a/x" && str_eq p "a/");
}

folder_world-Strips :
    (prefix s suffix : String)
    → folder_world.strip_prefix prefix s ≡ some suffix
    → s ≡ joined prefix suffix
folder_world-Strips prefix s suffix h = elim (Bool-cases (str_eq s "a/x" && str_eq prefix "a/")) [
  | inr k ↦ let none_found : none ≡ some suffix = ap below_a (sym k) ∙ h in cc
  | inl k ↦
      let found : some "x" ≡ some suffix = ap below_a (sym k) ∙ h in
      let path : str_eq s "a/x" ≡ true = ground (arith, k) in
      let folder : str_eq prefix "a/" ≡ true = ground (arith, k) in
      (str_eq_iff s "a/x").0 path
      ∙ ap₂ joined (sym ((str_eq_iff prefix "a/").0 folder)) (ap (text_or "x") found)
]

rename_calls-AreApart_example : AreApart (
    targets
      (rename_calls folder_world "a" "b" 0 (("a/x", pos 1) ∷ ("c", pos 2) ∷ ("a", pos 3) ∷ [])))
rename_calls-AreApart_example =
    rename_calls-AreApart folder_world "a" "b" 0 (("a/x", pos 1) ∷ ("c", pos 2) ∷ ("a", pos 3) ∷ [])
      folder_world-Strips
      (
        (text_differ "c" "a/x" refl, (text_differ "a" "a/x" refl, tt)),
        ((text_differ "a" "c" refl, tt), (tt, tt)),
      )

rename_calls_run :
    targets
      (rename_calls folder_world "a" "b" 0 (("a/x", pos 1) ∷ ("c", pos 2) ∷ ("a", pos 3) ∷ []))
    ≡ "b/x" ∷ "b" ∷ []
unfolding rename_calls
rename_calls_run = refl
