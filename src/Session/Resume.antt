-- ===== src/Session/Resume.antt =====
-- saveAllResumeData: when its promise gets which number.
use torrent_link.Prelude.{
  ℕ, ℤ, ◌≡◌, ◌∙◌, refl, ap, arith, Option, none, some, List, [], ◌∷◌, ◌++◌, Bool, true, false, ◌&&◌,
  Option-cases, Bool-cases, inl, inr, nat_key, String,
}
use torrent_link.Prelude.Assoc.{lookup}
use torrent_link.Types.{TaskId}
use torrent_link.Session.{
  Handle, Promise, World, Worker, PendingMagnetMetaEntry, TorrentInfo, SessionStats, fulfil, call,
  valid_handle,
}
use torrent_link.Session.Adding.{prepare_with, cancel_prepared_magnet, emit_duplicate_rejected}
use torrent_link.Session.Cmds.{Cmd, handle_cmd, save_all_resume_data_cmd}
use torrent_link.Session.Alerts.{
  Alert, handle_alert, save_resume_data_alert, save_resume_data_failed_alert, answer_stats,
  try_fulfill, answer_metadata, settle_entry, torrent_file_of, configure_for_fetch, metadata_failed,
  poll_keys, poll_pending_magnet_metadata,
}
use torrent_link.Session.Ledger.{Ledger, ledger, ledger-drop_handle, ledger-configure_for_fetch}

-- What the worker's thread does, one thing after the other.
pub data Input : Type 0 where
  command : World → Cmd → Input
  alert : World → Alert → Input
  poll : World → Input

abbrev pub after_command : Worker → Option Worker → Worker
after_command w none = w
after_command w (some w') = w'

abbrev pub step : Input → Worker → Worker
step (command world c) w = after_command w (handle_cmd world c w)
step (alert world a) w = (handle_alert world a w).0
step (poll world) w = poll_pending_magnet_metadata world w

abbrev pub steps : List Input → Worker → Worker
steps [] w = w
steps (i ∷ is) w = steps is (step i w)

abbrev pub is_save_all : Input → Bool
is_save_all (command world (save_all_resume_data_cmd dir promise)) = true
is_save_all _ = false

-- The saves that the inputs report: true for data that the worker could write to a file.
abbrev pub save_of : Input → List Bool
save_of (alert world (save_resume_data_alert opened)) = opened ∷ []
save_of (alert world save_resume_data_failed_alert) = false ∷ []
save_of _ = []

abbrev pub saves : List Input → List Bool
saves [] = []
saves (i ∷ is) = save_of i ++ saves is

abbrev pub NoSaveAll : List Input → Type 0
NoSaveAll [] = Unit {0}
NoSaveAll (i ∷ is) = (is_save_all i ≡ false) × NoSaveAll is

-- The fields that saving uses.
pub record Saving : Type 0 where
  pub promise : Option Promise
  pub left : ℤ
  pub written : ℕ
  pub dir : String

abbrev pub saving : Ledger → Saving
saving l = record { promise = l.saving; left = l.saves_left; written = l.written; dir = l.save_dir }

pub saving-answer_stats :
    (s : SessionStats) (o : Option Promise) (w : Worker)
    → saving (ledger (answer_stats s o w).0) ≡ saving (ledger w)
unfolding answer_stats fulfil
saving-answer_stats s none w = refl
saving-answer_stats s (some p) w = refl

module _ (world : World) where
  pub saving-settle_entry :
      (key : TaskId) (h : Handle) (e : PendingMagnetMetaEntry) (q : Promise)
      (o : Option TorrentInfo) (w : Worker)
      → saving (ledger (settle_entry world key h e q o w)) ≡ saving (ledger w)
  unfolding settle_entry fulfil
  saving-settle_entry key h e q none w = refl
  saving-settle_entry key h e q (some ti) w = refl

  pub saving-try_fulfill :
      (key : TaskId) (h : Handle) (w : Worker)
      → saving (ledger (try_fulfill world key h w)) ≡ saving (ledger w)
  unfolding try_fulfill answer_metadata
  saving-try_fulfill key h w = elim (Option-cases (lookup key w.pending_magnet_meta)) [
    | inl e ↦ rw (e, try_fulfill)
    | inr (entry, e) ↦ elim (Option-cases entry.done) [
      | inl d ↦ rw (e, try_fulfill) (rw d)
      | inr (q, d) ↦ elim (Bool-cases (world.is_valid h && world.has_metadata h)) [
        | inl ready ↦
            rw (e, try_fulfill)
              (rw d (
                rw (ready, answer_metadata)
                  (saving-settle_entry key h entry q (torrent_file_of world h) w)))
        | inr absent ↦ rw (e, try_fulfill) (rw d (rw (absent, answer_metadata)))
      ]
    ]
  ]

  pub saving-poll_keys :
      (keys : List TaskId) (w : Worker)
      → saving (ledger (poll_keys world keys w)) ≡ saving (ledger w)
  unfolding poll_keys
  saving-poll_keys [] w = refl
  saving-poll_keys (key ∷ keys) w = elim (Option-cases (lookup key w.pending_magnet_meta)) [
    | inl e ↦ rw (e, poll_keys) (saving-poll_keys keys w)
    | inr (entry, e) ↦ elim (Option-cases (valid_handle world key w)) [
      | inl v ↦ rw (e, poll_keys) (rw v (saving-poll_keys keys w))
      | inr (h, v) ↦
          let w1 : Worker = configure_for_fetch world h w in
          rw (e, poll_keys)
            (rw v (
              saving-poll_keys keys (try_fulfill world key h w1)
              ∙ saving-try_fulfill key h w1
              ∙ ap saving (ledger-configure_for_fetch world h w)))
    ]
  ]

  pub saving-metadata_failed :
      (h : Handle) (w : Worker) → saving (ledger (metadata_failed world h w)) ≡ saving (ledger w)
  unfolding metadata_failed fulfil
  saving-metadata_failed h w = ground arith

  pub saving-prepare_with :
      (q : Promise) (uri path : String) (trackers : List String) (w : Worker)
      → saving (ledger (prepare_with world q uri path trackers w)) ≡ saving (ledger w)
  unfolding prepare_with fulfil call emit_duplicate_rejected
  saving-prepare_with q uri path trackers w = ground arith

  pub saving-cancel :
      (id : TaskId) (w : Worker)
      → saving (ledger (cancel_prepared_magnet world id w)) ≡ saving (ledger w)
  unfolding cancel_prepared_magnet
  saving-cancel id w = ap saving (ledger-drop_handle world id w)
