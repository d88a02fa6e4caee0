-- ===== src/Session/Promises.antt =====
-- No promise gets a value twice: std::promise::set_value throws at the second one.
use torrent_link.Prelude.{
  ℕ, ℤ, negsuc, ◌+ℤ◌, ◌+◌, ◌≤◌, ◌==◌, ◌≡◌, ◌∙◌, ◌&&◌, refl, sym, ap, arith, Option, none, some,
  List, [], ◌∷◌, ◌++◌, true, false, Option-cases, Bool-cases, inl, inr, nat_key, if◌then◌else◌,
}
use torrent_link.Prelude.Assoc.{Assoc, lookup, put, erase}
use torrent_link.Types.{TaskId}
use torrent_link.Session.{
  Handle, Promise, World, Worker, Answer, no_metadata, saved, stats, TorrentInfo, SessionStats,
  PendingMagnetMetaEntry, fulfil, valid_handle,
}
use torrent_link.Session.Alerts.{
  torrent_file_of, answer_metadata, try_fulfill, configure_for_fetch, poll_keys, metadata_answer,
  settle_entry, metadata_failed, finish_saves, close_saves, save_done, torrent_removed,
  session_stats_alert, metadata_received_alert, metadata_failed_alert, save_resume_data_alert,
  save_resume_data_failed_alert, add_torrent_alert, torrent_removed_alert, other_alert,
  note_written, answer_stats, is_at_most_zero, Alert, handle_alert,
}
use torrent_link.Session.Ledger.{Ledger, ledger, ledger-configure_for_fetch, ledger-torrent_added}

abbrev pub held : Promise → Option Promise → ℕ
held p none = 0
held p (some q) = if q == p then 1 else 0

abbrev pub held_metas : Promise → Assoc TaskId PendingMagnetMetaEntry → ℕ
held_metas p [] = 0
held_metas p ((key, e) ∷ m) = held p e.done + held_metas p m

-- How often a promise has got a value.
abbrev pub settled : Promise → List (Promise × Answer) → ℕ
settled p [] = 0
settled p ((q, a) ∷ l) = held p (some q) + settled p l

-- How often it has got one or still may get one.
abbrev pub owed : Promise → Ledger → ℕ
owed p l = held_metas p l.metas + held p l.saving + held p l.counting + settled p l.given

pub settled-append :
    (p q : Promise) (a : Answer) (l : List (Promise × Answer))
    → settled p (l ++ (q, a) ∷ []) ≡ settled p l + held p (some q)
settled-append p q a [] = omega arith
settled-append p q a ((r, b) ∷ l) = omega (arith, settled-append p q a l)

pub held_metas-put :
    (p : Promise) (key : TaskId) (e : PendingMagnetMetaEntry)
    (m : Assoc TaskId PendingMagnetMetaEntry)
    → held_metas p (put key e m) ≤ held_metas p m + held p e.done
unfolding put
held_metas-put p key e [] = omega arith
held_metas-put p key e ((j, d) ∷ m) = ground (arith, held_metas-put p key e m)

pub held_metas-erase :
    (p : Promise) (key : TaskId) (m : Assoc TaskId PendingMagnetMetaEntry)
    → held_metas p (erase key m) ≤ held_metas p m
unfolding erase
held_metas-erase p key [] = omega arith
held_metas-erase p key ((j, d) ∷ m) = ground (arith, held_metas-erase p key m)

abbrev held_entry : Promise → Option PendingMagnetMetaEntry → ℕ
held_entry p none = 0
held_entry p (some e) = held p e.done

held_metas-taken :
    (p : Promise) (key : TaskId) (e : PendingMagnetMetaEntry)
    (m : Assoc TaskId PendingMagnetMetaEntry)
    → lookup key m ≡ some e
    → held_metas p (erase key m) + held p e.done ≤ held_metas p m
unfolding erase lookup
held_metas-taken p key e [] h = cc
held_metas-taken p key e ((j, d) ∷ m) h = elim (Bool-cases (j == key)) [
  | inl found ↦ rw found (
      omega (
        arith,
        held_metas-erase p key m,
        ap (held_entry p) (sym (ap (λ b. if b then some d else lookup key m) found) ∙ h),
      ))
  | inr other ↦ rw other (
      omega (
        arith,
        held_metas-taken p key e m (sym (ap (λ b. if b then some d else lookup key m) other) ∙ h),
      ))
]

module _ (p : Promise) where
  -- A promise that leaves its entry as it gets its value.
  entry_taken :
      (key : TaskId) (e : PendingMagnetMetaEntry) (q : Promise)
      (m : Assoc TaskId PendingMagnetMetaEntry)
      → lookup key m ≡ some e
      → e.done ≡ some q
      → held_metas p (erase key m) + held p (some q) ≤ held_metas p m
  entry_taken key e q m h h' = omega (arith, held_metas-taken p key e m h, ap (held p) h')

  module _ (world : World) where
    settle_entry-owed :
        (key : TaskId) (h : Handle) (e : PendingMagnetMetaEntry) (q : Promise)
        (o : Option TorrentInfo) (w : Worker)
        → lookup key w.pending_magnet_meta ≡ some e
        → e.done ≡ some q
        → owed p (ledger (settle_entry world key h e q o w)) ≤ owed p (ledger w)
    unfolding settle_entry fulfil
    settle_entry-owed key h e q none w here promised = omega (
      arith,
      entry_taken key e q w.pending_magnet_meta here promised,
      settled-append p q no_metadata w.answers,
    )
    settle_entry-owed key h e q (some ti) w here promised = omega (
      arith,
      entry_taken key e q w.pending_magnet_meta here promised,
      settled-append p q (metadata_answer world key h e ti) w.answers,
    )

    answer_metadata-owed :
        (key : TaskId) (h : Handle) (e : PendingMagnetMetaEntry) (q : Promise) (w : Worker)
        → lookup key w.pending_magnet_meta ≡ some e
        → e.done ≡ some q
        → owed p (ledger (answer_metadata world key h e q w)) ≤ owed p (ledger w)
    unfolding answer_metadata
    answer_metadata-owed key h e q w here promised =
        elim (Bool-cases (world.is_valid h && world.has_metadata h)) [
          | inr absent ↦ rw (absent, answer_metadata) (omega arith)
          | inl ready ↦
              rw (ready, answer_metadata)
                (settle_entry-owed key h e q (torrent_file_of world h) w here promised)
        ]

    try_fulfill-owed :
        (key : TaskId) (h : Handle) (w : Worker)
        → owed p (ledger (try_fulfill world key h w)) ≤ owed p (ledger w)
    unfolding try_fulfill
    try_fulfill-owed key h w = elim (Option-cases (lookup key w.pending_magnet_meta)) [
      | inl e ↦ rw (e, try_fulfill) (omega arith)
      | inr (entry, e) ↦ elim (Option-cases entry.done) [
        | inl d ↦ rw (e, try_fulfill) (rw d (omega arith))
        | inr (q, d) ↦ rw (e, try_fulfill) (rw d (answer_metadata-owed key h entry q w e d))
      ]
    ]

    pub poll_keys-owed :
        (keys : List TaskId) (w : Worker)
        → owed p (ledger (poll_keys world keys w)) ≤ owed p (ledger w)
    unfolding poll_keys
    poll_keys-owed [] w = omega arith
    poll_keys-owed (key ∷ keys) w = elim (Option-cases (lookup key w.pending_magnet_meta)) [
      | inl e ↦ rw (e, poll_keys) (poll_keys-owed keys w)
      | inr (entry, e) ↦ elim (Option-cases (valid_handle world key w)) [
        | inl v ↦ rw (e, poll_keys) (rw v (poll_keys-owed keys w))
        | inr (h, v) ↦
            let w1 : Worker = configure_for_fetch world h w in
            rw (e, poll_keys)
              (rw v (
                omega (
                  arith,
                  poll_keys-owed keys (try_fulfill world key h w1),
                  try_fulfill-owed key h w1,
                  ap (owed p) (ledger-configure_for_fetch world h w),
                )))
      ]
    ]

    metadata_failed-owed :
        (h : Handle) (w : Worker) → owed p (ledger (metadata_failed world h w)) ≤ owed p (ledger w)
    unfolding metadata_failed fulfil
    metadata_failed-owed h w =
        let key : TaskId = world.task_id_from (world.handle_hashes h) in
        elim (Option-cases (lookup key w.pending_magnet_meta)) [
          | inl e ↦ rw (e, metadata_failed) (omega arith)
          | inr (entry, e) ↦ elim (Option-cases entry.done) [
            | inl d ↦ rw (e, metadata_failed) (rw d (omega arith))
            | inr (q, d) ↦
                rw (e, metadata_failed)
                  (rw d (
                    omega (
                      arith,
                      entry_taken key entry q w.pending_magnet_meta e d,
                      settled-append p q no_metadata w.answers,
                    )))
          ]
        ]

  finish_saves-owed :
      (o : Option Promise) (w : Worker)
      → o ≡ w.resume_data_done
      → owed p (ledger (finish_saves o w)) ≤ owed p (ledger w)
  unfolding finish_saves fulfil
  finish_saves-owed none w e = omega arith
  finish_saves-owed (some q) w e =
      omega
        (arith, settled-append p q (saved w.completed_resume_data_saves) w.answers, ap (held p) e)

  close_saves-owed : (n : ℤ) (w : Worker) → owed p (ledger (close_saves n w)) ≤ owed p (ledger w)
  unfolding close_saves
  close_saves-owed n w = elim (Bool-cases (is_at_most_zero n)) [
    | inl over ↦
        rw (over, close_saves)
          (finish_saves-owed w.resume_data_done (record w { pending_resume_data_saves = n }) refl)
    | inr more ↦ rw (more, close_saves) (omega arith)
  ]

  save_done-owed : (w : Worker) → owed p (ledger (save_done w)) ≤ owed p (ledger w)
  unfolding save_done
  save_done-owed w = close_saves-owed (w.pending_resume_data_saves +ℤ negsuc 0) w

  answer_stats-owed :
      (s : SessionStats) (o : Option Promise) (w : Worker)
      → o ≡ w.pending_session_stats
      → owed p (ledger (answer_stats s o w).0) ≤ owed p (ledger w)
  unfolding answer_stats fulfil
  answer_stats-owed s none w e = omega arith
  answer_stats-owed s (some q) w e =
      omega (arith, settled-append p q (stats s) w.answers, ap (held p) e)

  pub handle_alert-owed :
      (world : World) (a : Alert) (w : Worker)
      → owed p (ledger (handle_alert world a w).0) ≤ owed p (ledger w)
  unfolding handle_alert note_written torrent_removed
  handle_alert-owed world (session_stats_alert s) w =
      answer_stats-owed s w.pending_session_stats w refl
  handle_alert-owed world (metadata_received_alert h) w =
      try_fulfill-owed world (world.task_id_from (world.handle_hashes h)) h w
  handle_alert-owed world (metadata_failed_alert h) w = metadata_failed-owed world h w
  handle_alert-owed world (save_resume_data_alert opened) w = save_done-owed (note_written opened w)
  handle_alert-owed world save_resume_data_failed_alert w = save_done-owed w
  handle_alert-owed world (add_torrent_alert true hashes h) w = omega arith
  handle_alert-owed world (add_torrent_alert false hashes h) w =
      omega (arith, ap (owed p) (ledger-torrent_added world (world.task_id_from hashes) h w))
  handle_alert-owed world (torrent_removed_alert hashes) w = omega arith
  handle_alert-owed world other_alert w = omega arith
