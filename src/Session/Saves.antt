-- ===== src/Session/Saves.antt =====
-- The promise of saveAllResumeData through a history of commands, alerts and polls.
use torrent_link.Prelude.{
  ℕ, pos, negsuc, ◌+ℤ◌, suc, ◌+◌, ◌==◌, ◌≡◌, ◌⊎◌, ◌∙◌, refl, sym, ap, ap₂, subst, arith, Option,
  none, some, List, [], ◌∷◌, ◌++◌, Bool, false, inl, inr, if◌then◌else◌, String, is_empty, length,
  count,
}
use torrent_link.Session.{Promise, World, Worker, saved, fulfil}
use torrent_link.Session.Control.{count_valid, save_all_resume_data}
use torrent_link.Session.Alerts.{
  handle_alert, session_stats_alert, metadata_received_alert, metadata_failed_alert,
  save_resume_data_alert, save_resume_data_failed_alert, add_torrent_alert, torrent_removed_alert,
  other_alert, save_done, close_saves, finish_saves, note_written,
}
use torrent_link.Session.Ledger.{ledger}
use torrent_link.Session.Steady.{saving-step}
use torrent_link.Session.Resume.{
  Input, command, alert, poll, step, steps, save_of, saves, NoSaveAll, Saving, saving,
}

-- `m` saves are still out, and `c` files have been written.
pub record Waits (p : Promise) (m c : ℕ) (s : Saving) : Type 0 where
  pub promised : s.promise ≡ some p
  pub left : s.left ≡ pos m
  pub counted : s.written ≡ c
  pub has_dir : is_empty s.dir ≡ false

abbrev one_if : Bool → ℕ
one_if b = if b then 1 else 0

module _ (w : Worker) where
  one_less :
      (m : ℕ) → w.pending_resume_data_saves ≡ pos (suc m) → save_done w ≡ close_saves (pos m) w
  unfolding save_done
  one_less m e =
      let less : w.pending_resume_data_saves +ℤ negsuc 0 ≡ pos m =
        ap (λ z. z +ℤ negsuc 0) e ∙ ground arith in
      ap (λ z. close_saves z w) less

  close_saves-more :
      (m : ℕ) → close_saves (pos (suc m)) w ≡ record w { pending_resume_data_saves = pos (suc m) }
  unfolding close_saves
  close_saves-more m = let more : (suc m == 0) ≡ false = ground arith in rw (more, close_saves)

-- `v` is `w` with its promise answered by `c`.
abbrev pub Answered : Promise → ℕ → Worker → Worker → Type 0
Answered p c w v = (v.answers ≡ w.answers ++ (p, saved c) ∷ []) × (v.resume_data_done ≡ none)

module _ (p : Promise) (c : ℕ) (w : Worker) where
  save_done-Waits :
      (m : ℕ)
      → Waits p (suc (suc m)) c (saving (ledger w))
      → Waits p (suc m) c (saving (ledger (save_done w)))
  save_done-Waits m h =
      subst (λ v. Waits p (suc m) c (saving (ledger v)))
        (sym (one_less w (suc m) h.left ∙ close_saves-more w m))
        (record { promised = h.promised; left = refl; counted = h.counted; has_dir = h.has_dir })

  note_written-Waits :
      (m : ℕ) (b : Bool)
      → Waits p m c (saving (ledger w))
      → Waits p m (c + one_if b) (saving (ledger (note_written b w)))
  unfolding note_written
  note_written-Waits m b h = record {
    promised = h.promised;
    left = h.left;
    counted = ground (arith, h.counted, h.has_dir);
    has_dir = h.has_dir;
  }

  close_saves-last :
      (o : Option Promise)
      → o ≡ some p
      → w.resume_data_done ≡ o
      → w.completed_resume_data_saves ≡ c
      → Answered p c w (close_saves (pos 0) w)
  unfolding close_saves finish_saves fulfil
  close_saves-last none e d k = cc
  close_saves-last (some q) e d k = rw (d, close_saves) (ground (arith, e, k), refl)

  save_done-last : Waits p 1 c (saving (ledger w)) → Answered p c w (save_done w)
  save_done-last h =
      subst (λ v. Answered p c w v) (sym (one_less w 0 h.left))
        (close_saves-last w.resume_data_done h.promised refl h.counted)

-- A save that the input `i` reports, as the code takes it: first the file, then the count.
record Takes (i : Input) (b : Bool) (w : Worker) : Type 0 where
  noted : Worker
  taken : step i w ≡ save_done noted
  same_answers : noted.answers ≡ w.answers
  waits :
      (p : Promise) (m c : ℕ)
      → Waits p m c (saving (ledger w))
      → Waits p m (c + one_if b) (saving (ledger noted))

save-Takes : (i : Input) (b : Bool) (w : Worker) → save_of i ≡ b ∷ [] → Takes i b w
unfolding handle_alert note_written
save-Takes (alert world (save_resume_data_alert opened)) b w e =
    let same : opened ≡ b = cc in
    record {
      noted = note_written opened w;
      taken = refl;
      same_answers = refl;
      waits = λ p m c h. rw (← same) (note_written-Waits p c w m opened h);
    }
save-Takes (alert world save_resume_data_failed_alert) b w e =
    let same : false ≡ b = cc in
    record {
      noted = w;
      taken = refl;
      same_answers = refl;
      waits = λ p m c h. rw (← same) (subst (λ n. Waits p m n (saving (ledger w))) (omega arith) h);
    }
save-Takes (alert world (session_stats_alert s)) b w e = cc
save-Takes (alert world (metadata_received_alert a)) b w e = cc
save-Takes (alert world (metadata_failed_alert a)) b w e = cc
save-Takes (alert world (add_torrent_alert x hashes a)) b w e = cc
save-Takes (alert world (torrent_removed_alert hashes)) b w e = cc
save-Takes (alert world other_alert) b w e = cc
save-Takes (command world c) b w e = cc
save-Takes (poll world) b w e = cc

save_of-cases : (i : Input) → (save_of i ≡ []) ⊎ ((b : Bool) × (save_of i ≡ b ∷ []))
save_of-cases (alert world (save_resume_data_alert opened)) = inr (opened, refl)
save_of-cases (alert world save_resume_data_failed_alert) = inr (false, refl)
save_of-cases (alert world (session_stats_alert s)) = inl refl
save_of-cases (alert world (metadata_received_alert a)) = inl refl
save_of-cases (alert world (metadata_failed_alert a)) = inl refl
save_of-cases (alert world (add_torrent_alert x hashes a)) = inl refl
save_of-cases (alert world (torrent_removed_alert hashes)) = inl refl
save_of-cases (alert world other_alert) = inl refl
save_of-cases (command world c) = inl refl
save_of-cases (poll world) = inl refl

module _ (p : Promise) where
  step-Waits :
      (i : Input) (b : Bool) (w : Worker) (m c : ℕ)
      → save_of i ≡ b ∷ []
      → Waits p (suc (suc m)) c (saving (ledger w))
      → Waits p (suc m) (c + one_if b) (saving (ledger (step i w)))
  step-Waits i b w m c e h =
      let t : Takes i b w = save-Takes i b w e in
      subst (λ v. Waits p (suc m) (c + one_if b) (saving (ledger v))) (sym t.taken)
        (save_done-Waits p (c + one_if b) t.noted m (t.waits p (suc (suc m)) c h))

  Waits-eq : {n m c d : ℕ} {s : Saving} → n ≡ m → c ≡ d → Waits p n c s → Waits p m d s
  Waits-eq e k h = record {
    promised = h.promised;
    left = h.left ∙ ap pos e;
    counted = h.counted ∙ k;
    has_dir = h.has_dir;
  }

  steps-Waits :
      (is : List Input) (w : Worker) (m c : ℕ)
      → NoSaveAll is
      → Waits p (suc m + length (saves is)) c (saving (ledger w))
      → Waits p (suc m) (c + count (λ b. b) (saves is)) (saving (ledger (steps is w)))
  steps-Waits [] w m c q h = Waits-eq (omega arith) (omega arith) h
  steps-Waits (i ∷ is) w m c q h = elim (save_of-cases i) [
    | inl quiet ↦
        let fewer : length (saves (i ∷ is)) ≡ length (saves is) =
          ap (λ l. length (l ++ saves is)) quiet in
        let same : count (λ b. b) (saves is) ≡ count (λ b. b) (saves (i ∷ is)) =
          ap (λ l. count (λ b. b) (l ++ saves is)) (sym quiet) in
        Waits-eq refl (omega (arith, same)) (
          steps-Waits is (step i w) m c q.1 (
            subst (λ s. Waits p (suc m + length (saves is)) c s) (sym (saving-step w i q.0 quiet))
              (Waits-eq (omega (arith, fewer)) refl h)))
    | inr (b, e) ↦
        let one_more : length (saves (i ∷ is)) ≡ suc (length (saves is)) =
          ap (λ l. length (l ++ saves is)) e in
        let more : count (λ b. b) (saves (i ∷ is))
            ≡ (if b then suc (count (λ b. b) (saves is)) else count (λ b. b) (saves is)) =
          ap (λ l. count (λ b. b) (l ++ saves is)) e in
        Waits-eq refl (ground (arith, more)) (
          steps-Waits is (step i w) m (c + one_if b) q.1 (
            Waits-eq (omega arith) refl (
              step-Waits i b w (m + length (saves is)) c e
                (Waits-eq (omega (arith, one_more)) refl h))))
  ]

  asked-Waits :
      (world : World) (dir : String) (w : Worker) (m : ℕ)
      → is_empty dir ≡ false
      → count_valid world w.handles_by_task_id ≡ suc m
      → Waits p (suc m) 0 (saving (ledger (save_all_resume_data world dir (some p) w)))
  unfolding save_all_resume_data
  asked-Waits world dir w m has_dir asked =
      let some_asked : (count_valid world w.handles_by_task_id == 0) ≡ false =
        ground (arith, asked) in
      rw (some_asked, save_all_resume_data)
        (record { promised = refl; left = ap pos asked; counted = refl; has_dir = has_dir })

count-snoc :
    (bs : List Bool) (b : Bool) → count (λ x. x) bs + one_if b ≡ count (λ x. x) (bs ++ b ∷ [])
count-snoc [] b = ground arith
count-snoc (x ∷ bs) b = ground (arith, count-snoc bs b)

-- The worker after SaveAllResumeData and the inputs `is`.
abbrev pub saved_through : World → String → Promise → Worker → List Input → Worker
saved_through world dir p w is = steps is (save_all_resume_data world dir (some p) w)

-- saveAllResumeData with a directory, where some handles are valid: whatever commands but another
-- SaveAllResumeData, alerts and polls follow, the promise stays open until as many saves have been
-- reported, well or not, as there were valid handles, and the last of these answers it with the number
-- of the files written.
pub save_all-Answered :
    (world : World) (dir : String) (p : Promise) (w : Worker) (is : List Input) (last : Input)
    (b : Bool)
    → is_empty dir ≡ false
    → NoSaveAll is
    → save_of last ≡ b ∷ []
    → count_valid world w.handles_by_task_id ≡ suc (length (saves is))
    → ((saved_through world dir p w is).resume_data_done ≡ some p)
      × Answered p
          (count (λ x. x) (saves is ++ b ∷ []))
          (saved_through world dir p w is)
          (step last (saved_through world dir p w is))
save_all-Answered world dir p w is last b has_dir others e asked =
    let before : Worker = steps is (save_all_resume_data world dir (some p) w) in
    let m : ℕ = length (saves is) in
    let c : ℕ = count (λ x. x) (saves is) in
    let h : Waits p 1 c (saving (ledger before)) = Waits-eq p refl (omega arith) (
      steps-Waits p is (save_all_resume_data world dir (some p) w) 0 0 others
        (Waits-eq p (omega arith) refl (asked-Waits p world dir w m has_dir asked))) in
    let t : Takes last b before = save-Takes last b before e in
    let (answered, closed) = save_done-last p (c + one_if b) t.noted (t.waits p 1 c h) in
    (
      h.promised,
      (
        ap (λ v. v.answers) t.taken
            ∙ answered
            ∙ ap₂ (λ l n. l ++ (p, saved n) ∷ []) t.same_answers (count-snoc (saves is) b),
        ap (λ v. v.resume_data_done) t.taken ∙ closed,
      ),
    )
