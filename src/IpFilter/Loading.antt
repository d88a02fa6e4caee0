-- ===== src/IpFilter/Loading.antt =====
-- Loading a file: every rule is a range, and the count is that of the rules.
use torrent_link.Prelude.{
  ℕ, suc, ◌+◌, ◌≤◌, Bool, true, false, String, Option, none, some, List, [], ◌∷◌, ◌++◌, ◌≡◌, refl,
  sym, ap, subst, ◌∙◌, length, length-append, arith, if◌then◌else◌, Bool-cases, inl, inr,
}
use torrent_link.IpFilter.{Rule}
use torrent_link.IpFilter.Lines.{
  QtLine, add_rule, is_skipped, rule_of_line, append_ip_filter_line, load_lines,
  load_ip_filter_file,
}
use torrent_link.IpFilter.Ranges.{is_range, adds_range, IsSound, adds_range-rule_of_line}

abbrev pub AreRanges : List Rule → Type 0
AreRanges [] = Unit
AreRanges (r ∷ rs) = (is_range r ≡ true) × AreRanges rs

AreRanges-append :
    (rs : List Rule) (r : Rule) → AreRanges rs → is_range r ≡ true → AreRanges (rs ++ r ∷ [])
AreRanges-append [] r h k = (k, tt)
AreRanges-append (x ∷ rs) r h k = (h.0, AreRanges-append rs r h.1 k)

-- The rules and their count, with room for the lines still to come.
record Loaded (room : ℕ) (s : List Rule × ℕ) : Type 0 where
  are_ranges : AreRanges (s.0)
  counted : s.1 ≡ length (s.0)
  bounded : s.1 ≤ room

-- The state after a line that is neither empty nor a comment.
abbrev after : List Rule × ℕ → List Rule × Bool → List Rule × ℕ
after s r = (r.0, if r.1 then suc (s.1) else s.1)

add_rule-Loaded :
    (room : ℕ) (s : List Rule × ℕ) (o : Option Rule)
    → adds_range o ≡ true
    → Loaded room s
    → Loaded (suc room) (after s (add_rule o (s.0)))
add_rule-Loaded room s none h l = record {
  are_ranges = l.are_ranges;
  counted = l.counted;
  bounded = omega (arith, l.bounded);
}
add_rule-Loaded room s (some r) h l = record {
  are_ranges = AreRanges-append (s.0) r l.are_ranges h;
  counted = omega (arith, l.counted, length-append (s.0) (r ∷ []));
  bounded = omega (arith, l.bounded);
}

Loaded-suc : (room : ℕ) (s : List Rule × ℕ) → Loaded room s → Loaded (suc room) s
Loaded-suc room s l = record {
  are_ranges = l.are_ranges;
  counted = l.counted;
  bounded = omega (arith, l.bounded);
}

module _ (q : QtLine) (sound : IsSound q) where
  append_ip_filter_line-rule :
      (line : String) (out : List Rule)
      → is_skipped q (q.trimmed line) ≡ false
      → append_ip_filter_line q line out ≡ add_rule (rule_of_line q (q.trimmed line)) out
  unfolding append_ip_filter_line
  append_ip_filter_line-rule line out h = rw (h, append_ip_filter_line) refl

  trimmed-rule :
      (raw : String) (out : List Rule)
      → is_skipped q (q.trimmed raw) ≡ false
      → append_ip_filter_line q (q.trimmed raw) out ≡ add_rule (rule_of_line q (q.trimmed raw)) out
  trimmed-rule raw out h =
      subst (λ t. append_ip_filter_line q (q.trimmed raw) out ≡ add_rule (rule_of_line q t) out)
        (sound.trimmed_idem raw)
        (append_ip_filter_line-rule (q.trimmed raw) out
          (ap (is_skipped q) (sound.trimmed_idem raw) ∙ h))

  load_lines-Loaded :
      (lines : List String) (s : List Rule × ℕ) (room : ℕ)
      → Loaded room s
      → Loaded (length lines + room) (load_lines q lines s)
  unfolding load_lines
  load_lines-Loaded [] s room l = subst (λ n. Loaded n s) (omega arith) l
  load_lines-Loaded (raw ∷ lines) s room l =
      let t : String = q.trimmed raw in
      elim (Bool-cases (is_skipped q t)) [
        | inl skipped ↦
            rw (skipped, load_lines)
              (subst (λ n. Loaded n (load_lines q lines s)) (omega arith)
                (load_lines-Loaded lines s (suc room) (Loaded-suc room s l)))
        | inr read ↦
            rw (read, load_lines)
              (subst
                (λ n. Loaded n (load_lines q lines (after s (append_ip_filter_line q t (s.0)))))
                (omega arith)
                (load_lines-Loaded lines (after s (append_ip_filter_line q t (s.0))) (suc room) (
                  subst (λ r. Loaded (suc room) (after s r)) (sym (trimmed-rule raw (s.0) read))
                    (add_rule-Loaded room s (rule_of_line q t) (adds_range-rule_of_line q sound t)
                      l))))
      ]

  -- Loading a file that can be opened: every rule that it adds is a range of one family with its first
  -- address not past its last, and the number of rules applied is the number of these rules, which is
  -- at most the number of lines.
  pub load_ip_filter_file-AreRanges :
      (lines : List String)
      → AreRanges ((load_ip_filter_file q (some lines)).0)
        × ((load_ip_filter_file q (some lines)).1
            ≡ some (length ((load_ip_filter_file q (some lines)).0)))
        × (length ((load_ip_filter_file q (some lines)).0) ≤ length lines)
  unfolding load_ip_filter_file
  load_ip_filter_file-AreRanges lines =
      let l : Loaded (length lines + 0) (load_lines q lines ([], 0)) =
        load_lines-Loaded lines ([], 0) 0
          (record { are_ranges = tt; counted = refl; bounded = omega arith }) in
      (l.are_ranges, ap some l.counted, omega (arith, l.counted, l.bounded))
