-- ===== src/Session/Files/Renames.antt =====
-- Where the files of a renamed file or folder go.
use Prim.Native.String.{◌++◌ as joined, count}
use text.Mathlib.TextLemmas.{append-nil, append_assoc, length-append, append_cancel_left}
use torrent_link.Prelude.{
  ℕ, ℤ, ◌+◌, String, str_eq, str_eq_iff, Option, none, some, List, [], ◌∷◌, map, ◌≡◌, ◌≢◌, sym, ap,
  ◌∙◌, arith, All, Bool-cases, Option-cases, inl, inr,
}
use torrent_link.Session.{World, HandleCall, rename_file}
use torrent_link.Session.Files.{with_slash, new_path, rename_calls}

-- strip_prefix gives what follows the prefix.
abbrev pub Strips : World → Type 0
Strips world =
    (prefix s suffix : String)
    → world.strip_prefix prefix s ≡ some suffix
    → s ≡ joined prefix suffix

abbrev value_or : String → Option String → String
value_or d none = d
value_or d (some s) = s

slash_suffix : (suffix : String) → joined "/" suffix ≢ ""
slash_suffix suffix = λ e. omega (arith, length-append "/" suffix, ap count e)

root-not_below : (root suffix : String) → root ≢ joined (with_slash root) suffix
root-not_below root suffix = λ e. slash_suffix suffix (
    sym (
      append_cancel_left root "" (joined "/" suffix)
        (append-nil root ∙ e ∙ append_assoc root "/" suffix)))

-- The targets of the renaming calls.
abbrev pub targets : List HandleCall → List String
targets [] = []
targets (rename_file i t ∷ calls) = t ∷ targets calls
targets (c ∷ calls) = targets calls

module _ (world : World) (strips : Strips world) (src root : String) where
  -- A path that gets a new one, and how.
  data Moved (p t : String) : Type 0 where
    whole : p ≡ src → t ≡ root → Moved p t
    below :
        (suffix : String)
        → p ≡ joined (with_slash src) suffix
        → t ≡ joined (with_slash root) suffix
        → Moved p t

  new_path-Moved : (p t : String) → new_path world src root p ≡ some t → Moved p t
  unfolding new_path
  new_path-Moved p t h = elim (Bool-cases (str_eq p src)) [
    | inl same ↦
        let target : some root ≡ some t = rw (same, new_path) at h in
        whole ((str_eq_iff p src).0 same) (sym (ap (value_or "") target))
    | inr other ↦ elim (Option-cases (world.strip_prefix (with_slash src) p)) [
      | inl e ↦ let target : none ≡ some t = rw (other, e, new_path) at h in cc
      | inr (suffix, e) ↦
          let target : some (joined (with_slash root) suffix) ≡ some t =
            rw (other, e, new_path) at h in
          below suffix (strips (with_slash src) p suffix e) (sym (ap (value_or "") target))
    ]
  ]

  Moved-injective : (p q t : String) → Moved p t → Moved q t → p ≡ q
  Moved-injective p q t (whole a b) (whole c d) = a ∙ sym c
  Moved-injective p q t (whole a b) (below s c d) = elim (root-not_below root s (sym b ∙ d)) [ ]
  Moved-injective p q t (below s a b) (whole c d) = elim (root-not_below root s (sym d ∙ b)) [ ]
  Moved-injective p q t (below s a b) (below r c d) =
      a
      ∙ ap (joined (with_slash src)) (append_cancel_left (with_slash root) s r (sym b ∙ d))
      ∙ sym c

  targets-fresh :
      (p t : String) (i : ℕ) (files : List (String × ℤ))
      → new_path world src root p ≡ some t
      → All (λ q. q ≢ p) (map (λ f. f.0) files)
      → All (λ u. u ≢ t) (targets (rename_calls world src root i files))
  unfolding rename_calls
  targets-fresh p t i [] h k = tt
  targets-fresh p t i ((q, size) ∷ files) h k = elim (Option-cases (new_path world src root q)) [
    | inl e ↦ rw (e, rename_calls) (targets-fresh p t (i + 1) files h k.1)
    | inr (u, e) ↦
        rw (e, rename_calls)
          (
            λ same. k.0 (
                Moved-injective q p t (new_path-Moved q t (e ∙ ap some same))
                  (new_path-Moved p t h)),
            targets-fresh p t (i + 1) files h k.1,
          )
  ]

abbrev pub AreApart : List String → Type 0
AreApart [] = Unit
AreApart (s ∷ ss) = All (λ t. t ≢ s) ss × AreApart ss

-- Renaming a file or a folder of a torrent whose files have different paths gives no two of them the
-- same new path. It is relied on that mid(prefix.size()) of a text that starts with a prefix is what
-- follows the prefix.
pub rename_calls-AreApart :
    (world : World) (src root : String) (i : ℕ) (files : List (String × ℤ))
    → Strips world
    → AreApart (map (λ f. f.0) files)
    → AreApart (targets (rename_calls world src root i files))
unfolding rename_calls
rename_calls-AreApart world src root i [] strips h = tt
rename_calls-AreApart world src root i ((p, size) ∷ files) strips h =
    elim (Option-cases (new_path world src root p)) [
      | inl e ↦ rw (e, rename_calls) (rename_calls-AreApart world src root (i + 1) files strips h.1)
      | inr (t, e) ↦
          rw (e, rename_calls)
            (
              targets-fresh world strips src root p t (i + 1) files e h.0,
              rename_calls-AreApart world src root (i + 1) files strips h.1,
            )
    ]
