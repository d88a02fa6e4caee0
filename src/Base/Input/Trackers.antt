-- ===== src/Base/Input/Trackers.antt =====
-- What sanitizeTrackers keeps.
use torrent_link.Prelude.{
  Bool, true, false, not, ◌&&◌, ◌||◌, String, str_eq, str_eq_iff, is_empty, List, [], ◌∷◌, any,
  filter, map, ◌≡◌, refl, sym, arith, ap, subst, ◌∙◌, Bool-cases, inl, inr,
}
use torrent_link.Base.Errors.{is_ok}
use torrent_link.Base.Input.{QtText, validate_tracker_url, clean_trackers, sanitize_trackers}

module _ (q : QtText) where
  abbrev pub accepted : String → Bool
  accepted x = not (is_empty x) && is_ok (validate_tracker_url q x)

  abbrev pub listed : String → List String → Bool
  listed x xs = any (λ s. str_eq s x) xs

  -- Whether sanitizeTrackers takes a trimmed URL.
  abbrev new : String → List String → Bool
  new u seen = not (is_empty u || listed u seen) && is_ok (validate_tracker_url q u)

  keep_step :
      (x u : String) (seen : List String) (later : Bool)
      → new u seen ≡ true
      → (str_eq u x || (accepted x && not (listed x (u ∷ seen)) && later))
        ≡ (accepted x && not (listed x seen) && (str_eq u x || later))
  keep_step x u seen later k = elim (Bool-cases (str_eq u x)) [
    | inl same ↦
        subst
          (λ y.
            (str_eq u y || (accepted y && not (listed y (u ∷ seen)) && later))
            ≡ (accepted y && not (listed y seen) && (str_eq u y || later)))
          ((str_eq_iff u x).0 same) (ground (arith, str_eq_iff u u))
    | inr other ↦ rw other refl
  ]

  skip_step :
      (x u : String) (seen : List String) (later : Bool)
      → new u seen ≡ false
      → (accepted x && not (listed x seen) && later)
        ≡ (accepted x && not (listed x seen) && (str_eq u x || later))
  skip_step x u seen later k = elim (Bool-cases (str_eq u x)) [
    | inl same ↦
        subst
          (λ y.
            (accepted y && not (listed y seen) && later)
            ≡ (accepted y && not (listed y seen) && (str_eq u y || later)))
          ((str_eq_iff u x).0 same) (ground (arith, str_eq_iff u u))
    | inr other ↦ rw other refl
  ]

  clean-listed :
      (x : String) (seen ts : List String)
      → listed x (clean_trackers q seen ts)
        ≡ (accepted x && not (listed x seen) && any (λ t. str_eq (q.trimmed t) x) ts)
  unfolding clean_trackers
  clean-listed x seen [] = ground arith
  clean-listed x seen (t ∷ ts) = elim (Bool-cases (new (q.trimmed t) seen)) [
    | inl k ↦ rw k (
        ap (λ b. str_eq (q.trimmed t) x || b) (clean-listed x (q.trimmed t ∷ seen) ts)
        ∙ keep_step x (q.trimmed t) seen (any (λ u. str_eq (q.trimmed u) x) ts) k)
    | inr k ↦ rw k (
        clean-listed x seen ts
        ∙ skip_step x (q.trimmed t) seen (any (λ u. str_eq (q.trimmed u) x) ts) k)
  ]

  abbrev pub AreDistinct : List String → Type 0
  AreDistinct [] = Unit {0}
  AreDistinct (x ∷ xs) = (listed x xs ≡ false) × AreDistinct xs

  clean-AreDistinct : (seen ts : List String) → AreDistinct (clean_trackers q seen ts)
  unfolding clean_trackers
  clean-AreDistinct seen [] = tt
  clean-AreDistinct seen (t ∷ ts) = elim (Bool-cases (new (q.trimmed t) seen)) [
    | inl k ↦ rw k (
      ground (
        arith,
        clean-listed (q.trimmed t) (q.trimmed t ∷ seen) ts,
        str_eq_iff (q.trimmed t) (q.trimmed t),
      ),
      clean-AreDistinct (q.trimmed t ∷ seen) ts,
    )
    | inr k ↦ rw k (clean-AreDistinct seen ts)
  ]

  -- sanitizeTrackers keeps a URL exactly if it is some given text, trimmed, that is not empty and that
  -- validateTrackerUrl accepts; and it keeps none twice.
  pub sanitize_trackers-listed :
      (ts : List String)
      → ((x : String)
          → listed x (sanitize_trackers q ts) ≡ (
              not (is_empty x)
              && is_ok (validate_tracker_url q x)
              && any (λ t. str_eq (q.trimmed t) x) ts))
        × AreDistinct (sanitize_trackers q ts)
  unfolding sanitize_trackers
  sanitize_trackers-listed ts = (λ x. ground (arith, clean-listed x [] ts), clean-AreDistinct [] ts)

  -- The first occurrence of each text.
  abbrev pub unique : List String → List String
  unique [] = []
  unique (x ∷ xs) = x ∷ filter (λ y. not (str_eq x y)) (unique xs)

  abbrev unseen : List String → List String → List String
  unseen seen xs = filter (λ y. not (listed y seen)) xs

  unseen-filter :
      (u : String) (seen xs : List String)
      → unseen seen (filter (λ y. not (str_eq u y)) xs) ≡ unseen (u ∷ seen) xs
  unseen-filter u seen [] = refl
  unseen-filter u seen (x ∷ xs) = ground (arith, unseen-filter u seen xs)

  unseen-filter_seen :
      (u : String) (seen xs : List String)
      → listed u seen ≡ true
      → unseen seen (filter (λ y. not (str_eq u y)) xs) ≡ unseen seen xs
  unseen-filter_seen u seen [] h = refl
  unseen-filter_seen u seen (x ∷ xs) h = elim (Bool-cases (str_eq u x)) [
    | inr other ↦ rw other (ground (arith, unseen-filter_seen u seen xs h))
    | inl same ↦
        let old : listed x seen ≡ true =
          subst (λ y. listed y seen ≡ true) ((str_eq_iff u x).0 same) h in
        rw same (rw old (unseen-filter_seen u seen xs h))
  ]

  unseen_nil : (xs : List String) → unseen [] xs ≡ xs
  unseen_nil [] = refl
  unseen_nil (x ∷ xs) = ap (λ l. x ∷ l) (unseen_nil xs)

  clean-unique :
      (seen ts : List String)
      → clean_trackers q seen ts ≡ unseen seen (unique (filter accepted (map q.trimmed ts)))
  unfolding clean_trackers
  clean-unique seen [] = refl
  clean-unique seen (t ∷ ts) =
      let u : String = q.trimmed t in
      let rest : List String = unique (filter accepted (map q.trimmed ts)) in
      elim (Bool-cases (accepted u)) [
        | inr bad ↦
            let skip : new u seen ≡ false = ground (arith, bad) in
            rw skip (rw bad (clean-unique seen ts))
        | inl good ↦ elim (Bool-cases (listed u seen)) [
          | inl old ↦
              let skip : new u seen ≡ false = ground (arith, old) in
              rw skip
                (rw good (rw old (clean-unique seen ts ∙ sym (unseen-filter_seen u seen rest old))))
          | inr fresh ↦
              let take : new u seen ≡ true = ground (arith, good, fresh) in
              rw take (
                rw good (
                  rw fresh (
                    ap (λ l. u ∷ l)
                      (clean-unique (u ∷ seen) ts ∙ sym (unseen-filter u seen rest)))))
        ]
      ]

  -- sanitizeTrackers keeps, in the order of the given texts, the first occurrence of each trimmed text
  -- that is not empty and that validateTrackerUrl accepts, and nothing else.
  pub sanitize_trackers-unique :
      (ts : List String)
      → sanitize_trackers q ts
        ≡ unique
            (filter (λ x. not (is_empty x) && is_ok (validate_tracker_url q x)) (map q.trimmed ts))
  unfolding sanitize_trackers
  sanitize_trackers-unique ts =
      clean-unique [] ts ∙ unseen_nil (unique (filter accepted (map q.trimmed ts)))
