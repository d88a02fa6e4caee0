-- ===== src/Base/Input.antt =====
-- base/input_sanitizer.h and base/input_sanitizer.cc. What Qt does with a text is a record of functions.
pub mod Trackers
use torrent_link.Prelude.{
  ℕ, ltb, Bool, true, false, not, ◌&&◌, ◌||◌, String, str_eq, is_empty, List, [], ◌∷◌, any, length,
  if◌then◌else◌, ◌≡◌,
}
use torrent_link.Base.Errors.{
  Error, ErrorCode, invalid_magnet, invalid_argument, invalid_save_path, invalid_torrent_path,
  Message, plain, number, text, no_error, error_of, has_error, is_ok,
}

pub record QtText : Type 0 where
  pub trimmed : String → String
  pub size : String → ℕ
  pub to_lower : String → String
  -- contains(QChar(0))
  pub contains_null_byte : String → Bool
  -- startsWith(prefix, Qt::CaseInsensitive)
  pub starts_with_ci : String → String → Bool
  pub ends_with : String → String → Bool
  -- split(QRegularExpression("[\\/]+"), Qt::SkipEmptyParts)
  pub segments : String → List String
  -- QDir::cleanPath
  pub clean_path : String → String
  -- QUrl(text, QUrl::StrictMode)
  pub url_is_valid : String → Bool
  pub url_scheme : String → String
  -- split(QLatin1Char(','), Qt::SkipEmptyParts)
  pub split_commas : String → List String
  pub left : String → ℕ → String

abbrev pub max_magnet_uri_length : ℕ
max_magnet_uri_length = 8192

abbrev pub max_tracker_url_length : ℕ
max_tracker_url_length = 2048

abbrev pub max_path_length : ℕ
max_path_length = 4096

abbrev pub max_trackers_per_task : ℕ
max_trackers_per_task = 200

abbrev pub max_category_length : ℕ
max_category_length = 256

abbrev pub max_tag_length : ℕ
max_tag_length = 128

abbrev pub max_tags_count : ℕ
max_tags_count = 50

module _ (q : QtText) where
  unfoldable pub contains_traversal_segment : String → Bool
  contains_traversal_segment path = any (λ s. str_eq s "..") (q.segments path)

  unfoldable pub has_path_traversal : String → Bool
  unfolding contains_traversal_segment
  has_path_traversal path =
      contains_traversal_segment path || contains_traversal_segment (q.clean_path path)

  unfoldable pub is_allowed_scheme : String → Bool
  is_allowed_scheme scheme = any (λ s. str_eq s scheme) ("http" ∷ "https" ∷ "udp" ∷ "wss" ∷ [])

  abbrev too_long : String → ℕ → ℕ → Message
  too_long pattern n most = record { pattern = pattern; arguments = number n ∷ number most ∷ [] }

  unfoldable pub validate_magnet_uri : String → Error
  unfolding error_of
  validate_magnet_uri uri =
      let t = q.trimmed uri in
      if is_empty t
      then error_of invalid_magnet (plain "Magnet URI is empty")
      else if ltb max_magnet_uri_length (q.size t)
      then error_of invalid_magnet
          (too_long "Magnet URI exceeds maximum length (%1 > %2)" (q.size t) max_magnet_uri_length)
      else if q.contains_null_byte t
      then error_of invalid_magnet (plain "Magnet URI contains null bytes")
      else if not (q.starts_with_ci "magnet:?" t)
      then error_of invalid_magnet (plain "Magnet URI must start with \"magnet:?\"")
      else no_error

  unfoldable pub validate_tracker_url : String → Error
  unfolding error_of is_allowed_scheme
  validate_tracker_url url =
      let t = q.trimmed url in
      let scheme = q.to_lower (q.url_scheme t) in
      if is_empty t
      then no_error
      else if ltb max_tracker_url_length (q.size t)
      then error_of invalid_argument (
          too_long "Tracker URL exceeds maximum length (%1 > %2)" (q.size t) max_tracker_url_length)
      else if q.contains_null_byte t
      then error_of invalid_argument (plain "Tracker URL contains null bytes")
      else if not (q.url_is_valid t)
      then error_of invalid_argument
          (record { pattern = "Tracker URL is malformed: %1"; arguments = text t ∷ [] })
      else if not (is_allowed_scheme scheme)
      then error_of invalid_argument (record {
        pattern = "Tracker URL scheme \"%1\" not allowed (permitted: http, https, udp, wss)";
        arguments = text scheme ∷ [];
      })
      else no_error

  -- The loop of validateTrackerList: the first error, if there is one.
  unfoldable pub first_error : List String → Error
  first_error [] = no_error
  first_error (t ∷ ts) =
      let err = validate_tracker_url t in
      let rest = first_error ts in if has_error err then err else rest

  unfoldable pub validate_tracker_list : List String → Error
  unfolding error_of first_error
  validate_tracker_list trackers =
      if ltb max_trackers_per_task (length trackers)
      then error_of invalid_argument
          (too_long "Too many trackers (%1 > %2)" (length trackers) max_trackers_per_task)
      else first_error trackers

  unfoldable pub validate_path : String → Error
  unfolding error_of has_path_traversal
  validate_path path =
      let t = q.trimmed path in
      if is_empty t
      then error_of invalid_save_path (plain "Path is empty")
      else if ltb max_path_length (q.size t)
      then error_of invalid_save_path
          (too_long "Path exceeds maximum length (%1 > %2)" (q.size t) max_path_length)
      else if q.contains_null_byte t
      then error_of invalid_save_path (plain "Path contains null bytes")
      else if has_path_traversal t
      then error_of invalid_save_path (plain "Path contains \"..\" traversal component")
      else no_error

  unfoldable pub validate_torrent_file_path : String → Error
  unfolding error_of validate_path
  validate_torrent_file_path path =
      let err = validate_path path in
      if has_error err
      then error_of invalid_torrent_path err.message
      else if not (q.ends_with (q.to_lower (q.trimmed path)) ".torrent")
      then error_of invalid_torrent_path (plain "File does not have .torrent extension")
      else no_error

  unfoldable pub validate_category : String → Error
  unfolding error_of
  validate_category category =
      let t = q.trimmed category in
      if is_empty t
      then no_error
      else if ltb max_category_length (q.size t)
      then error_of invalid_argument
          (too_long "Category name too long (%1 > %2)" (q.size t) max_category_length)
      else if q.contains_null_byte t
      then error_of invalid_argument (plain "Category contains null bytes")
      else no_error

  -- The loop of validateTagsCsv.
  unfoldable pub first_long_tag : List String → Error
  unfolding error_of
  first_long_tag [] = no_error
  first_long_tag (t ∷ ts) =
      let rest = first_long_tag ts in
      if ltb max_tag_length (q.size (q.trimmed t))
      then error_of invalid_argument (record {
        pattern = "Tag \"%1\" exceeds max length (%2)";
        arguments = text (q.left (q.trimmed t) 32) ∷ number max_tag_length ∷ [];
      })
      else rest

  unfoldable pub validate_tags_csv : String → Error
  unfolding error_of first_long_tag
  validate_tags_csv tags_csv =
      let tags = q.split_commas tags_csv in
      if is_empty (q.trimmed tags_csv)
      then no_error
      else if ltb max_tags_count (length tags)
      then error_of invalid_argument
          (too_long "Too many tags (%1 > %2)" (length tags) max_tags_count)
      else first_long_tag tags

  -- The loop of sanitizeTrackers: what it appends to `out`, with the set `seen`.
  unfoldable pub clean_trackers : List String → List String → List String
  clean_trackers seen [] = []
  clean_trackers seen (t ∷ ts) =
      let trimmed = q.trimmed t in
      let keep =
        not (is_empty trimmed || any (λ s. str_eq s trimmed) seen)
        && is_ok (validate_tracker_url trimmed) in
      let rest = clean_trackers (if keep then trimmed ∷ seen else seen) ts in
      if keep then trimmed ∷ rest else rest

  unfoldable pub sanitize_trackers : List String → List String
  unfolding clean_trackers
  sanitize_trackers trackers = clean_trackers [] trackers
