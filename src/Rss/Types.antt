-- ===== src/Rss/Types.antt =====
-- core/rss/rss_types.h. A QDateTime is the number of its milliseconds, and `none` if it is invalid.
use torrent_link.Prelude.{ℤ, Bool, String, Option, List}

pub data AutoDownloadDecision : Type 0 where
  undecided queued skipped succeeded failed : AutoDownloadDecision

abbrev pub DateTime : Type 0
DateTime = Option ℤ

pub record RssFeed : Type 0 where
  pub id : String
  pub title : String
  pub url : String
  pub enabled : Bool
  pub auto_download_enabled : Bool
  pub last_refreshed_at : DateTime
  pub last_success_refreshed_at : DateTime
  pub last_error : String

pub record RssItem : Type 0 where
  pub id : String
  pub feed_id : String
  pub title : String
  pub link : String
  pub guid : String
  pub summary : String
  pub published_at : DateTime
  pub magnet : String
  pub torrent_url : String
  pub is_read : Bool
  pub ignored : Bool
  pub downloaded : Bool
  pub accepted : Bool
  pub queued : Bool
  pub rss_auto_waitlisted : Bool
  pub last_auto_decision : AutoDownloadDecision
  pub last_auto_reason_code : String
  pub last_auto_reason_text : String
  pub last_attempt_at : DateTime
  pub last_success_at : DateTime
  pub retry_count : ℤ
  pub download_save_path : String

pub record RssRule : Type 0 where
  pub id : String
  pub name : String
  pub feed_ids : List String
  pub include_keywords : List String
  pub exclude_keywords : List String
  pub use_regex : Bool
  pub enabled : Bool
  pub save_path : String
  pub category : String
  pub tags_csv : String

-- The texts of `reason`, which the code writes in Chinese.
pub data Reason : Type 0 where
  feed_out_of_scope no_include_keyword : Reason
  excluded_by : String → Reason
  unlimited : String → Reason
  included_by : String → String → Reason

pub record RuleMatchResult : Type 0 where
  pub rule_id : String
  pub rule_name : String
  pub matched : Bool
  pub reason : Reason

pub record RssDownloadSettlement : Type 0 where
  pub item_id : String
  pub record_save_path : String

pub record AutoDownloadRequest : Type 0 where
  pub magnet : String
  pub torrent_url : String
  pub save_path : String
  pub category : String
  pub tags_csv : String
  pub rule_id : String
  pub item_id : String
  pub feed_id : String
  pub item_title : String
  pub referer_url : String
  pub rss_settlement : RssDownloadSettlement
  pub add_without_interactive_confirm : Bool

pub data RssAutoDownloadScope : Type 0 where
  all_eligible new_items_only : RssAutoDownloadScope

pub record RssSettings : Type 0 where
  pub global_auto_download : Bool
  pub refresh_interval_minutes : ℤ
  pub max_auto_downloads_per_refresh : ℤ
  pub max_concurrent_auto_downloads : ℤ
  pub max_auto_download_backlog : ℤ
  pub history_max_items : ℤ
  pub history_max_age_days : ℤ
  pub external_player_command : String

pub record HistoryPolicy : Type 0 where
  pub max_items : ℤ
  pub max_age_days : ℤ
