-- ===== src/Shared/Config.antt =====
-- The settings of apps/api/src/core/config.py that the modelled code reads.
use relationship_os.Base.{ℕ, String, Bool, Option}

pub record Settings : Type 0 where
  pub environment : String
  pub access_token_expire_minutes : ℕ
  pub app_name : String
  pub app_version : String
  pub discord_enabled : Bool
  pub discord_bot_token : Option String
  pub discord_backup_tokens : String
  pub discord_channel_id : Option String
  pub discord_webhook_url : Option String
  pub webhook_enabled : Bool
  pub webhook_signing_secret : String
  pub webhook_max_retries : ℕ
  pub webhook_allow_localhost : Bool
  pub signal_enabled : Bool
  pub signal_bridge_url : Option String
  pub signal_bridge_token : Option String
  pub signal_recipient_number : Option String
  pub rate_limit_login_per_minute : ℕ
  pub max_message_length : ℕ
  pub max_attachment_size_bytes : ℕ
  pub room_name : String
