-- ===== src/Tests/Imports.antt =====
-- The import of the Discord bots: a source with two tokens, and a target with a setting of Discord.
use relationship_os.Base.{
  ◌<>◌, select, String, String-discrete, true, ◌≡◌, refl, some, List, [], ◌∷◌, ◌++◌, All,
}
use relationship_os.Integrations.Text.{starts_with}
use relationship_os.ImportBots.{read_lines, channel_or, written, import_bots}
use relationship_os.ImportBots.Rewrites.{
  is_written_key, other_lines, lines_kept, import_bots-settings,
}
use relationship_os.ImportBots.Failover.{import_bots-failover}
use relationship_os.ImportBots.Texts.{lacks}
use relationship_os.Integrations.{timed_out}
use relationship_os.Integrations.Discord.{discord_bot_tokens}
use relationship_os.Tests.Data.{cfg}

abbrev env_source : String
env_source =
    "# bots\nDISCORD_TOKEN_HOST=\"t1\"\nOTHER=x\nDISCORD_TOKEN_MIA='t2'\nDISCORD_TOKEN_LEO=\n"

abbrev env_target : String
env_target = "A=1\nDISCORD_ENABLED=false\n"

abbrev env_written : String
env_written =
    "A=1\n\n# Discord Multi-Bot Failover Pool\nDISCORD_ENABLED=true\nDISCORD_BOT_TOKEN=\"t1\"\nDISCORD_BACKUP_TOKENS=\"t2\"\nDISCORD_CHANNEL_ID=\"7\"\nDISCORD_GUILD_ID=\"1304086099265589279\"\n"

imported :
    import_bots (λ s. s) (some env_source) (some env_target) (some "7")
    ≡ written ("HOST", "t1") (("MIA", "t2") ∷ []) env_written
unfolding String-discrete import_bots
imported = refl

channel_one_line : lacks "\n" (channel_or (some "7")) ≡ true
unfolding String-discrete
channel_one_line = refl

import_bots-settings_example :
    (select is_written_key (read_lines env_written)
      ≡ "DISCORD_ENABLED=true" ∷ "DISCORD_BOT_TOKEN=\"t1\"" ∷ "DISCORD_BACKUP_TOKENS=\"t2\""
        ∷ "DISCORD_CHANNEL_ID=\"7\"" ∷ "DISCORD_GUILD_ID=\"1304086099265589279\"" ∷ [])
    × (other_lines env_written
        ≡ lines_kept (some env_target) ++ ("" ∷ "# Discord Multi-Bot Failover Pool" ∷ []))
import_bots-settings_example =
    import_bots-settings (λ s. s) env_source (some env_target) (some "7") (λ s h. h)
      channel_one_line imported

abbrev tokens : List (String × String)
tokens = ("HOST", "t1") ∷ ("MIA", "t2") ∷ []

tokens-lack : All (λ b. lacks "," b.1 ≡ true) tokens
unfolding String-discrete
tokens-lack = (refl, (refl, tt))

tokens_stripped : All (λ b. b.1 ≡ b.1) tokens
tokens_stripped = (refl, (refl, tt))

import_bots-failover_example :
    (bot_token : String) × (backup_tokens : String) × (select
        (starts_with "DISCORD_BOT_TOKEN=")
        (read_lines env_written)
      ≡ ("DISCORD_BOT_TOKEN=\"" <> bot_token <> "\"") ∷ [])
    × (select (starts_with "DISCORD_BACKUP_TOKENS=") (read_lines env_written)
        ≡ ("DISCORD_BACKUP_TOKENS=\"" <> backup_tokens <> "\"") ∷ [])
    × (discord_bot_tokens
          (λ n. "1")
          (λ s. s)
          (λ post. timed_out)
          (record cfg { discord_bot_token = some bot_token; discord_backup_tokens = backup_tokens })
        ≡ "t1" ∷ "t2" ∷ [])
import_bots-failover_example =
    import_bots-failover (λ n. "1") (λ s. s) (λ post. timed_out) cfg env_source (some env_target)
      (some "7") refl (λ s h. h) channel_one_line tokens-lack tokens_stripped imported
