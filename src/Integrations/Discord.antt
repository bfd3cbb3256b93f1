-- ===== src/Integrations/Discord.antt =====
-- src/integrations/discord/src/adapter.py: the webhook, if there is one, and then the bots, one
-- after another, until one of them is accepted. `str` is the decimal numeral.
use relationship_os.Base.{
  ℕ, ◌+◌, String, ◌<>◌, Bool, false, ◌&&◌, ◌||◌, not, Option, none, some, List, [], ◌∷◌, ◌==◌, eqb,
  length, if◌then◌else◌,
}
use relationship_os.Shared.Event.{CanonicalMessageEvent}
use relationship_os.Shared.Config.{Settings}
use relationship_os.Outbox.Router.{Outcome}
use relationship_os.Integrations.{
  discord_message, Post, Reply, response, timed_out, request_error, other_error, is_set, text_or,
  delivered, undelivered,
}
use relationship_os.Integrations.Text.{sanitize_discord_content, split_commas, stripped}

-- `resp.status_code in (200, 201, 204)`
abbrev pub is_success : ℕ → Bool
is_success status = eqb status 200 || eqb status 201 || eqb status 204

-- What one request comes to: the external identifier, or the reason of the failure.
pub data Attempted : Type 0 where
  accepted : String → Attempted
  rejected : String → Attempted

abbrev id_or : Option String → String → String
id_or none d = d
id_or (some id) d = id

abbrev is_answered : Reply → Bool
is_answered (response status id text) = is_success status
is_answered _ = false

-- A list up to the first element that passes the test, or all of it.
abbrev pub up_to : (String → Bool) → List String → List String
up_to p [] = []
up_to p (x ∷ xs) = if p x then x ∷ [] else x ∷ up_to p xs

module _ (str : ℕ → String) (strip : String → String) (http : Post → Reply) (cfg : Settings) where
  -- `settings.discord_bot_tokens`
  unfoldable pub discord_bot_tokens : List String
  unfolding split_commas
  discord_bot_tokens =
      stripped strip
        (split_commas "" (text_or cfg.discord_bot_token "" <> "," <> cfg.discord_backup_tokens))

  -- `validate_config`: the reason if the configuration is not valid.
  unfoldable pub validate_config : Option String
  unfolding discord_bot_tokens
  validate_config =
      if not cfg.discord_enabled
      then some "Discord integration is disabled in configuration"
      else if eqb (length discord_bot_tokens) 0 && not (is_set cfg.discord_webhook_url)
      then some "Neither DISCORD_BOT_TOKEN nor DISCORD_WEBHOOK_URL is configured"
      else none

  unfoldable pub discord_content : CanonicalMessageEvent → String
  unfolding sanitize_discord_content
  discord_content event =
      "**["
      <> cfg.room_name
      <> "]**\n**From:** "
      <> text_or event.sender_name "Recipient"
      <> " (Seq: #"
      <> str event.sequence
      <> ")\n```\n"
      <> sanitize_discord_content event.message.body
      <> "\n```"

  abbrev webhook_post : String → String → Post
  webhook_post url content = record {
    url = url;
    headers = [];
    content = discord_message content (some cfg.app_name);
  }

  abbrev pub bot_post : String → String → String → Post
  bot_post channel content token = record {
    url = "https://discord.com/api/v10/channels/" <> channel <> "/messages";
    headers = ("Authorization", "Bot " <> token) ∷ ("Content-Type", "application/json") ∷ [];
    content = discord_message content none;
  }

  -- The bot number `idx`, from 0.
  abbrev pub bot_attempt : ℕ → Reply → Attempted
  bot_attempt idx (response status id text) =
      if is_success status
      then accepted (id_or id ("discord_bot_" <> str idx <> "_ok"))
      else rejected ("Bot #" <> str (idx + 1) <> " rejected with HTTP " <> str status)
  bot_attempt idx timed_out = rejected ("Bot #" <> str (idx + 1) <> " timed out")
  bot_attempt idx (request_error e) = rejected ("Bot #" <> str (idx + 1) <> " network error: " <> e)
  bot_attempt idx (other_error e) = rejected ("Bot #" <> str (idx + 1) <> " error: " <> e)

  -- The loop over the bots, with the last error; `total` is the number of all bots.
  unfoldable pub try_bots :
      String → String → ℕ → ℕ → Option String → List String → List Post × Outcome
  try_bots channel content total idx last_error [] = (
    [],
    undelivered
        ("All " <> str total <> " Discord bots failed. Last error: " <> id_or last_error "None"),
  )
  try_bots channel content total idx last_error (token ∷ tokens) =
      let post = bot_post channel content token in
      elim (bot_attempt idx (http post)) [
        | accepted id ↦ (post ∷ [], delivered id)
        | rejected why ↦
            let (posts, outcome) = try_bots channel content total (idx + 1) (some why) tokens in
            (post ∷ posts, outcome)
      ]

  abbrev use_bots : String → List Post × Outcome
  use_bots content =
      if eqb (length discord_bot_tokens) 0
      then ([], undelivered "No bot tokens configured and webhook unavailable")
      else if not (is_set cfg.discord_channel_id)
      then ([], undelivered "Missing DISCORD_CHANNEL_ID for bot channel delivery")
      else try_bots (text_or cfg.discord_channel_id "") content (length discord_bot_tokens) 0 none
          discord_bot_tokens

  -- The outcome of the webhook, if it was accepted.
  abbrev webhook_outcome : Reply → Option Outcome
  webhook_outcome (response status id text) =
      if is_success status then some (delivered (id_or id "discord_webhook_ok")) else none
  webhook_outcome _ = none

  abbrev use_webhook : String → String → List Post × Outcome
  use_webhook url content =
      let post = webhook_post url content in
      elim (webhook_outcome (http post)) [
        | some outcome ↦ (post ∷ [], outcome)
        | none ↦ let (posts, outcome) = use_bots content in (post ∷ posts, outcome)
      ]

  unfoldable pub send_discord : CanonicalMessageEvent → List Post × Outcome
  unfolding validate_config discord_content try_bots
  send_discord event =
      if event.origin == "discord"
      then ([], delivered "skipped_loop_prevention")
      else elim validate_config [
        | some reason ↦ ([], undelivered ("Configuration invalid: " <> reason))
        | none ↦
            if is_set cfg.discord_webhook_url
            then use_webhook (text_or cfg.discord_webhook_url "") (discord_content event)
            else use_bots (discord_content event)
      ]

  -- Whether the answer to a bot counts as accepted.
  abbrev pub is_accepting : String → String → String → Bool
  is_accepting channel content token = is_answered (http (bot_post channel content token))
