-- ===== src/Integrations/Signal.antt =====
-- src/integrations/signal/src/adapter.py: the delivery through a bridge. `rstrip` takes the slashes
-- off the end of an address.
use relationship_os.Base.{
  ℕ, String, ◌<>◌, ◌||◌, not, Option, none, some, List, [], ◌∷◌, eqb, if◌then◌else◌,
}
use relationship_os.Shared.Event.{CanonicalMessageEvent}
use relationship_os.Shared.Config.{Settings}
use relationship_os.Outbox.Router.{Outcome}
use relationship_os.Auth.Account.{take_text}
use relationship_os.Integrations.{
  signal_message, Post, Reply, response, timed_out, request_error, other_error, is_set, text_or,
  delivered, undelivered,
}

module _ (str : ℕ → String) (rstrip : String → String) (http : Post → Reply) (cfg : Settings) where
  -- The reason if the configuration is not valid.
  abbrev pub signal_config : Option String
  signal_config =
      if not cfg.signal_enabled
      then some "Signal integration is disabled"
      else if not (is_set cfg.signal_bridge_url)
      then some "SIGNAL_BRIDGE_URL is not set"
      else if not (is_set cfg.signal_recipient_number)
      then some "SIGNAL_RECIPIENT_NUMBER is not set"
      else none

  abbrev signal_headers : List (String × String)
  signal_headers =
      if is_set cfg.signal_bridge_token
      then ("Authorization", "Bearer " <> text_or cfg.signal_bridge_token "") ∷ []
      else []

  abbrev pub signal_post : CanonicalMessageEvent → Post
  signal_post event = record {
    url = rstrip (text_or cfg.signal_bridge_url "") <> "/v2/send";
    headers = signal_headers;
    content =
        signal_message
          ("["
            <> cfg.room_name
            <> "] "
            <> text_or event.sender_name "Recipient"
            <> ": "
            <> event.message.body)
          (text_or cfg.signal_recipient_number "");
  }

  abbrev signal_result : Reply → Outcome
  signal_result (response status id text) =
      if eqb status 200 || eqb status 201
      then delivered "signal_sent"
      else undelivered ("Signal bridge error (HTTP " <> str status <> "): " <> take_text 500 text)
  signal_result timed_out = undelivered "Signal bridge timed out (transient)"
  signal_result (request_error e) = undelivered ("Signal bridge network error: " <> e)
  signal_result (other_error e) = undelivered ("Unexpected Signal error: " <> e)

  unfoldable pub send_signal : CanonicalMessageEvent → List Post × Outcome
  send_signal event =
      if not cfg.signal_enabled then ([], delivered "skipped_disabled") else elim signal_config [
        | some why ↦ ([], undelivered ("Signal config invalid: " <> why))
        | none ↦ (signal_post event ∷ [], signal_result (http (signal_post event)))
      ]
