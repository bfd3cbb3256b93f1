-- ===== src/Integrations.antt =====
-- The adapters of src/integrations: what they post, and how they read the answer. The HTTP client is
-- the parameter `http`; an adapter answers its outcome with the requests that it has made, in
-- order.
pub mod Text
pub mod Discord
pub mod Webhook
pub mod Signal
use relationship_os.Base.{ℕ, String, Bool, true, false, Option, none, some, List, if◌then◌else◌}
use relationship_os.Outbox.Router.{Outcome}
use relationship_os.Auth.Account.{is_empty}

-- The body of a request: a Discord message with its user name, the bytes of an event, or a Signal
-- message with its recipient.
pub data Content : Type 0 where
  discord_message : String → Option String → Content
  event_json : String → Content
  signal_message : String → String → Content

pub record Post : Type 0 where
  pub url : String
  pub headers : List (String × String)
  pub content : Content

-- A response has a status, the `id` of its JSON if it can be read, and a text.
pub data Reply : Type 0 where
  response : ℕ → Option String → String → Reply
  timed_out : Reply
  request_error other_error : String → Reply

-- `if x` for a setting
abbrev pub is_set : Option String → Bool
is_set none = false
is_set (some s) = if is_empty s then false else true

abbrev pub text_or : Option String → String → String
text_or none t = t
text_or (some s) t = if is_empty s then t else s

abbrev pub delivered : String → Outcome
delivered id = record { success = true; external_id = some id; error = none }

abbrev pub undelivered : String → Outcome
undelivered why = record { success = false; external_id = none; error = some why }
