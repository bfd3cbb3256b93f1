-- ===== src/Tests/Clients.antt =====
-- The adapters, the terminal and the attachments.
use relationship_os.Base.{
  ℕ, String, ◌<>◌, false, ◌≡◌, refl, none, some, [], ◌∷◌, ◌⊎◌, ◌==◌, if◌then◌else◌,
}
use relationship_os.Base.Int.{pos}
use relationship_os.Shared.Constants.{EventType, MessageType}
use relationship_os.Shared.Event.{CanonicalMessageEvent}
use relationship_os.Db.Rows.{Attachment}
use relationship_os.Db.Session.{Session, open_session}
use relationship_os.Outbox.Router.{Outcome}
use relationship_os.Ssrf.{Url, v4}
use relationship_os.Ssrf.Safe.{Resolution}
use relationship_os.Integrations.{Post, Reply, response, timed_out}
use relationship_os.Integrations.Webhook.{
  endpoint_post, send_to_endpoint, send_to_endpoint-resolves,
}
use relationship_os.Storage.{Paths}
use relationship_os.Tests.Data.{cfg, dump}
use relationship_os.Tests.Web.{net}
use relationship_os.Tests.Admins.{offices}

-- The second bot is accepted.
abbrev http : Post → Reply
http post = elim post.headers [
  | [] ↦ timed_out
  | (name, value) ∷ _ ↦ if value == "Bot b2" then response 200 none "" else timed_out
]

abbrev str : ℕ → String
str n = "1"

abbrev event : CanonicalMessageEvent
event = record {
  event_id = "e1";
  event_type = EventType.message_created;
  conversation_id = "c";
  message_id = "m1";
  sender_id = "bob";
  sender_role = none;
  sender_name = none;
  sequence = 1;
  timestamp = 1;
  origin = "chat";
  message = record { type = MessageType.text; body = "hi"; attachments = [] };
  client_message_id = "k1";
}

send_to_endpoint-resolves_example :
    let answer =
      send_to_endpoint str
        (λ z. "1")
        (λ s. [])
        (λ k b. "mac")
        (net (v4 134744072))
        (λ v. "")
        dump
        http
        cfg
        5
        "h"
        "secret"
        event
        false in
    ((parsed : Url) × ((net (v4 134744072)).urlparse "h" ≡ some parsed)
      × Resolution (net (v4 134744072)) parsed
      × ((outcome : Outcome) × (answer
            ≡ some (
              endpoint_post str
                    (λ z. "1")
                    (λ s. [])
                    (λ k b. "mac")
                    (net (v4 134744072))
                    (λ v. "")
                    dump
                    http
                    cfg
                    5
                    "h"
                    "secret"
                    event
                  ∷ [],
              outcome,
            ))))
    ⊎ ((answer ≡ none)
        ⊎ ((outcome : Outcome) × (answer ≡ some ([], outcome)) × (outcome.success ≡ false)))
send_to_endpoint-resolves_example =
    send_to_endpoint-resolves str (λ z. "1") (λ s. []) (λ k b. "mac") (net (v4 134744072)) (λ v. "")
      dump http cfg 5 "h" "secret" event refl

abbrev paths : Paths
paths = record {
  normpath = λ p. p;
  lstrip = λ p. p;
  join = λ a b. a <> "/" <> b;
  abspath = λ p. p;
  splitext = λ p. ".png";
  lower = λ p. p;
}

abbrev photo : Attachment
photo = record {
  id = "a1";
  message_id = none;
  filename = "x.png";
  file_size = pos 2;
  mime_type = "image/png";
  storage_path = "a1.png";
  created_at = 0;
}

abbrev album : Session
album = open_session (record offices { uploads = photo ∷ [] })
