-- ===== src/Inbound.antt =====
-- routers/webhooks.py: the signed inbound webhook. HMAC, UTF-8 and numerals are the parameters of
-- Signature; `json.loads` and the text of a time stamp are parameters too. A response comes with
-- the frame that is broadcast to the conversation's room, if any.
pub mod Replay
use relationship_os.Base.{
  ℕ, String, ◌<>◌, Bool, not, ◌||◌, Option, none, some, List, [], select, first, if◌then◌else◌,
}
use relationship_os.Base.Int.{ℤ}
use relationship_os.Shared.Constants.{UserRole, MessageType, ErrorCode, is_owner, is_admin}
use relationship_os.Shared.Event.{CanonicalMessageEvent}
use relationship_os.Shared.Errors.{auth_invalid, bad_request, malformed}
use relationship_os.Shared.Config.{Settings}
use relationship_os.Db.Rows.{Db, User, Message}
use relationship_os.Db.Session.{Action, ◌>>=◌, ◌>>◌, pure, raise, query, raise_if, or_raise, commit}
use relationship_os.Auth.Account.{is_empty, or_text}
use relationship_os.Message.Send.{SendRequest, send_message}
use relationship_os.Conversations.{SendDraws, Frame}
use relationship_os.Signature.{verify_webhook_signature}

-- The fields that are read of the body; one that is missing is empty.
pub record InboundBody : Type 0 where
  pub conversation_id : String
  pub body : String
  pub client_message_id : String

pub data Parsed : Type 0 where
  fields : InboundBody → Parsed
  not_json not_object : Parsed

-- The request: its bytes and its two headers.
pub record InboundRequest : Type 0 where
  pub raw_body : List ℕ
  pub signature : String
  pub timestamp : ℤ

-- The clock, in seconds and in microseconds, and what the handler draws.
pub record Arrival : Type 0 where
  pub current_time : ℕ
  pub now : ℕ
  pub draws : SendDraws

pub record InboundResponse : Type 0 where
  pub message_id : String
  pub sequence_number : ℕ

abbrev pub is_manager : User → Bool
is_manager u = is_owner u.role || is_admin u.role

abbrev parsed : Parsed → Action InboundBody
parsed (fields body) = pure body
parsed not_json = raise (bad_request ErrorCode.invalid_request)
parsed not_object = raise malformed

abbrev pub inbound_request : Arrival → User → InboundBody → String → SendRequest
inbound_request at owner b client_msg_id = record {
  conversation_id = b.conversation_id;
  sender_id = owner.id;
  sender_name = owner.display_name;
  sender_role = owner.role;
  client_message_id = client_msg_id;
  payload = record { type = MessageType.text; body = b.body; attachments = [] };
  origin = "webhook";
  message_id = at.draws.message_id;
  discord_delivery_id = at.draws.discord_delivery_id;
  webhook_delivery_id = at.draws.webhook_delivery_id;
  outbox_id = at.draws.outbox_id;
  event_id = at.draws.event_id;
  now = at.now;
}

module _ (utf8 : String → List ℕ) (str : ℤ → String) (hmac : List ℕ → List ℕ → String)
    (loads : List ℕ → Parsed) (stamp : ℕ → String) (dump : CanonicalMessageEvent → String)
    (cfg : Settings) where
  abbrev pub is_signed : ℕ → InboundRequest → Bool
  is_signed current_time r =
      (verify_webhook_signature utf8 str hmac current_time r.raw_body cfg.webhook_signing_secret
        r.signature r.timestamp 300).0

  -- What follows the signature.
  unfoldable pub accept_inbound : Arrival → InboundBody → Action (InboundResponse × Option Frame)
  unfolding send_message
  accept_inbound at b = do
    let client_msg_id = or_text b.client_message_id ("wh_in_" <> stamp at.now)
    raise_if (is_empty b.conversation_id || is_empty b.body) (bad_request ErrorCode.invalid_request)
    managers ← query (λ d. select is_manager d.users)
    owner ← or_raise (first managers) (bad_request ErrorCode.internal_error)
    (msg, is_new) ← send_message dump cfg (inbound_request at owner b client_msg_id)
    commit
    pure (
      record { message_id = msg.id; sequence_number = msg.sequence_number },
      (if is_new then some (Frame.event msg owner.display_name) else none),
    )

  unfoldable pub receive_inbound_webhook :
      Arrival → InboundRequest → Action (InboundResponse × Option Frame)
  unfolding accept_inbound
  receive_inbound_webhook at r = do
    raise_if (not (is_signed at.current_time r)) auth_invalid
    body ← parsed (loads r.raw_body)
    accept_inbound at body
