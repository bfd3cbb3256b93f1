-- ===== src/Message/Send.antt =====
-- `send_message`: one call, which holds the lock of its conversation from the lookup to the flush.
pub mod Sequence
pub mod Outcome
use Prim.Native.String.{count}
use relationship_os.Base.{
  ℕ, ◌+◌, max, String, Bool, true, false, ◌&&◌, ◌||◌, not, Option, none, some, List, [], ◌∷◌, ◌++◌,
  ◌==◌, ltb, eqb, select, exists_row, if◌then◌else◌,
}
use relationship_os.Shared.Constants.{UserRole, DeliveryState, EventType, is_owner}
use relationship_os.Shared.Event.{MessagePayload, CanonicalMessageEvent}
use relationship_os.Shared.Errors.{Error, message_too_large, integrity_error}
use relationship_os.Shared.Config.{Settings}
use relationship_os.Db.Rows.{Db, Message, MessageDelivery, OutboxEvent, pending}
use relationship_os.Db.Session.{
  Action, Result, ok, err, ◌>>=◌, ◌>>◌, pure, raise, query, raise_if, modify, rollback,
  catch_integrity, scalar_one_or_none,
}

-- The arguments of one call, and the identifiers that it draws.
pub record SendRequest : Type 0 where
  pub conversation_id : String
  pub sender_id : String
  pub sender_name : String
  pub sender_role : UserRole
  pub client_message_id : String
  pub payload : MessagePayload
  pub origin : String
  pub message_id : String
  pub discord_delivery_id : String
  pub webhook_delivery_id : String
  pub outbox_id : String
  pub event_id : String
  pub now : ℕ

abbrev pub is_in : String → Message → Bool
is_in conversation_id m = m.conversation_id == conversation_id

abbrev pub is_client_message : String → String → Message → Bool
is_client_message conversation_id client_message_id m =
    m.conversation_id == conversation_id && m.client_message_id == client_message_id

abbrev pub find_client_message : String → String → Action (Option Message)
find_client_message conversation_id client_message_id = do
  rows ← query (λ d. select (is_client_message conversation_id client_message_id) d.messages)
  scalar_one_or_none rows

-- `coalesce(max(sequence_number), 0)`
abbrev pub max_sequence : List Message → ℕ
max_sequence [] = 0
max_sequence (m ∷ ms) = max m.sequence_number (max_sequence ms)

abbrev pub current_max_seq : String → Db → ℕ
current_max_seq conversation_id d = max_sequence (select (is_in conversation_id) d.messages)

abbrev pub initial_state : UserRole → DeliveryState
initial_state role = if is_owner role then DeliveryState.delivered else DeliveryState.stored

abbrev pub new_message : SendRequest → ℕ → Message
new_message r next_seq = record {
  id = r.message_id;
  conversation_id = r.conversation_id;
  sender_id = r.sender_id;
  message_type = r.payload.type;
  body = r.payload.body;
  client_message_id = r.client_message_id;
  sequence_number = next_seq;
  delivery_state = initial_state r.sender_role;
  origin = r.origin;
  attachments = r.payload.attachments;
  created_at = r.now;
  edited_at = none;
  deleted_at = none;
}

abbrev queued_delivery : String → String → String → MessageDelivery
queued_delivery id message_id integration = record {
  id = id;
  message_id = message_id;
  integration_type = integration;
  status = DeliveryState.queued;
  attempt_count = 0;
  first_attempted_at = none;
  last_attempted_at = none;
  completed_at = none;
  failure_reason = none;
  external_message_id = none;
}

abbrev pub delivery_recs : SendRequest → List MessageDelivery
delivery_recs r =
    queued_delivery r.discord_delivery_id r.message_id "discord"
    ∷ queued_delivery r.webhook_delivery_id r.message_id "webhook"
    ∷ []

abbrev pub canonical_event : SendRequest → ℕ → CanonicalMessageEvent
canonical_event r next_seq = record {
  event_id = r.event_id;
  event_type = EventType.message_created;
  conversation_id = r.conversation_id;
  message_id = r.message_id;
  sender_id = r.sender_id;
  sender_role = some r.sender_role;
  sender_name = some r.sender_name;
  sequence = next_seq;
  timestamp = r.now;
  origin = r.origin;
  message = r.payload;
  client_message_id = r.client_message_id;
}

-- The constraints on a new row of `messages`: its key, its two unique pairs, its foreign keys.
abbrev pub clashes : Message → Message → Bool
clashes m n =
    n.id == m.id
    || (n.conversation_id == m.conversation_id
        && (n.client_message_id == m.client_message_id || eqb n.sequence_number m.sequence_number))

abbrev pub violates : Message → Db → Bool
violates m d =
    exists_row (clashes m) d.messages
    || not (exists_row (λ c. c.id == m.conversation_id) d.conversations)
    || not (exists_row (λ u. u.id == m.sender_id) d.users)

-- `model_dump_json` of the event is the parameter `dump`.
module _ (dump : CanonicalMessageEvent → String) where
  abbrev pub new_outbox : Settings → SendRequest → ℕ → OutboxEvent
  new_outbox cfg r next_seq = record {
    id = r.outbox_id;
    event_type = EventType.message_created;
    payload_json = dump (canonical_event r next_seq);
    status = pending;
    retry_count = 0;
    max_retries = cfg.webhook_max_retries;
    next_attempt_at = r.now;
    locked_at = none;
    error_message = none;
    created_at = r.now;
    completed_at = none;
  }

  -- The three `add` calls and their flush.
  abbrev pub with_message : Settings → SendRequest → ℕ → Db → Db
  with_message cfg r next_seq d = record d {
    messages = d.messages ++ (new_message r next_seq ∷ []);
    deliveries = d.deliveries ++ delivery_recs r;
    outbox = d.outbox ++ (new_outbox cfg r next_seq ∷ []);
  }

  flush_message : Settings → SendRequest → ℕ → Action (Message × Bool)
  flush_message cfg r next_seq = do
    bad ← query (violates (new_message r next_seq))
    raise_if bad integrity_error
    modify (with_message cfg r next_seq)
    pure (new_message r next_seq, true)

  -- The `except IntegrityError` clause.
  recover : SendRequest → Action (Message × Bool)
  recover r = do
    rollback
    existing ← find_client_message r.conversation_id r.client_message_id
    elim existing [ some m ↦ pure (m, false) | none ↦ raise integrity_error ]

  allocate : Settings → SendRequest → Action (Message × Bool)
  unfolding flush_message recover
  allocate cfg r = do
    current ← query (current_max_seq r.conversation_id)
    catch_integrity (flush_message cfg r (current + 1)) (recover r)

  -- The message, and whether it is new.
  unfoldable pub send_message : Settings → SendRequest → Action (Message × Bool)
  unfolding allocate
  send_message cfg r = do
    raise_if (ltb cfg.max_message_length (count r.payload.body)) message_too_large
    existing ← find_client_message r.conversation_id r.client_message_id
    elim existing [ some m ↦ pure (m, false) | none ↦ allocate cfg r ]
