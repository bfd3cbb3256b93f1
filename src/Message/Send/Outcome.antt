-- ===== src/Message/Send/Outcome.antt =====
-- What a call of `send_message` returns, raises and writes.
use Prim.Native.String.{count}
use relationship_os.Base.{
  ℕ, ltb, first, not, ◌&&◌, if◌then◌else◌, some, none, List, ◌+◌, ◌≤◌, String, Bool, true, false,
  ◌≡◌, refl, [], ◌∷◌, ◌++◌, arith, ◌==◌, length, select, select-append, exists_row,
}
use relationship_os.Shared.Event.{CanonicalMessageEvent}
use relationship_os.Shared.Constants.{is_owner, EventType, DeliveryState}
use relationship_os.Shared.Errors.{message_too_large, integrity_error}
use relationship_os.Shared.Config.{Settings}
use relationship_os.Db.Rows.{Db, Message, MessageDelivery, OutboxEvent, pending}
use relationship_os.Db.Session.{open_session, Session, ok, err}
use relationship_os.Message.Send.{
  SendRequest, is_in, is_client_message, current_max_seq, new_message, violates, clashes,
  send_message,
}
use relationship_os.Message.Send.Sequence.{
  IsWellNumbered, select-client_unique, append-IsGapless, append-HasNoClash, max_sequence-gapless,
  exists-clashes-next,
}

exists-id-clashes :
    (r : SendRequest) (n : ℕ) (ms : List Message)
    → exists_row (λ m. m.id == r.message_id) ms ≡ true
    → exists_row (clashes (new_message r n)) ms ≡ true
exists-id-clashes r n [] h = h
exists-id-clashes r n (m ∷ ms) h = ground (arith, exists-id-clashes r n ms)

-- Whether the tables take the row of a request's message.
abbrev pub is_storable : SendRequest → Db → Bool
is_storable r d =
    not (exists_row (λ m. m.id == r.message_id) d.messages)
    && exists_row (λ c. c.id == r.conversation_id) d.conversations
    && exists_row (λ u. u.id == r.sender_id) d.users

violates-next :
    (r : SendRequest) (d : Db)
    → select (is_client_message r.conversation_id r.client_message_id) d.messages ≡ []
    → violates (new_message r (current_max_seq r.conversation_id d + 1)) d ≡ not (is_storable r d)
violates-next r d none_yet = ground (
  arith,
  exists-id-clashes r (current_max_seq r.conversation_id d + 1) d.messages,
  exists-clashes-next r (current_max_seq r.conversation_id d) d.messages,
)

-- The rows that a first call is to write: the message, its event, a delivery, and the outbox event.
abbrev pub stored_message : SendRequest → ℕ → Message
stored_message r n = record {
  id = r.message_id;
  conversation_id = r.conversation_id;
  sender_id = r.sender_id;
  message_type = r.payload.type;
  body = r.payload.body;
  client_message_id = r.client_message_id;
  sequence_number = n;
  delivery_state = if is_owner r.sender_role then DeliveryState.delivered else DeliveryState.stored;
  origin = r.origin;
  attachments = r.payload.attachments;
  created_at = r.now;
  edited_at = none;
  deleted_at = none;
}

abbrev pub announced_event : SendRequest → ℕ → CanonicalMessageEvent
announced_event r n = record {
  event_id = r.event_id;
  event_type = EventType.message_created;
  conversation_id = r.conversation_id;
  message_id = r.message_id;
  sender_id = r.sender_id;
  sender_role = some r.sender_role;
  sender_name = some r.sender_name;
  sequence = n;
  timestamp = r.now;
  origin = r.origin;
  message = r.payload;
  client_message_id = r.client_message_id;
}

abbrev pub queued_row : String → String → String → MessageDelivery
queued_row id message_id integration = record {
  id = id;
  message_id = message_id;
  integration_type = integration;
  status = DeliveryState.queued;
  attempt_count = 0;
  first_attempted_at = none;
  last_attempted_at = none;
  completed_at = none;
  failure_reason = none;
  external_message_id = none;
}

abbrev pub pending_row : Settings → SendRequest → String → OutboxEvent
pending_row cfg r payload = record {
  id = r.outbox_id;
  event_type = EventType.message_created;
  payload_json = payload;
  status = pending;
  retry_count = 0;
  max_retries = cfg.webhook_max_retries;
  next_attempt_at = r.now;
  locked_at = none;
  error_message = none;
  created_at = r.now;
  completed_at = none;
}

module _ (dump : CanonicalMessageEvent → String) where
  -- A client identifier that is stored is answered with its message, and nothing is written.
  pub send_message_existing :
      (cfg : Settings) (r : SendRequest) (s : Session) {m : Message}
      → count r.payload.body ≤ cfg.max_message_length
      → select (is_client_message r.conversation_id r.client_message_id) s.work.messages ≡ m ∷ []
      → send_message dump cfg r s ≡ (ok (m, false), s)
  unfolding send_message
  send_message_existing cfg r s fits h = ground arith

  -- If the messages of every conversation are numbered from 1 without a gap, and no two clash, in
  -- the database as it is committed and as the session sees it, then so are they in what the
  -- session sees after any call, on every branch.
  pub send_message-IsWellNumbered :
      (cfg : Settings) (r : SendRequest) (s : Session)
      → IsWellNumbered s.stored.messages
      → IsWellNumbered s.work.messages
      → IsWellNumbered (send_message dump cfg r s).1.work.messages
  unfolding send_message
  send_message-IsWellNumbered cfg r s hs hw = ground (
    arith,
    append-IsGapless s.work.messages (new_message r (current_max_seq r.conversation_id s.work + 1))
        hw.gapless refl,
    append-HasNoClash s.work.messages (new_message r (current_max_seq r.conversation_id s.work + 1))
        hw.no_clash,
  )

  -- The message that a call returns is the one that its client identifier finds afterwards.
  pub select-send_message :
      (cfg : Settings) (r : SendRequest) (s : Session) {m : Message} {is_new : Bool}
      → (send_message dump cfg r s).0 ≡ ok (m, is_new)
      → select
          (is_client_message r.conversation_id r.client_message_id)
          (send_message dump cfg r s).1.work.messages
        ≡ m ∷ []
  unfolding send_message
  select-send_message cfg r s h = ground (
    arith,
    select-append (is_client_message r.conversation_id r.client_message_id) s.work.messages
        (new_message r (current_max_seq r.conversation_id s.work + 1) ∷ []),
  )

  -- After a call that returned, a call of the same session for the same conversation and client
  -- identifier, with a text that is not too long, returns the message of the first and changes
  -- nothing.
  pub send_message_again :
      (cfg : Settings) (r r' : SendRequest) (s : Session) {m : Message} {is_new : Bool}
      → r'.conversation_id ≡ r.conversation_id
      → r'.client_message_id ≡ r.client_message_id
      → count r'.payload.body ≤ cfg.max_message_length
      → (send_message dump cfg r s).0 ≡ ok (m, is_new)
      → send_message dump cfg r' (send_message dump cfg r s).1
        ≡ (ok (m, false), (send_message dump cfg r s).1)
  send_message_again cfg r r' s ec ek fits h =
      send_message_existing cfg r' (send_message dump cfg r s).1 fits
        (rw (ec, ek) (select-send_message cfg r s h))

  flush_succeeds :
      (r : SendRequest) (d : Db)
      → exists_row (λ n. n.id == r.message_id) d.messages ≡ false
      → exists_row (λ c. c.id == r.conversation_id) d.conversations ≡ true
      → exists_row (λ u. u.id == r.sender_id) d.users ≡ true
      → select (is_client_message r.conversation_id r.client_message_id) d.messages ≡ []
      → violates (new_message r (current_max_seq r.conversation_id d + 1)) d ≡ false
  flush_succeeds r d fresh conv sender none_yet =
      ground (arith, exists-clashes-next r (current_max_seq r.conversation_id d) d.messages)

  -- In a well-numbered database, a call with a text that is not too long, a client identifier
  -- that is not stored, a fresh key, and a known conversation and sender gives the message the
  -- number after the count of the conversation's messages, and writes three things together
  -- without a commit: the message, the two queued delivery records, and a pending outbox event
  -- with the message's canonical event.
  pub send_message_first :
      (cfg : Settings) (r : SendRequest) (s : Session)
      → IsWellNumbered s.work.messages
      → count r.payload.body ≤ cfg.max_message_length
      → exists_row (λ n. n.id == r.message_id) s.work.messages ≡ false
      → exists_row (λ c. c.id == r.conversation_id) s.work.conversations ≡ true
      → exists_row (λ u. u.id == r.sender_id) s.work.users ≡ true
      → select (is_client_message r.conversation_id r.client_message_id) s.work.messages ≡ []
      → let n = length (select (is_in r.conversation_id) s.work.messages) + 1 in
        let (result, s') = send_message dump cfg r s in
        (result ≡ ok (stored_message r n, true))
        × (s'.work.messages ≡ s.work.messages ++ (stored_message r n ∷ []))
        × (s'.work.deliveries
            ≡ s.work.deliveries
              ++ (queued_row r.discord_delivery_id r.message_id "discord"
                  ∷ queued_row r.webhook_delivery_id r.message_id "webhook"
                  ∷ []))
        × (s'.work.outbox ≡ s.work.outbox ++ (pending_row cfg r (dump (announced_event r n)) ∷ []))
        × (s'.stored ≡ s.stored)
  unfolding send_message
  send_message_first cfg r s well fits fresh conv sender none_yet =
      rw (← max_sequence-gapless s.work.messages r.conversation_id well.gapless)
        (ground (arith, flush_succeeds r s.work fresh conv sender none_yet))

  -- What a call answers in a well-numbered database of which its session has changed nothing yet,
  -- on every branch: a text that is too long is refused; a client identifier that is stored is
  -- answered with its message; otherwise the message is new, with the number after the count of
  -- its conversation's messages, if its key is fresh and its conversation and sender are known,
  -- and an integrity error is raised if not.
  pub send_message-decides :
      (cfg : Settings) (r : SendRequest) (d : Db)
      → IsWellNumbered d.messages
      → (send_message dump cfg r (open_session d)).0 ≡ (
          if ltb cfg.max_message_length (count r.payload.body)
          then err message_too_large
          else elim (first
              (select (is_client_message r.conversation_id r.client_message_id) d.messages)) [
                | some m ↦ ok (m, false)
                | none ↦
                    if is_storable r d
                    then ok (
                      new_message r (length (select (is_in r.conversation_id) d.messages) + 1),
                      true,
                    )
                    else err integrity_error
              ])
  unfolding send_message
  send_message-decides cfg r d well = ground (
    arith,
    max_sequence-gapless d.messages r.conversation_id well.gapless,
    violates-next r d,
    select-client_unique r.conversation_id r.client_message_id d.messages well.no_clash,
  )
