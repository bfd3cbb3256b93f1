-- ===== src/WebSocket/Frames.antt =====
-- The actions of the loop of `websocket_endpoint`: heartbeat, sync, send, typing, read receipt. A
-- handler answers the new `current_conv_id`, or what it raises.
use relationship_os.Base.{ℕ, String, Bool, ◌||◌, Option, none, some, List, [], ◌∷◌, if◌then◌else◌}
use relationship_os.Base.Int.{ℤ, pos, lt_int}
use relationship_os.Shared.Constants.{MessageType, PresenceState, ErrorCode}
use relationship_os.Shared.Event.{CanonicalMessageEvent}
use relationship_os.Shared.Errors.{not_found, malformed}
use relationship_os.Shared.Config.{Settings}
use relationship_os.Db.Rows.{Conversation, Message}
use relationship_os.Db.Session.{
  Action, Result, ok, err, ◌>>=◌, ◌>>◌, pure, raise, commit, in_session,
}
use relationship_os.Read.{mark_read}
use relationship_os.Message.Access.{verify_conversation_access}
use relationship_os.Message.Send.{SendRequest, send_message}
use relationship_os.Message.History.{get_history}
use relationship_os.Conversations.{SendDraws}
use relationship_os.Hub.{Metadata, register}
use relationship_os.Auth.Account.{is_empty, or_text}
use relationship_os.WebSocket.{UserData, ServerFrame, World, say, broadcast, go_online}

-- A frame of the client. A text that is missing or null is empty, but for the conversation of a
-- sync; the number of a sync is `none` for null and 0 if it is missing. `bad_frame` is what
-- `json.loads`, `frame.get` or `int` raises on.
pub data ClientFrame : Type 0 where
  ping : ClientFrame
  sync : Option String → Option ℤ → ClientFrame
  send : String → String → String → ClientFrame
  typing : String → Bool → ClientFrame
  read : String → ℤ → ClientFrame
  other_action bad_frame : ClientFrame

-- When a frame is handled, what the handler draws, and whose send succeeds.
pub record Moment : Type 0 where
  pub now : ℕ
  pub draws : SendDraws
  pub alive : ℕ → Bool

-- `payload.get("conversation_id") or current_conv_id`
abbrev pub conv_or : String → Option String → String
conv_or conv_id none = conv_id
conv_or conv_id (some current) = or_text conv_id current

-- `serialized_msgs[-1]["sequence_number"] if serialized_msgs else last_seq`
abbrev pub synchronized_up_to : Option ℤ → List Message → Option ℤ
synchronized_up_to last_seq [] = last_seq
synchronized_up_to last_seq (m ∷ ms) = synchronized_up_to (some (pos m.sequence_number)) ms

abbrev pub metadata_of : String → UserData → Metadata
metadata_of conv_id user = record {
  conversation_id = conv_id;
  user_id = user.user_id;
  session_id = user.session_id;
  username = user.username;
  role = user.role;
}

abbrev pub chat_request : Moment → UserData → String → String → String → SendRequest
chat_request at user conv_id client_msg_id body = record {
  conversation_id = conv_id;
  sender_id = user.user_id;
  sender_name = user.display_name;
  sender_role = user.role;
  client_message_id = client_msg_id;
  payload = record { type = MessageType.text; body = body; attachments = [] };
  origin = "chat";
  message_id = at.draws.message_id;
  discord_delivery_id = at.draws.discord_delivery_id;
  webhook_delivery_id = at.draws.webhook_delivery_id;
  outbox_id = at.draws.outbox_id;
  event_id = at.draws.event_id;
  now = at.now;
}

-- The database session of a sync; the history raises nothing.
unfoldable pub sync_query :
    UserData → Option String → Option ℤ → Action (Conversation × List Message)
unfolding verify_conversation_access get_history
sync_query user none last_seq = raise not_found
sync_query user (some conv_id) last_seq = do
  conv ← verify_conversation_access conv_id user.user_id user.role
  messages ← get_history conv.id none last_seq (pos 100)
  pure (conv, messages)

unfoldable pub read_query : UserData → String → ℤ → Action (Unit {0})
unfolding mark_read
read_query user conv_id last_read_seq = do mark_read conv_id user.user_id last_read_seq; commit

module _ (dump : CanonicalMessageEvent → String) (cfg : Settings) where
  unfoldable pub send_query : Moment → UserData → String → String → String → Action Message
  unfolding verify_conversation_access send_message
  send_query at user conv_id client_msg_id body = do
    verify_conversation_access conv_id user.user_id user.role
    (msg, is_new) ← send_message dump cfg (chat_request at user conv_id client_msg_id body)
    commit
    pure msg

  module _ (at : Moment) (ws : ℕ) (user : UserData) (current : Option String) where
    unfoldable pub on_ping : World → Result (Option String) × World
    unfolding go_online
    on_ping w =
        let (r, d) = in_session (go_online at.now user) w.db in
        let w' = record w { db = d } in
        elim r [ err e ↦ (err e, w') | ok _ ↦ (ok current, say ws ServerFrame.pong w') ]

    unfoldable pub on_sync : Option String → Option ℤ → World → Result (Option String) × World
    unfolding sync_query
    on_sync conv_id last_seq w =
        let (r, d) = in_session (sync_query user conv_id last_seq) w.db in
        elim r [
          | err e ↦ (err e, record w { db = d })
          | ok (conv, messages) ↦
              let joined = record w {
                db = d;
                hub = register ws (metadata_of conv.id user) w.hub;
              } in
              let frame =
                ServerFrame.replay conv.id messages (synchronized_up_to last_seq messages) in
              (
                ok (some conv.id),
                broadcast at.alive conv.id
                    (ServerFrame.presence user.user_id (some user.username) PresenceState.online)
                    (some ws) (say ws frame joined),
              )
        ]

    -- A message is broadcast whether it is new or not.
    unfoldable pub on_send : String → String → String → World → Result (Option String) × World
    unfolding send_query
    on_send conv client_msg_id body w =
        let conv_id = conv_or conv current in
        if is_empty conv_id || is_empty client_msg_id || is_empty body
        then (ok current, say ws (ServerFrame.error_frame ErrorCode.invalid_request) w)
        else (let (r, d) = in_session (send_query at user conv_id client_msg_id body) w.db in
            let w' = record w { db = d } in
            elim r [
              | err e ↦ (err e, w')
              | ok msg ↦ (
                ok current,
                broadcast at.alive conv_id (ServerFrame.event msg user.display_name) none w',
              )
            ])

    -- Neither this action nor the next one checks the access to the conversation.
    unfoldable pub on_typing : String → Bool → World → Result (Option String) × World
    on_typing conv is_typing w =
        let conv_id = conv_or conv current in
        (
          ok current,
          (if is_empty conv_id
              then w
              else broadcast at.alive conv_id
                  (ServerFrame.typing conv_id user.user_id user.username is_typing) (some ws) w),
        )

    unfoldable pub on_read : String → ℤ → World → Result (Option String) × World
    unfolding read_query
    on_read conv last_read_seq w =
        let conv_id = conv_or conv current in
        if is_empty conv_id
        then (ok current, w)
        else if lt_int 0 last_read_seq
        then (let (r, d) = in_session (read_query user conv_id last_read_seq) w.db in
            let w' = record w { db = d } in
            elim r [
              | err e ↦ (err e, w')
              | ok _ ↦ (
                ok current,
                broadcast at.alive conv_id (ServerFrame.read conv_id user.user_id last_read_seq)
                    (some ws) w',
              )
            ])
        else (ok current, w)

    -- One turn of the loop.
    unfoldable pub handle_frame : ClientFrame → World → Result (Option String) × World
    unfolding on_ping on_sync on_send on_typing on_read
    handle_frame ping w = on_ping w
    handle_frame (sync conv_id last_seq) w = on_sync conv_id last_seq w
    handle_frame (send conv_id client_msg_id body) w = on_send conv_id client_msg_id body w
    handle_frame (typing conv_id is_typing) w = on_typing conv_id is_typing w
    handle_frame (read conv_id last_read_seq) w = on_read conv_id last_read_seq w
    handle_frame other_action w = (ok current, w)
    handle_frame bad_frame w = (err malformed, w)
