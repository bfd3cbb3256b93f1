-- ===== src/WebSocket/Keeps.antt =====
-- What the database sessions of the endpoint keep of the messages and the participants.
use relationship_os.Base.{
  ℕ, String, ◌≡◌, refl, Option, none, some, List, [], ◌∷◌, arith, exists_row, update_where,
  Bool-cases, inl, inr,
}
use relationship_os.Base.Int.{ℤ}
use relationship_os.Shared.Constants.{UserRole}
use relationship_os.Shared.Event.{CanonicalMessageEvent}
use relationship_os.Shared.Config.{Settings}
use relationship_os.Db.Rows.{Db, ConversationParticipant}
use relationship_os.Db.Session.{Session, in_session, open_session}
use relationship_os.Presence.{update_presence}
use relationship_os.Read.{mark_read, to_column}
use relationship_os.Message.Access.{is_member, verify_conversation_access}
use relationship_os.Message.Send.{SendRequest, send_message}
use relationship_os.Message.Send.Sequence.{IsWellNumbered}
use relationship_os.Message.Send.Outcome.{send_message-IsWellNumbered}
use relationship_os.Message.History.{get_history}
use relationship_os.WebSocket.{UserData, go_online}
use relationship_os.WebSocket.Frames.{Moment, chat_request, sync_query, read_query, send_query}
use relationship_os.WebSocket.Loop.{go_offline}

pub verify_same :
    (c u : String) (role : UserRole) (s : Session) → (verify_conversation_access c u role s).1 ≡ s
unfolding verify_conversation_access
verify_same c u role s = ground arith

pub sync_query_same :
    (user : UserData) (c : Option String) (k : Option ℤ) (s : Session)
    → (sync_query user c k s).1 ≡ s
unfolding sync_query get_history
sync_query_same user none k s = refl
sync_query_same user (some c) k s = ground (arith, verify_same c user.user_id user.role s)

pub go_online_tables :
    (now : ℕ) (user : UserData) (d : Db)
    → ((in_session (go_online now user) d).1.messages ≡ d.messages)
      × ((in_session (go_online now user) d).1.participants ≡ d.participants)
unfolding go_online update_presence
go_online_tables now user d = ground arith

pub go_offline_tables :
    (now : ℕ) (user_id : String) (d : Db)
    → ((in_session (go_offline now user_id) d).1.messages ≡ d.messages)
      × ((in_session (go_offline now user_id) d).1.participants ≡ d.participants)
unfolding go_offline update_presence
go_offline_tables now u d = ground arith

-- A read position is no part of a membership.
exists-advance :
    (c u c' u' : String) (n : ℕ) (ps : List ConversationParticipant)
    → exists_row
        (is_member c u)
        (update_where (is_member c' u') (λ p. record p { last_read_sequence = n }) ps)
      ≡ exists_row (is_member c u) ps
exists-advance c u c' u' n [] = refl
exists-advance c u c' u' n (p ∷ ps) = elim (Bool-cases (is_member c' u' p)) [
  | inl e ↦ ground (arith, e, exists-advance c u c' u' n ps)
  | inr e ↦ ground (arith, e, exists-advance c u c' u' n ps)
]

pub read_query_tables :
    (user : UserData) (conv_id : String) (k : ℤ) (c u : String) (d : Db)
    → ((in_session (read_query user conv_id k) d).1.messages ≡ d.messages)
      × (exists_row (is_member c u) (in_session (read_query user conv_id k) d).1.participants
          ≡ exists_row (is_member c u) d.participants)
unfolding read_query mark_read
read_query_tables user conv_id k c u d =
    ground (arith, exists-advance c u conv_id user.user_id (to_column k) d.participants)

module _ (dump : CanonicalMessageEvent → String) (cfg : Settings) where
  send_message_stored :
      (r : SendRequest) (d : Db)
      → ((send_message dump cfg r (open_session d)).1.stored ≡ d)
        × ((send_message dump cfg r (open_session d)).1.work.participants ≡ d.participants)
  unfolding send_message
  send_message_stored r d = ground arith

  module _ (at : Moment) (user : UserData) (c key text : String) (d : Db) where
    pub send_query_participants :
        (in_session (send_query dump cfg at user c key text) d).1.participants ≡ d.participants
    unfolding send_query
    send_query_participants = ground (
      arith,
      verify_same c user.user_id user.role (open_session d),
      send_message_stored (chat_request at user c key text) d,
    )

    pub send_query-IsWellNumbered :
        IsWellNumbered d.messages
        → IsWellNumbered (in_session (send_query dump cfg at user c key text) d).1.messages
    unfolding send_query
    send_query-IsWellNumbered h = ground (
      arith,
      verify_same c user.user_id user.role (open_session d),
      send_message_stored (chat_request at user c key text) d,
      send_message-IsWellNumbered dump cfg (chat_request at user c key text) (open_session d) h h,
    )
