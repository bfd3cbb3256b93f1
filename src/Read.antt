-- ===== src/Read.antt =====
-- `ReadService` of apps/api/src/services/read_service.py.
pub mod Progress
use relationship_os.Base.{
  ℕ, zero, String, Bool, true, false, ◌&&◌, not, Option, none, some, List, ◌==◌, ltb, length,
  select, update_where, first, if◌then◌else◌,
}
use relationship_os.Base.Int.{ℤ, pos, negsuc, lt_int}
use relationship_os.Db.Rows.{Db, ConversationParticipant, Message}
use relationship_os.Db.Session.{Action, ◌>>=◌, ◌>>◌, pure, query, modify}
use relationship_os.Message.Access.{is_member, find_participant}
use relationship_os.Message.Send.{is_in}

-- A number of a client that is above a stored one, as the column then holds it.
abbrev pub to_column : ℤ → ℕ
to_column (pos n) = n
to_column (negsuc _) = 0

-- The row that was found is the only one of this conversation and user.
abbrev pub advance : String → String → ℕ → Db → Db
advance conversation_id user_id n d = record d {
  participants =
      update_where (is_member conversation_id user_id) (λ p. record p { last_read_sequence = n })
        d.participants;
}

-- With no participant the answer is 0.
unfoldable pub mark_read : String → String → ℤ → Action ℕ
mark_read conversation_id user_id last_read_sequence = do
  found ← find_participant conversation_id user_id
  elim found [
    | none ↦ pure zero
    | some p ↦
        if lt_int p.last_read_sequence last_read_sequence
        then (modify (advance conversation_id user_id (to_column last_read_sequence))
            >> pure (to_column last_read_sequence))
        else pure p.last_read_sequence
  ]

-- `scalar() or 0`
abbrev pub last_seq : String → String → Db → ℕ
last_seq conversation_id user_id d =
    elim (first (select (is_member conversation_id user_id) d.participants)) [
      | none ↦ 0
      | some p ↦ p.last_read_sequence
    ]

abbrev is_kept : Option ℕ → Bool
is_kept none = true
is_kept (some _) = false

abbrev pub is_unread : String → String → ℕ → Message → Bool
is_unread conversation_id user_id n m =
    is_in conversation_id m
    && (ltb n m.sequence_number && (not (m.sender_id == user_id) && is_kept m.deleted_at))

unfoldable pub unread_count : String → String → Db → ℕ
unread_count conversation_id user_id d =
    length
      (select (is_unread conversation_id user_id (last_seq conversation_id user_id d)) d.messages)

unfoldable pub get_unread_count : String → String → Action ℕ
get_unread_count conversation_id user_id = query (unread_count conversation_id user_id)
