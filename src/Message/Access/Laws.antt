-- ===== src/Message/Access/Laws.antt =====
-- Who may enter a conversation.
use relationship_os.Base.{
  first, none, some, ◌≤◌, String, true, false, ◌&&◌, ◌||◌, not, ◌≡◌, List, [], ◌∷◌, arith, ◌==◌,
  ltb, length, select, exists_row, if◌then◌else◌,
}
use relationship_os.Shared.Constants.{UserRole, is_admin, is_recipient}
use relationship_os.Shared.Errors.{not_found, forbidden}
use relationship_os.Db.Rows.{ConversationParticipant}
use relationship_os.Db.Session.{Session, ok, err}
use relationship_os.Message.Access.{is_locked, is_member, verify_conversation_access}

exists-select :
    (c u : String) (ps : List ConversationParticipant)
    → exists_row (is_member c u) ps
      ≡ (if ltb 0 (length (select (is_member c u) ps)) then true else false)
exists-select c u [] = ground arith
exists-select c u (p ∷ ps) = ground (arith, exists-select c u ps)

-- Who is let in, on every branch: a conversation that does not exist is not found, for everybody; an
-- administrator is let in; anybody else is let in exactly if there is a participant row for the user
-- and not both the conversation is locked and the user a recipient. The check writes nothing. There is
-- at most one row of the conversation and of the participant.
pub verify_conversation_access-decides :
    (c u : String) (role : UserRole) (s : Session)
    → length (select (λ k. k.id == c) s.work.conversations) ≤ 1
    → length (select (is_member c u) s.work.participants) ≤ 1
    → verify_conversation_access c u role s ≡ (
      elim (first (select (λ k. k.id == c) s.work.conversations)) [
        | none ↦ err not_found
        | some conv ↦
            if is_admin role
              || (exists_row (is_member c u) s.work.participants
                  && not (is_locked conv.status && is_recipient role))
            then ok conv
            else err forbidden
      ],
      s,
    )
unfolding verify_conversation_access
verify_conversation_access-decides c u role s one unique =
    ground (arith, exists-select c u s.work.participants)
