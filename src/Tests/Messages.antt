-- ===== src/Tests/Messages.antt =====
-- Messages, access, history and read positions.
use relationship_os.Base.{
  ◌≤◌, String-discrete, ◌==◌, true, false, ◌≡◌, refl, none, some, [], ◌∷◌, ◌++◌, map, arith,
  Bool-cases, inl, inr, length,
}
use relationship_os.Base.Int.{pos, negsuc}
use relationship_os.Shared.Constants.{UserRole}
use relationship_os.Shared.Errors.{integrity_error, forbidden}
use relationship_os.Db.Session.{ok, err}
use relationship_os.Message.Send.{SendRequest, send_message, new_message}
use relationship_os.Message.Send.Sequence.{IsWellNumbered, IsGapless}
use relationship_os.Message.Send.Outcome.{
  stored_message, announced_event, queued_row, pending_row, send_message-IsWellNumbered,
  send_message_again, send_message_first, send_message-decides,
}
use relationship_os.Message.History.{ascending, history}
use relationship_os.Base.Sorting.{IsSorted}
use relationship_os.Message.History.Pages.{IsPage, candidates, preference, history-IsPage}
use relationship_os.Message.History.Replay.{history_after-eq-run}
use relationship_os.Message.Access.{verify_conversation_access}
use relationship_os.Message.Access.Laws.{verify_conversation_access-decides}
use relationship_os.Tests.Data.{cfg, two_messages, db, session, payload, send_request, dump}

pub two_messages-IsGapless : IsGapless two_messages
two_messages-IsGapless c = elim (Bool-cases ("c" == c)) [ inl h ↦ rw h refl | inr h ↦ rw h refl ]

pub two_messages-IsWellNumbered : IsWellNumbered two_messages
unfolding String-discrete
two_messages-IsWellNumbered = record {
  gapless = two_messages-IsGapless;
  no_clash = (refl, (refl, tt));
}

abbrev morning : SendRequest
morning = send_request "c" "k9" payload

send_message-IsWellNumbered_example :
    IsWellNumbered (send_message dump cfg morning session).1.work.messages
send_message-IsWellNumbered_example =
    send_message-IsWellNumbered dump cfg morning session two_messages-IsWellNumbered
      two_messages-IsWellNumbered

send_message_first_example :
    let (result, s') = send_message dump cfg morning session in
    (result ≡ ok (stored_message morning 3, true))
    × (s'.work.messages ≡ two_messages ++ (stored_message morning 3 ∷ []))
    × (s'.work.deliveries
        ≡ queued_row morning.discord_delivery_id morning.message_id "discord"
          ∷ queued_row morning.webhook_delivery_id morning.message_id "webhook"
          ∷ [])
    × (s'.work.outbox
        ≡ db.outbox ++ (pending_row cfg morning (dump (announced_event morning 3)) ∷ []))
    × (s'.stored ≡ db)
unfolding String-discrete
send_message_first_example =
    send_message_first dump cfg morning session two_messages-IsWellNumbered (omega arith) refl refl
      refl refl

send_message_again_example :
    let s' = (send_message dump cfg morning session).1 in
    send_message dump cfg morning s' ≡ (ok (new_message morning 3, false), s')
unfolding String-discrete send_message
send_message_again_example =
    send_message_again dump cfg morning morning session refl refl (omega arith) refl

send_message-decides_example :
    (send_message dump cfg (send_request "d" "k9" payload) session).0 ≡ err integrity_error
unfolding String-discrete
send_message-decides_example =
    send_message-decides dump cfg (send_request "d" "k9" payload) db two_messages-IsWellNumbered

history-IsPage_example :
    IsPage
      (preference none (some (pos 1)))
      1
      (candidates "c" none (some (pos 1)) two_messages)
      (history "c" none (some (pos 1)) (negsuc 4) two_messages)
    × IsSorted ascending (history "c" none (some (pos 1)) (negsuc 4) two_messages)
    × (length (history "c" none (some (pos 1)) (negsuc 4) two_messages) ≤ 100)
history-IsPage_example = history-IsPage "c" none (some (pos 1)) (negsuc 4) two_messages

history_after-eq-run_example :
    map (λ m. m.sequence_number) (history "c" none (some (pos 1)) (pos 50) two_messages) ≡ 2 ∷ []
unfolding String-discrete history
history_after-eq-run_example =
    history_after-eq-run "c" 1 (pos 50) two_messages two_messages-IsGapless

verify_conversation_access-decides_example :
    verify_conversation_access "c" "eve" UserRole.recipient session ≡ (err forbidden, session)
unfolding String-discrete
verify_conversation_access-decides_example =
    verify_conversation_access-decides "c" "eve" UserRole.recipient session (omega arith)
      (omega arith)
