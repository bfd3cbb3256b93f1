-- ===== src/Tests/Sockets.antt =====
-- The WebSocket endpoint, its clients, and the inbound webhook.
use relationship_os.Base.{
  ℕ, String, String-discrete, true, ◌≡◌, refl, none, some, List, [], ◌∷◌, map, length,
}
use relationship_os.Base.Int.{pos}
use relationship_os.Shared.Constants.{UserRole}
use relationship_os.Db.Rows.{Db}
use relationship_os.Db.Session.{ok, get_db}
use relationship_os.Message.Send.{send_message}
use relationship_os.Message.Send.Sequence.{IsWellNumbered}
use relationship_os.Message.Access.{verify_conversation_access}
use relationship_os.Message.History.{history}
use relationship_os.Conversations.{SendDraws}
use relationship_os.Hub.{register, unregister, unregister_all, broadcast_to_room}
use relationship_os.WebSocket.{UserData, ServerFrame, World, nothing, connect, try_token}
use relationship_os.WebSocket.Frames.{ClientFrame, Moment, on_sync, handle_frame}
use relationship_os.WebSocket.Loop.{Incoming, opened, frame, disconnected, receive_all}
use relationship_os.WebSocket.Numbering.{receive_all-IsWellNumbered}
use relationship_os.WebSocket.Members.{IsAuthorised}
use relationship_os.WebSocket.Safety.{receive_all-IsAuthorised}
use relationship_os.WebSocket.Replay.{delivered, on_sync-eq-run}
use relationship_os.Sdk.{new_client}
use relationship_os.Sdk.Seen.{handed}
use relationship_os.Sdk.CatchUp.{reconnects, reconnects-eq-run}
use relationship_os.Signature.{verify_webhook_signature, compute_webhook_signature}
use relationship_os.Inbound.{fields, InboundBody, InboundRequest, Arrival, receive_inbound_webhook}
use relationship_os.Inbound.Replay.{receive_inbound_webhook_again}
use relationship_os.Tests.Data.{cfg, room, two_messages, db, dump}
use relationship_os.Tests.Accounts.{accounts, jwt}
use relationship_os.Tests.Messages.{two_messages-IsGapless, two_messages-IsWellNumbered}

abbrev draws : String → SendDraws
draws m = record {
  message_id = m;
  discord_delivery_id = "d1";
  webhook_delivery_id = "d2";
  outbox_id = "o9";
  event_id = "e9";
}

abbrev pub moment : ℕ → String → Moment
moment now m = record { now = now; draws = draws m; alive = λ ws. true }

abbrev pub world : Db → World
world d = record {
  db = d;
  hub = record { active_rooms = λ _. none; socket_metadata = λ _. none; sockets = [] };
  connections = λ _. none;
  sent = [];
}

-- Ann opens a connection with a token in the query, synchronises, sends a message, and leaves.
abbrev visit : List (ℕ × Incoming)
visit =
    (1, opened (moment 10 "m7") (some "!a!n!n-s1") nothing)
    ∷ (1, frame (moment 11 "m8") (ClientFrame.sync (some "c") (some (pos 0))))
    ∷ (1, frame (moment 12 "m9") (ClientFrame.send "" "k9" "hi"))
    ∷ (1, disconnected (moment 13 "m10"))
    ∷ []

-- The message that she sends is the third.
visit-messages : length (receive_all jwt dump cfg visit (world accounts)).db.messages ≡ 3
unfolding String-discrete receive_all connect handle_frame try_token unregister broadcast_to_room
    unregister_all register
visit-messages = refl

receive_all-IsWellNumbered_example :
    IsWellNumbered (receive_all jwt dump cfg visit (world accounts)).db.messages
receive_all-IsWellNumbered_example =
    receive_all-IsWellNumbered dump cfg jwt visit (world accounts) two_messages-IsWellNumbered

world-IsAuthorised : IsAuthorised (world accounts)
world-IsAuthorised = record { members = λ c ws h. absurd cc }

receive_all-IsAuthorised_example : IsAuthorised (receive_all jwt dump cfg visit (world accounts))
receive_all-IsAuthorised_example =
    receive_all-IsAuthorised jwt dump cfg visit (world accounts) world-IsAuthorised

abbrev bob : UserData
bob = record {
  user_id = "bob";
  session_id = "s2";
  username = "bob";
  display_name = "Bob";
  role = UserRole.recipient;
  device_name = "tablet";
}

on_sync-eq-run_example :
    let ms = history "c" none (some (pos 1)) (pos 100) two_messages in
    let (r, w) = on_sync dump cfg (moment 5 "m9") 2 bob none (some "c") (some (pos 1)) (world db) in
    (r ≡ ok (some "c"))
    × (delivered 2 w.sent ≡ ServerFrame.replay "c" ms (some (pos 2)) ∷ [])
    × (map (λ m. m.sequence_number) ms ≡ 2 ∷ [])
unfolding String-discrete verify_conversation_access
on_sync-eq-run_example =
    on_sync-eq-run dump cfg (moment 5 "m9") 2 bob none "c" 1 (world db) room refl
      two_messages-IsGapless

reconnects-eq-run_example :
    ((reconnects dump cfg (moment 5 "m9") 2 bob 1 (world db) (new_client "c")).0
      ≡ record (new_client "c") { last_known_sequence = 2 })
    × (map
          (λ m. m.sequence_number)
          (handed (reconnects dump cfg (moment 5 "m9") 2 bob 1 (world db) (new_client "c")).1)
        ≡ 1 ∷ 2 ∷ [])
unfolding String-discrete verify_conversation_access
reconnects-eq-run_example =
    reconnects-eq-run dump cfg (moment 5 "m9") 2 bob 1 "c" (world db) room (new_client "c") refl
      two_messages-IsGapless refl

abbrev reply_body : InboundBody
reply_body = record { conversation_id = "c"; body = "yes"; client_message_id = "k5" }

abbrev signed : InboundRequest
signed = record { raw_body = 1 ∷ []; signature = "v1=mac"; timestamp = pos 100 }

abbrev arrival : ℕ → String → Arrival
arrival t m = record { current_time = t; now = t; draws = draws m }

receive_inbound_webhook_again_example :
    let receive =
      receive_inbound_webhook
        (λ s. [])
        (λ z. "100")
        (λ k b. "mac")
        (λ b. fields reply_body)
        (λ n. "")
        dump
        cfg in
    get_db (receive (arrival 300 "m8") signed) (get_db (receive (arrival 101 "m7") signed) db).1 ≡ (
      ok (record { message_id = "m7"; sequence_number = 3 }, none),
      (get_db (receive (arrival 101 "m7") signed) db).1,
    )
unfolding String-discrete receive_inbound_webhook send_message verify_webhook_signature
    compute_webhook_signature get_db
receive_inbound_webhook_again_example =
    receive_inbound_webhook_again (λ s. []) (λ z. "100") (λ k b. "mac") (λ b. fields reply_body)
      (λ n. "") dump cfg (arrival 101 "m7") (arrival 300 "m8") signed reply_body db refl refl refl
      refl
