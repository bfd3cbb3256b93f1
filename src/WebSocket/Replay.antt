-- ===== src/WebSocket/Replay.antt =====
-- What a sync replays.
use relationship_os.Base.{
  ℕ, zero, suc, ◌+◌, ◌-◌, min, String, Bool, false, ◌≡◌, refl, ap, ◌∙◌, Option, none, some, List,
  [], ◌∷◌, ◌++◌, map, arith, length, select, eqb, append_nil,
}
use relationship_os.Base.Int.{pos}
use relationship_os.Shared.Constants.{PresenceState}
use relationship_os.Shared.Event.{CanonicalMessageEvent}
use relationship_os.Shared.Config.{Settings}
use relationship_os.Db.Rows.{Conversation, Message}
use relationship_os.Db.Session.{ok, open_session}
use relationship_os.Message.Access.{verify_conversation_access}
use relationship_os.Message.Send.{is_in}
use relationship_os.Message.Send.Sequence.{IsGapless}
use relationship_os.Message.History.{history, get_history}
use relationship_os.Message.History.Replay.{run, history_after-eq-run}
use relationship_os.Hub.{has, send_all, broadcast_to_room, room_of, register}
use relationship_os.Hub.Broadcast.{send_all-decides}
use relationship_os.WebSocket.{UserData, ServerFrame, World, say, broadcast}
use relationship_os.WebSocket.Keeps.{sync_query_same, verify_same}
use relationship_os.WebSocket.Members.{verify-can_enter}
use relationship_os.WebSocket.Frames.{Moment, synchronized_up_to, metadata_of, sync_query, on_sync}

pub head_eq :
    (m : Message) (ms : List Message) (a l : ℕ)
    → map (λ m. m.sequence_number) (m ∷ ms) ≡ run a (suc l)
    → m.sequence_number ≡ a
head_eq m ms a l h = cc

pub tail_eq :
    (m : Message) (ms : List Message) (a l : ℕ)
    → map (λ m. m.sequence_number) (m ∷ ms) ≡ run a (suc l)
    → map (λ m. m.sequence_number) ms ≡ run (suc a) l
tail_eq m ms a l h = cc

-- The last of the numbers k + 1, k + 2, …
pub synchronized_up_to-run :
    (k l : ℕ) (ms : List Message)
    → map (λ m. m.sequence_number) ms ≡ run (k + 1) l
    → synchronized_up_to (some (pos k)) ms ≡ some (pos (k + l))
synchronized_up_to-run k zero [] h = ap (λ n. some (pos n)) (omega arith)
synchronized_up_to-run k zero (m ∷ ms) h = absurd cc
synchronized_up_to-run k (suc l) [] h = absurd cc
synchronized_up_to-run k (suc l) (m ∷ ms) h =
    let e : m.sequence_number ≡ suc k = head_eq m ms (k + 1) l h ∙ omega arith in
    rw e (
      synchronized_up_to-run (suc k) l ms
        (tail_eq m ms (k + 1) l h ∙ ap (λ a. run a l) (omega arith))
      ∙ ap (λ n. some (pos n)) (omega arith))

-- The frames that a socket has taken.
abbrev pub delivered : ℕ → List (ℕ × ServerFrame) → List ServerFrame
delivered ws sent = map (λ p. p.1) (select (λ p. eqb p.0 ws) sent)

delivered-others :
    (ws : ℕ) (frame : ServerFrame) (reached : List ℕ)
    → has ws reached ≡ false
    → delivered ws (map (λ x. (x, frame)) reached) ≡ []
delivered-others ws frame [] h = refl
delivered-others ws frame (x ∷ reached) h = ground (arith, delivered-others ws frame reached)

delivered-append :
    (ws : ℕ) (xs ys : List (ℕ × ServerFrame))
    → delivered ws (xs ++ ys) ≡ delivered ws xs ++ delivered ws ys
delivered-append ws [] ys = refl
delivered-append ws (x ∷ xs) ys = ground (arith, delivered-append ws xs ys)

-- A broadcast does not reach the socket that it excludes.
delivered-broadcast :
    (alive : ℕ → Bool) (c : String) (ws : ℕ) (frame : ServerFrame) (w : World)
    → delivered ws (broadcast alive c frame (some ws) w).sent ≡ delivered ws w.sent
unfolding broadcast_to_room
delivered-broadcast alive c ws frame w =
    let reached = (send_all alive (some ws) (room_of w.hub c)).0 in
    delivered-append ws w.sent (map (λ x. (x, frame)) reached)
    ∙ ap (λ fs. delivered ws w.sent ++ fs)
        (delivered-others ws frame reached
          (ground (arith, send_all-decides alive (some ws) (room_of w.hub c) ws)))
    ∙ append_nil (delivered ws w.sent)

own : (ws : ℕ) (frame : ServerFrame) → delivered ws ((ws, frame) ∷ []) ≡ frame ∷ []
own ws frame = ground arith

delivered-say :
    (ws : ℕ) (frame : ServerFrame) (w : World)
    → delivered ws (w.sent ++ ((ws, frame) ∷ [])) ≡ delivered ws w.sent ++ (frame ∷ [])
delivered-say ws frame w =
    delivered-append ws w.sent ((ws, frame) ∷ [])
    ∙ ap (λ fs. delivered ws w.sent ++ fs) (own ws frame)

module _ (dump : CanonicalMessageEvent → String) (cfg : Settings) (at : Moment) (ws : ℕ)
    (user : UserData) (current : Option String) where
  -- The state after the own socket was told.
  abbrev replayed : Conversation → List Message → ℕ → World → World
  replayed conv ms k w =
      say ws (ServerFrame.replay conv.id ms (synchronized_up_to (some (pos k)) ms))
        (record w { db = w.db; hub = register ws (metadata_of conv.id user) w.hub })

  on_sync-eq :
      (c : String) (k : ℕ) (w : World) (conv : Conversation) (ms : List Message)
      → (sync_query user (some c) (some (pos k)) (open_session w.db)).0 ≡ ok (conv, ms)
      → on_sync dump cfg at ws user current (some c) (some (pos k)) w ≡ (
        ok (some conv.id),
        broadcast at.alive conv.id
            (ServerFrame.presence user.user_id (some user.username) PresenceState.online)
            (some ws)
            (replayed conv ms k w),
      )
  unfolding on_sync
  on_sync-eq c k w conv ms e =
      ground (arith, e, sync_query_same user (some c) (some (pos k)) (open_session w.db))

  sync_query-history :
      (c : String) (k : ℕ) (w : World) (conv : Conversation)
      → (verify_conversation_access c user.user_id user.role (open_session w.db)).0 ≡ ok conv
      → (conv.id ≡ c)
        × ((sync_query user (some c) (some (pos k)) (open_session w.db)).0
            ≡ ok (conv, history c none (some (pos k)) (pos 100) w.db.messages))
  unfolding sync_query get_history
  sync_query-history c k w conv e =
      let (named, entered) = verify-can_enter user c (open_session w.db) conv e in
      ground (arith, e, named, verify_same c user.user_id user.role (open_session w.db))

  -- A sync after number k of a user who is let into a gapless conversation of n messages answers
  -- one frame to its socket: the messages k + 1, k + 2, … in this order, as many of the n - k as
  -- there are but no more than 100, with the last of these numbers, or k if there are none.
  pub on_sync-eq-run :
      (c : String) (k : ℕ) (w : World) (conv : Conversation)
      → (verify_conversation_access c user.user_id user.role (open_session w.db)).0 ≡ ok conv
      → IsGapless w.db.messages
      → let n = length (select (is_in c) w.db.messages) in
        let ms = history c none (some (pos k)) (pos 100) w.db.messages in
        let (r, w') = on_sync dump cfg at ws user current (some c) (some (pos k)) w in
        (r ≡ ok (some c))
        × (delivered ws w'.sent
            ≡ delivered ws w.sent
              ++ (ServerFrame.replay c ms (some (pos (k + min 100 (n - k)))) ∷ []))
        × (map (λ m. m.sequence_number) ms ≡ run (k + 1) (min 100 (n - k)))
  on_sync-eq-run c k w conv e g =
      let ms = history c none (some (pos k)) (pos 100) w.db.messages in
      let (named, q) = sync_query-history c k w conv e in
      let eq = on_sync-eq c k w conv ms q in
      let numbered = history_after-eq-run c k (pos 100) w.db.messages g in
      let up_to =
        synchronized_up_to-run k (min 100 (length (select (is_in c) w.db.messages) - k)) ms
          numbered in
      (
        ap (λ r. r.0) eq ∙ ap (λ i. ok (some i)) named,
        ap (λ r. delivered ws r.1.sent) eq
            ∙ delivered-broadcast at.alive conv.id ws
                (ServerFrame.presence user.user_id (some user.username) PresenceState.online)
                (replayed conv ms k w)
            ∙ delivered-say ws
                (ServerFrame.replay conv.id ms (synchronized_up_to (some (pos k)) ms)) w
            ∙ rw (named, up_to) refl,
        numbered,
      )
