-- ===== src/Sdk/CatchUp.antt =====
-- A client that has missed messages, and the server's replays.
use relationship_os.Base.{
  ℕ, zero, suc, ◌+◌, ◌-◌, ◌*◌, min, String, ◌≡◌, refl, sym, ap, ◌∙◌, Option, none, some, List, [],
  ◌∷◌, ◌++◌, map, arith, length, select, append_nil,
}
use mathlib.Core.Path.{subst}
use relationship_os.Base.Int.{ℤ, pos}
use relationship_os.Shared.Event.{CanonicalMessageEvent}
use relationship_os.Shared.Config.{Settings}
use relationship_os.Db.Rows.{Conversation, Message}
use relationship_os.Db.Session.{ok, open_session}
use relationship_os.Message.Access.{verify_conversation_access}
use relationship_os.Message.Send.{is_in}
use relationship_os.Message.Send.Sequence.{IsGapless}
use relationship_os.Message.History.{history}
use relationship_os.Message.History.Replay.{run, run_cong, history_after-eq-run}
use relationship_os.WebSocket.{UserData, ServerFrame, World}
use relationship_os.WebSocket.Frames.{ClientFrame, Moment, handle_frame}
use relationship_os.WebSocket.Replay.{delivered, on_sync-eq-run}
use relationship_os.Sdk.{Client, Call, on_frame, on_frames, sync_frame}
use relationship_os.Sdk.Seen.{
  highest, see_all-highest, highest-run, run-append, handed, handed-append, map-append,
}

none_left : (k n : ℕ) → k ≡ k + min (100 * 0) (n - k)
none_left k n = omega arith

split_rounds :
    (r k n : ℕ)
    → k + min 100 (n - k) + min (100 * r) (n - (k + min 100 (n - k)))
      ≡ k + min (100 * suc r) (n - k)
split_rounds r k n = omega arith

module _ (dump : CanonicalMessageEvent → String) (cfg : Settings) (at : Moment) (ws : ℕ)
    (user : UserData) where
  -- The client connects: the server answers its sync frame, and it takes what its socket is sent.
  abbrev pub reconnect : World → Client → Client × List Call
  unfolding handle_frame on_frames
  reconnect w cl =
      on_frames
        (delivered ws
          (handle_frame dump cfg at ws user none (sync_frame cl) (record w { sent = [] })).1.sent)
        cl

  -- It connects again and again, and no message is added in between.
  abbrev pub reconnects : ℕ → World → Client → Client × List Call
  unfolding reconnect
  reconnects zero w cl = (cl, [])
  reconnects (suc r) w cl =
      let (cl', calls) = reconnect w cl in
      let (last, more) = reconnects r w cl' in (last, calls ++ more)

  module _ (c : String) (w : World) (conv : Conversation)
      (entered : (verify_conversation_access c user.user_id user.role (open_session w.db)).0
        ≡ ok conv)
      (gapless : IsGapless w.db.messages) where
    abbrev total : ℕ
    total = length (select (is_in c) w.db.messages)

    abbrev missed : ℕ → List Message
    missed k = history c none (some (pos k)) (pos 100) w.db.messages

    frames_of_sync :
        (cl : Client)
        → cl.conversation_id ≡ c
        → delivered ws
            (handle_frame dump cfg at ws user none (sync_frame cl) (record w { sent = [] })).1.sent
          ≡ ServerFrame.replay c
              (missed cl.last_known_sequence)
              (some (pos (cl.last_known_sequence + min 100 (total - cl.last_known_sequence))))
            ∷ []
    unfolding handle_frame
    frames_of_sync cl same =
        subst
          (λ i.
            delivered ws
              (handle_frame dump cfg at ws user none
                (ClientFrame.sync (some i) (some (pos cl.last_known_sequence)))
                (record w { sent = [] })).1.sent
            ≡ ServerFrame.replay c (missed cl.last_known_sequence)
                (some (pos (cl.last_known_sequence + min 100 (total - cl.last_known_sequence))))
              ∷ [])
          (sym same)
          ((on_sync-eq-run dump cfg at ws user none c cl.last_known_sequence
            (record w { sent = [] }) conv entered gapless).1)

    take_replay :
        (k : ℕ) (up_to : Option ℤ) (cl : Client)
        → cl.last_known_sequence ≡ k
        → let l = min 100 (total - k) in
          ((on_frames (ServerFrame.replay c (missed k) up_to ∷ []) cl).0
            ≡ record cl { last_known_sequence = k + l })
          × (map
                (λ m. m.sequence_number)
                (handed (on_frames (ServerFrame.replay c (missed k) up_to ∷ []) cl).1)
              ≡ run (k + 1) l)
    unfolding on_frames on_frame
    take_replay k up_to cl e =
        let numbered = history_after-eq-run c k (pos 100) w.db.messages gapless in
        let l = min 100 (total - k) in
        (
          see_all-highest (missed k) cl
              ∙ ap (λ n. record cl { last_known_sequence = n })
                  (ap (λ n. highest n (missed k)) e ∙ highest-run k l (missed k) numbered),
          ap (map (λ m. m.sequence_number)) (append_nil (missed k)) ∙ numbered,
        )

    reconnect-eq :
        (cl : Client)
        → cl.conversation_id ≡ c
        → let k = cl.last_known_sequence in
          let l = min 100 (total - k) in
          ((reconnect w cl).0 ≡ record cl { last_known_sequence = k + l })
          × (map (λ m. m.sequence_number) (handed (reconnect w cl).1) ≡ run (k + 1) l)
    unfolding reconnect on_frames
    reconnect-eq cl same =
        let k = cl.last_known_sequence in
        let frames = frames_of_sync cl same in
        let up_to = some (pos (k + min 100 (total - k))) in
        let (last, numbers) = take_replay k up_to cl refl in
        (
          ap (λ fs. (on_frames fs cl).0) frames ∙ last,
          ap (λ fs. map (λ m. m.sequence_number) (handed (on_frames fs cl).1)) frames ∙ numbers,
        )

  -- A client of a user who is let into a gapless conversation of n messages has seen the messages
  -- up to k. It connects r times, and no message is added meanwhile. Then its callbacks were given
  -- the messages k + 1, k + 2, … in this order, each once: as many of the n - k as there are, but no
  -- more than 100 · r; and its last known number is that of the last of them. So it has all of them
  -- once r is large enough.
  pub reconnects-eq-run :
      (r : ℕ) (c : String) (w : World) (conv : Conversation) (cl : Client)
      → (verify_conversation_access c user.user_id user.role (open_session w.db)).0 ≡ ok conv
      → IsGapless w.db.messages
      → cl.conversation_id ≡ c
      → let n = length (select (is_in c) w.db.messages) in
        let k = cl.last_known_sequence in
        let l = min (100 * r) (n - k) in
        ((reconnects r w cl).0 ≡ record cl { last_known_sequence = k + l })
        × (map (λ m. m.sequence_number) (handed (reconnects r w cl).1) ≡ run (k + 1) l)
  unfolding reconnects
  reconnects-eq-run zero c w conv cl entered gapless same =
      let k = cl.last_known_sequence in
      let n = length (select (is_in c) w.db.messages) in
      (
        ap (λ v. record cl { last_known_sequence = v }) (none_left k n),
        run_cong (k + 1) (k + 1) 0 (min (100 * 0) (n - k)) refl (omega arith),
      )
  reconnects-eq-run (suc r) c w conv cl entered gapless same =
      let k = cl.last_known_sequence in
      let n = length (select (is_in c) w.db.messages) in
      let l = min 100 (n - k) in
      let (e, numbers) = reconnect-eq c w conv entered gapless cl same in
      let cl' = record cl { last_known_sequence = k + l } in
      let (last, more) = reconnects-eq-run r c w conv cl' entered gapless same in
      let rest = min (100 * r) (n - (k + l)) in
      (
        ap (λ x. (reconnects r w x).0) e
            ∙ last
            ∙ ap (λ v. record cl { last_known_sequence = v }) (split_rounds r k n),
        ap (map (λ m. m.sequence_number))
              (handed-append (reconnect w cl).1 (reconnects r w (reconnect w cl).0).1)
            ∙ map-append (λ m. m.sequence_number) (handed (reconnect w cl).1)
                (handed (reconnects r w (reconnect w cl).0).1)
            ∙ ap
                (λ t.
                  t ++ map (λ m. m.sequence_number) (handed (reconnects r w (reconnect w cl).0).1))
                numbers
            ∙ ap (λ x. run (k + 1) l ++ map (λ m. m.sequence_number) (handed (reconnects r w x).1))
                e
            ∙ ap (λ t. run (k + 1) l ++ t)
                (more ∙ run_cong (k + l + 1) (k + 1 + l) rest rest (omega arith) refl)
            ∙ run-append (k + 1) l rest
            ∙ run_cong (k + 1) (k + 1) (l + rest) (min (100 * suc r) (n - k)) refl (omega arith),
      )
