-- ===== src/Conversations/Guard.antt =====
-- No route lets a stranger in.
use relationship_os.Base.{
  ℕ, ◌≤◌, String, Bool, false, ◌≡◌, Option, none, some, arith, ◌==◌, length, select, first,
  exists_row, ◌⊎◌, inl, inr, refl, List, [], ◌∷◌,
}
use relationship_os.Base.Int.{ℤ}
use relationship_os.Shared.Constants.{is_admin}
use relationship_os.Shared.Event.{MessagePayload, CanonicalMessageEvent}
use relationship_os.Shared.Errors.{Error, not_found, forbidden}
use relationship_os.Shared.Config.{Settings}
use relationship_os.Db.Rows.{Conversation, ConversationParticipant}
use relationship_os.Db.Session.{Session, ok, err}
use relationship_os.Auth.Token.{
  Jwt, Auth, Payload, Credentials, Decoded, valid, expired_signature, invalid_token, token_of,
  find_auth, get_current_user_and_session,
}
use relationship_os.Message.Access.{is_member}
use relationship_os.Message.Access.Laws.{verify_conversation_access-decides}
use relationship_os.Conversations.{
  SendDraws, enter, get_message_history, search_conversation, post_message, mark_conversation_read,
}

-- What a stranger is told: that there is no such conversation, or that it is forbidden.
abbrev pub refusal : Option Conversation → Error
refusal none = not_found
refusal (some _) = forbidden

pub Decoded-cases :
    (d : Decoded)
    → ((p : Payload) × (d ≡ valid p)) ⊎ ((d ≡ expired_signature) ⊎ (d ≡ invalid_token))
Decoded-cases (valid p) = inl (p, refl)
Decoded-cases expired_signature = inr (inl refl)
Decoded-cases invalid_token = inr (inr refl)

no_member :
    (c u : String) (ps : List ConversationParticipant)
    → exists_row (is_member c u) ps ≡ false
    → length (select (is_member c u) ps) ≤ 1
no_member c u [] h = omega arith
no_member c u (p ∷ ps) h = ground (arith, no_member c u ps)

module _ (jwt : Jwt) (now : ℕ) (credentials : Credentials) where
  find_auth-conversations :
      (p : Payload) (s : Session)
      → ((find_auth now p s).1.work.conversations ≡ s.work.conversations)
        × ((find_auth now p s).1.work.participants ≡ s.work.participants)
  unfolding find_auth
  find_auth-conversations p s = ground arith

  authenticated-conversations :
      (s : Session)
      → let s' = (get_current_user_and_session jwt now credentials s).1 in
        (s'.work.conversations ≡ s.work.conversations)
        × (s'.work.participants ≡ s.work.participants)
  unfolding get_current_user_and_session
  authenticated-conversations s = elim (Decoded-cases (jwt.decode now (token_of credentials))) [
    | inl (p, e) ↦ ground (arith, e, find_auth-conversations p s)
    | inr (inl e) ↦ ground (arith, e)
    | inr (inr e) ↦ ground (arith, e)
  ]

  enter-refuses :
      (c : String) (s : Session) {a : Auth}
      → (get_current_user_and_session jwt now credentials s).0 ≡ ok a
      → is_admin a.user.role ≡ false
      → exists_row (is_member c a.user.id) s.work.participants ≡ false
      → length (select (λ k. k.id == c) s.work.conversations) ≤ 1
      → length (select (is_member c a.user.id) s.work.participants) ≤ 1
      → (enter jwt now credentials c s).0
        ≡ err (refusal (first (select (λ k. k.id == c) s.work.conversations)))
  unfolding enter
  enter-refuses c s {a} who ordinary stranger one unique =
      let s' = (get_current_user_and_session jwt now credentials s).1 in
      ground (
        arith,
        authenticated-conversations s,
        verify_conversation_access-decides c a.user.id a.user.role s',
      )

  -- An authenticated user who is no administrator and has no participant row in a conversation
  -- that stands at most once gets nothing from it: each of its four routes answers only that it
  -- is forbidden, or that there is no such conversation.
  pub routes_refuse :
      (dump : CanonicalMessageEvent → String) (cfg : Settings) (draws : SendDraws)
      (ilike : String → String → Bool) (c key text : String) (payload : MessagePayload)
      (before after : Option ℤ) (limit n : ℤ) (s : Session) {a : Auth}
      → (get_current_user_and_session jwt now credentials s).0 ≡ ok a
      → is_admin a.user.role ≡ false
      → exists_row (is_member c a.user.id) s.work.participants ≡ false
      → length (select (λ k. k.id == c) s.work.conversations) ≤ 1
      → let answer = refusal (first (select (λ k. k.id == c) s.work.conversations)) in
        ((get_message_history jwt now credentials c before after limit s).0 ≡ err answer)
        × ((search_conversation jwt now credentials ilike c text limit s).0 ≡ err answer)
        × ((post_message jwt now credentials dump cfg draws c key payload s).0 ≡ err answer)
        × ((mark_conversation_read jwt now credentials c n s).0 ≡ err answer)
  unfolding get_message_history search_conversation post_message mark_conversation_read
  routes_refuse dump cfg draws ilike c key text payload before after limit n s {a} who ordinary
        stranger one =
      ground (
        arith,
        enter-refuses c s who ordinary stranger one
            (no_member c a.user.id s.work.participants stranger),
      )
