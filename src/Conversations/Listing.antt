-- ===== src/Conversations/Listing.antt =====
-- The list of conversations of routers/conversations.py, with the unread messages of each.
use relationship_os.Base.{
  ℕ, String, Bool, ◌&&◌, ◌||◌, ◌≡◌, refl, ◌∙◌, List, [], ◌∷◌, ◌++◌, map, arith, ◌==◌, eq_of_test,
  leb, select, exists_row, exists-append_row, inl, inr, if◌then◌else◌,
}
use relationship_os.Base.Sorting.{sort_by, exists-sort_by}
use relationship_os.Shared.Constants.{is_admin}
use relationship_os.Db.Rows.{Db, User, Conversation, ConversationStatus, ConversationParticipant}
use relationship_os.Db.Session.{Action, Session, ok, ◌>>=◌, query}
use relationship_os.Message.Access.{is_member}
use relationship_os.Read.{unread_count}
use relationship_os.Auth.Token.{
  Jwt, Auth, Payload, Credentials, token_of, find_auth, get_current_user_and_session,
}
use relationship_os.Conversations.Guard.{Decoded-cases}

pub record ConversationResponse : Type 0 where
  pub id : String
  pub title : String
  pub type : String
  pub status : ConversationStatus
  pub created_at : ℕ
  pub unread_count : ℕ

-- `order_by(Conversation.updated_at.desc())`
abbrev updated_later : Conversation → Conversation → Bool
updated_later a b = leb b.updated_at a.updated_at

-- The join with the participants has a row for each participant that matches.
abbrev pub joined_rows :
    String → List ConversationParticipant → List Conversation → List Conversation
joined_rows user_id ps [] = []
joined_rows user_id ps (c ∷ cs) =
    map (λ p. c) (select (is_member c.id user_id) ps) ++ joined_rows user_id ps cs

unfoldable pub accessible_conversations : User → Db → List Conversation
unfolding sort_by
accessible_conversations user d =
    if is_admin user.role
    then sort_by updated_later d.conversations
    else sort_by updated_later (joined_rows user.id d.participants d.conversations)

abbrev pub conversation_response : User → Db → Conversation → ConversationResponse
conversation_response user d c = record {
  id = c.id;
  title = c.title;
  type = c.type;
  status = c.status;
  created_at = c.created_at;
  unread_count = unread_count c.id user.id d;
}

unfoldable pub list_conversations : Jwt → ℕ → Credentials → Action (List ConversationResponse)
unfolding accessible_conversations
list_conversations jwt now credentials = do
  auth ← get_current_user_and_session jwt now credentials
  query (λ d. map (conversation_response auth.user d) (accessible_conversations auth.user d))

abbrev pub is_listed : String → ConversationResponse → Bool
is_listed c r = r.id == c

exists-map-response :
    (c : String) (user : User) (d : Db) (cs : List Conversation)
    → exists_row (is_listed c) (map (conversation_response user d) cs)
      ≡ exists_row (λ k. k.id == c) cs
exists-map-response c user d [] = refl
exists-map-response c user d (k ∷ cs) = ground (arith, exists-map-response c user d cs)

exists-copies :
    (c : String) (k : Conversation) (user_id : String) (ps : List ConversationParticipant)
    → exists_row (λ x. x.id == c) (map (λ p. k) (select (is_member k.id user_id) ps))
      ≡ (k.id == c && exists_row (is_member c user_id) ps)
exists-copies c k user_id [] = ground arith
exists-copies c k user_id (p ∷ ps) = ground (arith, exists-copies c k user_id ps, eq_of_test k.id c)

exists-joined_rows :
    (c user_id : String) (ps : List ConversationParticipant) (cs : List Conversation)
    → exists_row (λ k. k.id == c) (joined_rows user_id ps cs)
      ≡ (exists_row (λ k. k.id == c) cs && exists_row (is_member c user_id) ps)
exists-joined_rows c user_id ps [] = refl
exists-joined_rows c user_id ps (k ∷ cs) =
    exists-append_row (λ x. x.id == c) (map (λ p. k) (select (is_member k.id user_id) ps))
      (joined_rows user_id ps cs)
    ∙ ground (arith, exists-copies c k user_id ps, exists-joined_rows c user_id ps cs)

-- The rooms of a session's database.
abbrev pub HasSameRooms : Session → Session → Type 0
HasSameRooms s s' =
    (s'.work.conversations ≡ s.work.conversations) × (s'.work.participants ≡ s.work.participants)

find_auth_rooms : (now : ℕ) (p : Payload) (s : Session) → HasSameRooms s (find_auth now p s).1
unfolding find_auth
find_auth_rooms now p s = ground arith

authenticated_rooms :
    (jwt : Jwt) (now : ℕ) (c : Credentials) (s : Session)
    → HasSameRooms s (get_current_user_and_session jwt now c s).1
unfolding get_current_user_and_session
authenticated_rooms jwt now c s = elim (Decoded-cases (jwt.decode now (token_of c))) [
  | inl (p, e) ↦ ground (arith, e, find_auth_rooms now p s)
  | inr (inl e) ↦ ground (arith, e)
  | inr (inr e) ↦ ground (arith, e)
]

accessible-decides :
    (c : String) (user : User) (d : Db)
    → exists_row (λ k. k.id == c) (accessible_conversations user d) ≡ (
        exists_row (λ k. k.id == c) d.conversations
        && (is_admin user.role || exists_row (is_member c user.id) d.participants))
unfolding accessible_conversations
accessible-decides c user d = ground (
  arith,
  exists-sort_by updated_later (λ k. k.id == c) d.conversations,
  exists-sort_by updated_later (λ k. k.id == c)
      (joined_rows user.id d.participants d.conversations),
  exists-joined_rows c user.id d.participants d.conversations,
)

-- Whoever is authenticated is answered a list, and a conversation is in it exactly if it exists and
-- the user is an administrator or has a participant row for it.
pub list_conversations-decides :
    (jwt : Jwt) (now : ℕ) (credentials : Credentials) (s : Session) {a : Auth}
    → (get_current_user_and_session jwt now credentials s).0 ≡ ok a
    → (rs : List ConversationResponse) × ((list_conversations jwt now credentials s).0 ≡ ok rs)
      × ((c : String)
          → exists_row (is_listed c) rs ≡ (
              exists_row (λ k. k.id == c) s.work.conversations
              && (is_admin a.user.role || exists_row (is_member c a.user.id) s.work.participants)))
unfolding list_conversations
list_conversations-decides jwt now credentials s {a} who =
    let s' = (get_current_user_and_session jwt now credentials s).1 in
    let (rooms, members) = authenticated_rooms jwt now credentials s in
    (
      map (conversation_response a.user s'.work) (accessible_conversations a.user s'.work),
      ground (arith, who),
      λ c. ground (
        arith,
        rooms,
        members,
        exists-map-response c a.user s'.work (accessible_conversations a.user s'.work),
        accessible-decides c a.user s'.work,
      ),
    )
