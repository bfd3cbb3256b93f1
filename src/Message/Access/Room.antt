-- ===== src/Message/Access/Room.antt =====
-- The private room of two users.
use relationship_os.Base.{
  ap2, ℕ, ◌+◌, Option, String, false, ap, ◌≡◌, refl, sym, ◌∙◌, inl, inr, Option-cases, some, none,
  List, [], ◌∷◌, ◌++◌, arith, ◌==◌, eq_refl, leb, length, select, exists_row, first, select-append,
  if◌then◌else◌,
}
use relationship_os.Db.Rows.{Db, Conversation, ConversationParticipant}
use relationship_os.Db.Session.{Action, Session, ok, pure}
use relationship_os.Message.Access.{
  joined, shared_conversations, RoomIds, new_room, new_participant, create_room,
  get_or_create_private_conversation,
}

nil_of_first : {A : Type 0} (xs : List A) → first xs ≡ none → xs ≡ []
nil_of_first [] h = refl
nil_of_first (x ∷ xs) h = absurd cc

ok_injective : {A : Type 0} {a b : A} → ok a ≡ ok b → a ≡ b
ok_injective h = cc

-- The shared rooms depend on two tables.
pub shared_same :
    (a b : String) (d d' : Db)
    → d'.conversations ≡ d.conversations
    → d'.participants ≡ d.participants
    → shared_conversations a b d' ≡ shared_conversations a b d
shared_same a b d d' cs ps = ap2 (λ x y. select (λ c. leb 2 (length (joined c.id a b y))) x) cs ps

module _ (now : ℕ) (ids : RoomIds) (o r title : String) where
  abbrev with_pair : List ConversationParticipant → List ConversationParticipant
  with_pair ps =
      (ps ++ (new_participant now ids.owner_participant ids.conversation o ∷ []))
      ++ (new_participant now ids.recipient_participant ids.conversation r ∷ [])

  joined-with_pair :
      (c : String) (ps : List ConversationParticipant)
      → length (joined c o r (with_pair ps))
        ≡ (if ids.conversation == c then length (joined c o r ps) + 2 else length (joined c o r ps))
  joined-with_pair c [] = ground (arith, eq_refl o, eq_refl r)
  joined-with_pair c (p ∷ ps) = ground (arith, joined-with_pair c ps)

  shared_others :
      (ps : List ConversationParticipant) (cs : List Conversation)
      → exists_row (λ c. c.id == ids.conversation) cs ≡ false
      → select (λ c. leb 2 (length (joined c.id o r (with_pair ps)))) cs
        ≡ select (λ c. leb 2 (length (joined c.id o r ps))) cs
  shared_others ps [] h = refl
  shared_others ps (c ∷ cs) h = ground (arith, joined-with_pair c.id ps, shared_others ps cs)

  create_room-tables :
      (s : Session) {conv : Conversation}
      → (create_room now ids o r title s).0 ≡ ok conv
      → let d' = (create_room now ids o r title s).1.work in
        (exists_row (λ c. c.id == ids.conversation) s.work.conversations ≡ false)
        × (conv ≡ new_room now ids.conversation title)
        × (d'.conversations ≡ s.work.conversations ++ (conv ∷ []))
        × (d'.participants ≡ with_pair s.work.participants)
  unfolding create_room
  create_room-tables s h = ground arith

  shared-with_pair :
      (cs : List Conversation) (ps : List ConversationParticipant)
      → exists_row (λ c. c.id == ids.conversation) cs ≡ false
      → select (λ c. leb 2 (length (joined c.id o r ps))) cs ≡ []
      → select
          (λ c. leb 2 (length (joined c.id o r (with_pair ps))))
          (cs ++ (new_room now ids.conversation title ∷ []))
        ≡ new_room now ids.conversation title ∷ []
  shared-with_pair cs ps h none_shared = ground (
    arith,
    select-append (λ c. leb 2 (length (joined c.id o r (with_pair ps)))) cs
        (new_room now ids.conversation title ∷ []),
    shared_others ps cs h,
    joined-with_pair ids.conversation ps,
    eq_refl ids.conversation,
  )

  room_created :
      (s : Session)
      → first (shared_conversations o r s.work) ≡ none
      → get_or_create_private_conversation now ids o r title s ≡ create_room now ids o r title s
  unfolding get_or_create_private_conversation
  room_created s h =
      ap
        (λ (x : Option Conversation).
          (elim x as (λ _. Action Conversation) [
            | none ↦ create_room now ids o r title
            | some conv ↦ pure conv
          ])
            s)
        h

  pub room_kept :
      (s : Session) {conv : Conversation}
      → first (shared_conversations o r s.work) ≡ some conv
      → get_or_create_private_conversation now ids o r title s ≡ (ok conv, s)
  unfolding get_or_create_private_conversation
  room_kept s h =
      ap
        (λ (x : Option Conversation).
          (elim x as (λ _. Action Conversation) [
            | none ↦ create_room now ids o r title
            | some conv ↦ pure conv
          ])
            s)
        h

  created_found :
      (s : Session) {conv : Conversation}
      → first (shared_conversations o r s.work) ≡ none
      → (create_room now ids o r title s).0 ≡ ok conv
      → first (shared_conversations o r (create_room now ids o r title s).1.work) ≡ some conv
  created_found s {conv} nothing done =
      let (fresh, same, cs, ps) = create_room-tables s done in
      ap first (
        ap2 (λ x y. select (λ c. leb 2 (length (joined c.id o r y))) x)
          (cs ∙ ap (λ x. s.work.conversations ++ (x ∷ [])) same) ps
        ∙ shared-with_pair s.work.conversations s.work.participants fresh
            (nil_of_first (shared_conversations o r s.work) nothing))
      ∙ ap some (sym same)

  -- The lookup finds the room that a call has answered.
  pub room_found :
      (s : Session) {conv : Conversation}
      → (get_or_create_private_conversation now ids o r title s).0 ≡ ok conv
      → first
          (shared_conversations o r (get_or_create_private_conversation now ids o r title s).1.work)
        ≡ some conv
  room_found s {conv} done = elim (Option-cases (first (shared_conversations o r s.work))) [
    | inl nothing ↦
        let same = room_created s nothing in
        ap (λ p. first (shared_conversations o r p.1.work)) same
        ∙ created_found s nothing (ap (λ p. p.0) (sym same) ∙ done)
    | inr (c, there) ↦
        let same = room_kept s there in
        ap (λ p. first (shared_conversations o r p.1.work)) same
        ∙ there
        ∙ ap some (ok_injective (ap (λ p. p.0) (sym same) ∙ done))
  ]

-- After a call that returned, a call for the same two users, at any time and with any title, returns
-- the same room and changes nothing.
pub get_or_create_again :
    (now later : ℕ) (ids ids' : RoomIds) (o r title title' : String) (s : Session)
    {conv : Conversation}
    → (get_or_create_private_conversation now ids o r title s).0 ≡ ok conv
    → let s' = (get_or_create_private_conversation now ids o r title s).1 in
      get_or_create_private_conversation later ids' o r title' s' ≡ (ok conv, s')
get_or_create_again now later ids ids' o r title title' s done =
    room_kept later ids' o r title' (get_or_create_private_conversation now ids o r title s).1
      (room_found now ids o r title s done)
