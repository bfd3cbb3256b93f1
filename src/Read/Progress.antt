-- ===== src/Read/Progress.antt =====
-- The read position only advances, and the unread count follows it.
use relationship_os.Base.{
  ℕ, max, ◌≤◌, String, ◌≡◌, refl, List, [], ◌∷◌, arith, length, select, select-first, update_where,
}
use relationship_os.Base.Int.{ℤ, pos, negsuc}
use relationship_os.Db.Rows.{Db, ConversationParticipant, Message}
use relationship_os.Db.Session.{Session, ok}
use relationship_os.Message.Access.{is_member}
use relationship_os.Message.Send.{is_in, max_sequence}
use relationship_os.Read.{to_column, mark_read, last_seq, is_unread, unread_count}

select-advance :
    (c u : String) (n : ℕ) (ps : List ConversationParticipant)
    → select
        (is_member c u)
        (update_where (is_member c u) (λ p. record p { last_read_sequence = n }) ps)
      ≡ update_where
          (is_member c u)
          (λ p. record p { last_read_sequence = n })
          (select (is_member c u) ps)
select-advance c u n [] = refl
select-advance c u n (p ∷ ps) = ground (arith, select-advance c u n ps)

-- For a user with exactly one participant row the call answers the larger of the old position and
-- the given one, a negative one counting as 0, that is the position afterwards, and no message
-- changes.
pub mark_read-max :
    (c u : String) (z : ℤ) (s : Session) (p : ConversationParticipant)
    → select (is_member c u) s.work.participants ≡ p ∷ []
    → let (result, s') = mark_read c u z s in
      (result ≡ ok (max p.last_read_sequence (to_column z)))
      × (last_seq c u s'.work ≡ max p.last_read_sequence (to_column z))
      × (s'.work.messages ≡ s.work.messages)
unfolding mark_read
mark_read-max c u (pos n) s p one = ground (
  arith,
  select-advance c u n s.work.participants,
  select-first (is_member c u) s.work.participants p [] one,
)
mark_read-max c u (negsuc n) s p one = ground arith

length-is_unread_mono :
    (c u : String) (a b : ℕ) (ms : List Message)
    → a ≤ b
    → length (select (is_unread c u b) ms) ≤ length (select (is_unread c u a) ms)
length-is_unread_mono c u a b [] h = omega arith
length-is_unread_mono c u a b (m ∷ ms) h = ground (arith, length-is_unread_mono c u a b ms h)

none_unread :
    (c u : String) (n : ℕ) (ms : List Message)
    → max_sequence (select (is_in c) ms) ≤ n
    → length (select (is_unread c u n) ms) ≡ 0
none_unread c u n [] h = refl
none_unread c u n (m ∷ ms) h = ground (arith, none_unread c u n ms)

last_seq-found :
    (c u : String) (d : Db) (p : ConversationParticipant)
    → select (is_member c u) d.participants ≡ p ∷ []
    → last_seq c u d ≡ p.last_read_sequence
last_seq-found c u d p one = ground arith

-- For a user with exactly one participant row, marking as read never raises the unread count.
pub mark_read_mono :
    (c u : String) (z : ℤ) (s : Session) (p : ConversationParticipant)
    → select (is_member c u) s.work.participants ≡ p ∷ []
    → unread_count c u (mark_read c u z s).1.work ≤ unread_count c u s.work
unfolding unread_count
mark_read_mono c u z s p one =
    let (_, position, same) = mark_read-max c u z s p one in
    rw (position, same, last_seq-found c u s.work p one)
      (length-is_unread_mono c u p.last_read_sequence (max p.last_read_sequence (to_column z))
        s.work.messages (omega arith))

-- For a user with exactly one participant row, nothing is unread once the position reaches the
-- conversation's highest number.
pub mark_read_clears :
    (c u : String) (z : ℤ) (s : Session) (p : ConversationParticipant)
    → select (is_member c u) s.work.participants ≡ p ∷ []
    → max_sequence (select (is_in c) s.work.messages) ≤ to_column z
    → unread_count c u (mark_read c u z s).1.work ≡ 0
unfolding unread_count
mark_read_clears c u z s p one h =
    let (_, position, same) = mark_read-max c u z s p one in
    rw (position, same)
      (none_unread c u (max p.last_read_sequence (to_column z)) s.work.messages (omega arith))
