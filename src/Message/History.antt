-- ===== src/Message/History.antt =====
-- `get_history` and `search_messages`: the pages of a conversation by sequence number.
pub mod Pages
pub mod Replay
use relationship_os.Base.{
  ℕ, String, Bool, true, false, ◌&&◌, Option, none, some, List, leb, take, select,
}
use relationship_os.Base.Int.{ℤ, lt_int, gt_int, clamp_limit}
use relationship_os.Base.Sorting.{sort_by}
use relationship_os.Db.Rows.{Message}
use relationship_os.Db.Session.{Action, query}
use relationship_os.Message.Send.{is_in}

-- `order_by(sequence_number.asc())` and `.desc()`
abbrev pub ascending : Message → Message → Bool
ascending m n = leb m.sequence_number n.sequence_number

abbrev pub descending : Message → Message → Bool
descending m n = leb n.sequence_number m.sequence_number

-- The rows of the query: those before the cursor, those after it, or the latest.
abbrev pub page : String → Option ℤ → Option ℤ → ℕ → List Message → List Message
page conversation_id (some before) _ limit ms = take limit (
    sort_by descending
      (select (λ m. lt_int m.sequence_number before) (select (is_in conversation_id) ms)))
page conversation_id none (some after) limit ms = take limit (
    sort_by ascending
      (select (λ m. gt_int m.sequence_number after) (select (is_in conversation_id) ms)))
page conversation_id none none limit ms =
    take limit (sort_by descending (select (is_in conversation_id) ms))

unfoldable pub history : String → Option ℤ → Option ℤ → ℤ → List Message → List Message
history conversation_id before_seq after_seq limit ms =
    sort_by ascending (page conversation_id before_seq after_seq (clamp_limit limit) ms)

unfoldable pub get_history : String → Option ℤ → Option ℤ → ℤ → Action (List Message)
get_history conversation_id before_seq after_seq limit =
    query (λ d. history conversation_id before_seq after_seq limit d.messages)

abbrev is_live : Option ℕ → Bool
is_live none = true
is_live (some _) = false

-- `body.ilike(pattern)` is the database's: the parameter `ilike`.
module _ (ilike : String → String → Bool) where
  unfoldable pub search_messages : String → String → ℤ → Action (List Message)
  search_messages conversation_id query_text limit = query (λ d. take (clamp_limit limit) (
      sort_by descending (
        select (λ m. is_in conversation_id m && ilike query_text m.body && is_live m.deleted_at)
          d.messages)))
