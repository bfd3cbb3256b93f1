-- ===== src/Admin/Integrity.antt =====
-- `verify_database_integrity` of routers/admin.py: the numbering of every conversation, and the
-- outbox events that hold a lock.
pub mod Decides
use relationship_os.Base.{
  ℕ, zero, suc, ◌+◌, String, Bool, true, false, ◌&&◌, not, ◌≡◌, refl, sym, ap, ◌∙◌, ◌↔◌, Option,
  none, some, List, [], ◌∷◌, ◌++◌, map, arith, ◌==◌, ltb, eqb, length, select, exists_row,
  Bool-cases, inl, inr, if◌then◌else◌,
}
use relationship_os.Base.Sorting.{sort_by}
use relationship_os.Db.Rows.{Db, Message, OutboxEvent, processing}
use relationship_os.Db.Session.{Action, ◌>>=◌, ◌>>◌, query}
use relationship_os.Message.Send.{is_in}
use relationship_os.Message.Send.Sequence.{IsGapless}
use relationship_os.Message.History.{ascending}
use relationship_os.Message.History.Replay.{run}
use relationship_os.Auth.Account.{Origin}
use relationship_os.Auth.Token.{Jwt, Credentials}
use relationship_os.Admin.{authorize}

-- `select(Message.conversation_id).distinct()`
abbrev pub conversation_ids : List Message → List String
conversation_ids [] = []
conversation_ids (m ∷ ms) =
    m.conversation_id ∷ select (λ c. not (c == m.conversation_id)) (conversation_ids ms)

-- A number that was found, and the one that was expected.
pub record Anomaly : Type 0 where
  pub conversation_id : String
  pub found : ℕ
  pub expected : ℕ

abbrev pub find_anomalies : String → ℕ → List ℕ → List Anomaly
find_anomalies cid expected [] = []
find_anomalies cid expected (seq ∷ seqs) =
    let rest = find_anomalies cid (expected + 1) seqs in
    if eqb seq expected
    then rest
    else record { conversation_id = cid; found = seq; expected = expected } ∷ rest

abbrev pub sorted_numbers : String → Db → List ℕ
sorted_numbers cid d =
    map (λ m. m.sequence_number) (sort_by ascending (select (is_in cid) d.messages))

abbrev pub anomalies_of : Db → List String → List Anomaly
anomalies_of d [] = []
anomalies_of d (cid ∷ cids) = find_anomalies cid 1 (sorted_numbers cid d) ++ anomalies_of d cids

-- A lock that was taken before now; a comparison with NULL is not true.
abbrev locked_before : ℕ → Option ℕ → Bool
locked_before now none = false
locked_before now (some t) = ltb t now

abbrev pub is_stuck : ℕ → OutboxEvent → Bool
is_stuck now e = elim e.status [ processing ↦ locked_before now e.locked_at | _ ↦ false ]

pub record IntegrityReport : Type 0 where
  pub is_clean : Bool
  pub sequence_anomalies : List Anomaly
  pub stuck_outbox_events : ℕ

abbrev is_nil : List Anomaly → Bool
is_nil [] = true
is_nil (a ∷ rest) = false

unfoldable pub integrity_report : ℕ → Db → IntegrityReport
unfolding sort_by
integrity_report now d =
    let anomalies = anomalies_of d (conversation_ids d.messages) in
    let stuck_count = length (select (is_stuck now) d.outbox) in
    record {
      is_clean = is_nil anomalies && eqb stuck_count 0;
      sequence_anomalies = anomalies;
      stuck_outbox_events = stuck_count;
    }

unfoldable pub verify_database_integrity : Jwt → Origin → Credentials → Action IntegrityReport
unfolding authorize integrity_report
verify_database_integrity jwt o credentials = do
  authorize jwt o credentials
  query (integrity_report o.now)
