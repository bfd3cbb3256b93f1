-- ===== src/Admin/Integrity/Decides.antt =====
-- What the integrity check finds.
use relationship_os.Base.{
  ℕ, zero, suc, ◌+◌, String, Bool, true, false, not, ◌≡◌, refl, sym, ap, ◌∙◌, ◌↔◌, List, [], ◌∷◌,
  ◌++◌, map, arith, ◌==◌, eq_of_test, eqb, length, select, exists_row, Bool-cases, inl, inr,
}
use relationship_os.Base.Sorting.{sort_by, sort_by_sorted, length-sort_by}
use relationship_os.Db.Rows.{Db, Message}
use relationship_os.Message.Send.{is_in}
use relationship_os.Message.Send.Sequence.{IsGapless, IsWellNumbered}
use relationship_os.Message.History.{ascending}
use relationship_os.Message.History.Replay.{run, run-IsSorted, one_to-eq-run}
use relationship_os.Shared.Event.{CanonicalMessageEvent}
use relationship_os.Shared.Config.{Settings}
use relationship_os.Auth.Token.{Jwt}
use relationship_os.WebSocket.{World}
use relationship_os.WebSocket.Loop.{Incoming, receive_all}
use relationship_os.WebSocket.Numbering.{receive_all-IsWellNumbered}
use relationship_os.Admin.Integrity.{
  conversation_ids, find_anomalies, sorted_numbers, anomalies_of, integrity_report,
}

find_anomalies-run : (c : String) (e l : ℕ) → find_anomalies c e (run e l) ≡ []
find_anomalies-run c e zero = refl
find_anomalies-run c e (suc l) =
    let rest : find_anomalies c (e + 1) (run (suc e) l) ≡ [] =
      ap (λ k. find_anomalies c k (run (suc e) l)) (omega arith) ∙ find_anomalies-run c (suc e) l in
    ground (arith, rest)

run-find_anomalies :
    (c : String) (e : ℕ) (xs : List ℕ) → find_anomalies c e xs ≡ [] → xs ≡ run e (length xs)
run-find_anomalies c e [] h = refl
run-find_anomalies c e (x ∷ xs) h = elim (Bool-cases (eqb x e)) [
  | inl f ↦
      let same : x ≡ e = ground (arith, f) in
      let rest = run-find_anomalies c (e + 1) xs (ground (arith, f, h)) in
      ap (λ y. y ∷ xs) same ∙ ap (λ ys. e ∷ ys) (rest ∙ ap (λ k. run k (length xs)) (omega arith))
  | inr f ↦ absurd (ground (arith, f, h))
]

append-nil_both : {A : Type 0} (xs ys : List A) → xs ++ ys ≡ [] → (xs ≡ []) × (ys ≡ [])
append-nil_both [] ys h = (refl, h)
append-nil_both (x ∷ xs) ys h = absurd cc

-- `cid in conv_ids`
abbrev has_id : String → List String → Bool
has_id c = exists_row (λ x. x == c)

has_id-select :
    (c m : String) (cs : List String)
    → (m == c) ≡ false
    → has_id c cs ≡ true
    → has_id c (select (λ x. not (x == m)) cs) ≡ true
has_id-select c m [] ne h = h
has_id-select c m (x ∷ cs) ne h =
    ground (arith, has_id-select c m cs ne, eq_of_test x c, eq_of_test x m)

has_id-conversation_ids :
    (c : String) (ms : List Message)
    → exists_row (is_in c) ms ≡ true
    → has_id c (conversation_ids ms) ≡ true
has_id-conversation_ids c [] h = h
has_id-conversation_ids c (m ∷ ms) h = elim (Bool-cases (m.conversation_id == c)) [
  | inl e ↦ ground (arith, e)
  | inr e ↦ ground (
    arith,
    e,
    h,
    has_id-select c m.conversation_id (conversation_ids ms) e,
    has_id-conversation_ids c ms,
  )
]

anomalies_of-nil :
    (d : Db) (c : String) (cs : List String)
    → anomalies_of d cs ≡ []
    → has_id c cs ≡ true
    → find_anomalies c 1 (sorted_numbers c d) ≡ []
anomalies_of-nil d c [] h k = absurd cc
anomalies_of-nil d c (x ∷ cs) h k =
    let (here, rest) =
      append-nil_both (find_anomalies x 1 (sorted_numbers x d)) (anomalies_of d cs) h in
    elim (Bool-cases (x == c)) [
      | inl e ↦ sym (ap (λ i. find_anomalies i 1 (sorted_numbers i d)) (eq_of_test x c e)) ∙ here
      | inr e ↦ anomalies_of-nil d c cs rest (ground (arith, e, k))
    ]

nil-anomalies_of :
    (d : Db) (cs : List String)
    → ((c : String) → find_anomalies c 1 (sorted_numbers c d) ≡ [])
    → anomalies_of d cs ≡ []
nil-anomalies_of d [] h = refl
nil-anomalies_of d (c ∷ cs) h = rw (h c) (nil-anomalies_of d cs h)

select-none :
    (c : String) (ms : List Message) → exists_row (is_in c) ms ≡ false → select (is_in c) ms ≡ []
select-none c [] h = refl
select-none c (m ∷ ms) h = ground (arith, select-none c ms)

length-map : {A B : Type 0} (f : A → B) (xs : List A) → length (map f xs) ≡ length xs
length-map f [] = refl
length-map f (x ∷ xs) = ap suc (length-map f xs)

sorted_numbers-length :
    (c : String) (d : Db) → length (sorted_numbers c d) ≡ length (select (is_in c) d.messages)
sorted_numbers-length c d =
    length-map (λ m. m.sequence_number) (sort_by ascending (select (is_in c) d.messages))
    ∙ length-sort_by ascending (select (is_in c) d.messages)

-- A conversation without messages has no numbers.
sorted_numbers-none :
    (c : String) (d : Db) → exists_row (is_in c) d.messages ≡ false → sorted_numbers c d ≡ []
unfolding sort_by
sorted_numbers-none c d h =
    ap (λ ms. map (λ m. m.sequence_number) (sort_by ascending ms)) (select-none c d.messages h)

-- The check reports no anomaly of the numbering exactly if the messages of every conversation, in
-- the order of their numbers, are numbered 1, 2, …, n.
pub integrity_report-decides :
    (now : ℕ) (d : Db)
    → ((integrity_report now d).sequence_anomalies ≡ []) ↔ (
        (c : String)
        → map (λ m. m.sequence_number) (sort_by ascending (select (is_in c) d.messages))
          ≡ run 1 (length (select (is_in c) d.messages)))
unfolding integrity_report
integrity_report-decides now d = (
  λ h c. elim (Bool-cases (exists_row (is_in c) d.messages)) [
    | inl some_message ↦
        run-find_anomalies c 1 (sorted_numbers c d) (
          anomalies_of-nil d c (conversation_ids d.messages) h
            (has_id-conversation_ids c d.messages some_message))
        ∙ ap (run 1) (sorted_numbers-length c d)
    | inr no_message ↦
        sorted_numbers-none c d no_message
        ∙ sym (ap (λ ms. run 1 (length ms)) (select-none c d.messages no_message))
  ],
  λ h. nil-anomalies_of d (conversation_ids d.messages) (λ c.
      ap (find_anomalies c 1) (h c)
      ∙ find_anomalies-run c 1 (length (select (is_in c) d.messages))),
)

gapless-numbers :
    (c : String) (d : Db)
    → IsGapless d.messages
    → sorted_numbers c d ≡ run 1 (length (select (is_in c) d.messages))
gapless-numbers c d g =
    let numbered = g c ∙ one_to-eq-run (length (select (is_in c) d.messages)) in
    ap (map (λ m. m.sequence_number)) (
      sort_by_sorted ascending (select (is_in c) d.messages)
        (run-IsSorted 1 (select (is_in c) d.messages) numbered))
    ∙ numbered

-- Whatever arrived at the sockets, in whatever order: from a database that is well numbered, the
-- check of the database they leave reports no anomaly of the numbering.
pub integrity_report-receive_all :
    (jwt : Jwt) (dump : CanonicalMessageEvent → String) (cfg : Settings) (now : ℕ)
    (xs : List (ℕ × Incoming)) (w : World)
    → IsWellNumbered w.db.messages
    → (integrity_report now (receive_all jwt dump cfg xs w).db).sequence_anomalies ≡ []
integrity_report-receive_all jwt dump cfg now xs w well =
    (integrity_report-decides now (receive_all jwt dump cfg xs w).db).1 (λ c.
      gapless-numbers c (receive_all jwt dump cfg xs w).db
        (receive_all-IsWellNumbered dump cfg jwt xs w well).gapless)
