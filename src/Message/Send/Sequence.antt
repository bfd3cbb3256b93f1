-- ===== src/Message/Send/Sequence.antt =====
-- The sequence numbers of a conversation, and the uniqueness of its messages.
use relationship_os.Base.{
  ℕ, zero, suc, ◌+◌, ◌≤◌, max, String, true, false, ◌≡◌, refl, ap, ◌∙◌, List, [], ◌∷◌, ◌++◌, map,
  arith, ◌==◌, eq_of_test, Bool-cases, inl, inr, length, select, exists_row, if◌then◌else◌,
}
use mathlib.Core.Path.{subst}
use relationship_os.Db.Rows.{Message}
use relationship_os.Message.Send.{
  SendRequest, is_in, is_client_message, max_sequence, new_message, clashes,
}

-- 1, 2, …, n
abbrev pub one_to : ℕ → List ℕ
one_to zero = []
one_to (suc n) = one_to n ++ (suc n ∷ [])

abbrev pub numbers : String → List Message → List ℕ
numbers c ms = map (λ m. m.sequence_number) (select (is_in c) ms)

-- The messages of every conversation, in the order of their insertion, are numbered from 1
-- without a gap.
abbrev pub IsGapless : List Message → Type 0
IsGapless ms = (c : String) → numbers c ms ≡ one_to (length (select (is_in c) ms))

-- No two messages share their key, a client identifier or a number within their conversation.
abbrev pub HasNoClash : List Message → Type 0
HasNoClash [] = Unit
HasNoClash (m ∷ ms) = (exists_row (clashes m) ms ≡ false) × HasNoClash ms

pub record IsWellNumbered (ms : List Message) : Type 0 where
  pub gapless : IsGapless ms
  pub no_clash : HasNoClash ms

max_list : List ℕ → ℕ
max_list [] = 0
max_list (x ∷ xs) = max x (max_list xs)

max_sequence-eq : (ms : List Message) → max_sequence ms ≡ max_list (map (λ m. m.sequence_number) ms)
unfolding max_list
max_sequence-eq [] = refl
max_sequence-eq (m ∷ ms) = omega (arith, max_sequence-eq ms)

max_list-append : (xs : List ℕ) (y : ℕ) → max_list (xs ++ (y ∷ [])) ≡ max (max_list xs) y
unfolding max_list
max_list-append [] y = omega arith
max_list-append (x ∷ xs) y = omega (arith, max_list-append xs y)

max_list-one_to : (n : ℕ) → max_list (one_to n) ≡ n
unfolding max_list
max_list-one_to zero = refl
max_list-one_to (suc n) = omega (arith, max_list-append (one_to n) (suc n), max_list-one_to n)

-- In a gapless conversation the highest number is the number of messages.
pub max_sequence-gapless :
    (ms : List Message) (c : String)
    → IsGapless ms
    → max_sequence (select (is_in c) ms) ≡ length (select (is_in c) ms)
max_sequence-gapless ms c g =
    max_sequence-eq (select (is_in c) ms) ∙ ap max_list (g c) ∙ max_list-one_to _

numbers-append :
    (c : String) (ms : List Message) (m : Message)
    → numbers c (ms ++ (m ∷ []))
      ≡ (if is_in c m then numbers c ms ++ (m.sequence_number ∷ []) else numbers c ms)
numbers-append c [] m = ground arith
numbers-append c (n ∷ ms) m = ground (arith, numbers-append c ms m)

pub length-select-append :
    (c : String) (ms : List Message) (m : Message)
    → length (select (is_in c) (ms ++ (m ∷ [])))
      ≡ (if is_in c m then suc (length (select (is_in c) ms)) else length (select (is_in c) ms))
length-select-append c [] m = ground arith
length-select-append c (n ∷ ms) m = ground (arith, length-select-append c ms m)

append_same :
    (ms : List Message) (m : Message)
    → IsGapless ms
    → m.sequence_number ≡ max_sequence (select (is_in m.conversation_id) ms) + 1
    → numbers m.conversation_id ms ++ (m.sequence_number ∷ [])
      ≡ one_to (suc (length (select (is_in m.conversation_id) ms)))
append_same ms m g e = rw (g m.conversation_id) (
    ap (λ k. one_to (length (select (is_in m.conversation_id) ms)) ++ (k ∷ []))
      (omega (arith, e, max_sequence-gapless ms m.conversation_id g)))

-- A message with the next number keeps its conversation gapless, and touches no other.
pub append-IsGapless :
    (ms : List Message) (m : Message)
    → IsGapless ms
    → m.sequence_number ≡ max_sequence (select (is_in m.conversation_id) ms) + 1
    → IsGapless (ms ++ (m ∷ []))
append-IsGapless ms m g e c = elim (Bool-cases (is_in c m)) [
  | inl h ↦
      let same : m.conversation_id ≡ c = eq_of_test _ _ h in
      rw (numbers-append, length-select-append, h)
        (subst
          (λ x.
            numbers x ms ++ (m.sequence_number ∷ []) ≡ one_to (suc (length (select (is_in x) ms))))
          same (append_same ms m g e))
  | inr h ↦ rw (numbers-append, length-select-append, h) (g c)
]

clashes_symm : (m n : Message) → clashes m n ≡ false → clashes n m ≡ false
clashes_symm m n h = ground arith

exists-append :
    (n : Message) (ms : List Message) (m : Message)
    → exists_row (clashes n) ms ≡ false
    → clashes n m ≡ false
    → exists_row (clashes n) (ms ++ (m ∷ [])) ≡ false
exists-append n [] m h e = ground arith
exists-append n (x ∷ ms) m h e = ground (arith, exists-append n ms m)

pub append-HasNoClash :
    (ms : List Message) (m : Message)
    → HasNoClash ms
    → exists_row (clashes m) ms ≡ false
    → HasNoClash (ms ++ (m ∷ []))
append-HasNoClash [] m h e = (refl, tt)
append-HasNoClash (n ∷ ms) m h e = (
  exists-append n ms m h.0 (clashes_symm m n (ground arith)),
  append-HasNoClash ms m h.1 (ground arith),
)

select-client-clash :
    (m : Message) (c k : String) (ms : List Message)
    → is_client_message c k m ≡ true
    → exists_row (clashes m) ms ≡ false
    → select (is_client_message c k) ms ≡ []
select-client-clash m c k [] h e = refl
select-client-clash m c k (n ∷ ms) h e = ground (arith, select-client-clash m c k ms)

-- The lookup by client identifier finds at most one row.
pub select-client_unique :
    (c k : String) (ms : List Message)
    → HasNoClash ms
    → length (select (is_client_message c k) ms) ≤ 1
select-client_unique c k [] h = omega arith
select-client_unique c k (m ∷ ms) h =
    ground (arith, select-client_unique c k ms h.1, select-client-clash m c k ms)

-- A message with a new key, a new client identifier and the next number clashes with none.
pub exists-clashes-next :
    (r : SendRequest) (k : ℕ) (ms : List Message)
    → exists_row (λ n. n.id == r.message_id) ms ≡ false
    → select (is_client_message r.conversation_id r.client_message_id) ms ≡ []
    → max_sequence (select (is_in r.conversation_id) ms) ≤ k
    → exists_row (clashes (new_message r (k + 1))) ms ≡ false
exists-clashes-next r k [] h e b = refl
exists-clashes-next r k (m ∷ ms) h e b = ground (arith, exists-clashes-next r k ms)
