-- ===== src/Sdk/Seen.antt =====
-- What a client has seen, and what its callbacks were given.
use relationship_os.Base.{
  ℕ, zero, suc, ◌+◌, max, ◌≡◌, refl, sym, ap, ◌∙◌, List, [], ◌∷◌, ◌++◌, map, arith, ltb,
  append_assoc, Bool-cases, inl, inr,
}
use relationship_os.Db.Rows.{Message}
use relationship_os.Message.History.Replay.{run, run_cong}
use relationship_os.WebSocket.Replay.{head_eq, tail_eq}
use relationship_os.Sdk.{
  Client, Call, on_message, on_replay, on_presence, on_status_change, see, see_all,
}

-- The last known number is the highest that was seen.
abbrev pub highest : ℕ → List Message → ℕ
highest k [] = k
highest k (m ∷ ms) = highest (max k m.sequence_number) ms

see-max :
    (m : Message) (cl : Client)
    → see m cl ≡ record cl { last_known_sequence = max cl.last_known_sequence m.sequence_number }
see-max m cl = elim (Bool-cases (ltb cl.last_known_sequence m.sequence_number)) [
  | inl e ↦ rw e (ap (λ n. record cl { last_known_sequence = n }) (ground arith))
  | inr e ↦ rw e (ap (λ n. record cl { last_known_sequence = n }) (ground arith))
]

pub see_all-highest :
    (ms : List Message) (cl : Client)
    → see_all ms cl ≡ record cl { last_known_sequence = highest cl.last_known_sequence ms }
see_all-highest [] cl = refl
see_all-highest (m ∷ ms) cl = ap (see_all ms) (see-max m cl) ∙ see_all-highest ms _

pub highest-run :
    (k l : ℕ) (ms : List Message)
    → map (λ m. m.sequence_number) ms ≡ run (k + 1) l
    → highest k ms ≡ k + l
highest-run k zero [] h = omega arith
highest-run k zero (m ∷ ms) h = absurd cc
highest-run k (suc l) [] h = absurd cc
highest-run k (suc l) (m ∷ ms) h =
    let next : max k m.sequence_number ≡ suc k = omega (arith, head_eq m ms (k + 1) l h) in
    rw next (
      highest-run (suc k) l ms (tail_eq m ms (k + 1) l h ∙ ap (λ a. run a l) (omega arith))
      ∙ omega arith)

pub run-append : (a l l' : ℕ) → run a l ++ run (a + l) l' ≡ run a (l + l')
run-append a zero l' = run_cong (a + 0) a l' (0 + l') (omega arith) (omega arith)
run-append a (suc l) l' =
    ap (λ t. a ∷ t)
      (ap (λ t. run (suc a) l ++ t) (run_cong (a + suc l) (suc a + l) l' l' (omega arith) refl)
        ∙ run-append (suc a) l l')
    ∙ run_cong a a (suc (l + l')) (suc l + l') refl (omega arith)

pub map-append :
    {A B : Type 0} (f : A → B) (xs ys : List A) → map f (xs ++ ys) ≡ map f xs ++ map f ys
map-append f [] ys = refl
map-append f (x ∷ xs) ys = ap (λ t. f x ∷ t) (map-append f xs ys)

-- The messages that the callbacks were given.
abbrev pub handed : List Call → List Message
handed [] = []
handed (on_message m ∷ calls) = m ∷ handed calls
handed (on_replay c ms ∷ calls) = ms ++ handed calls
handed (_ ∷ calls) = handed calls

pub handed-append : (xs ys : List Call) → handed (xs ++ ys) ≡ handed xs ++ handed ys
handed-append [] ys = refl
handed-append (on_message m ∷ xs) ys = ap (λ t. m ∷ t) (handed-append xs ys)
handed-append (on_replay c ms ∷ xs) ys =
    ap (λ t. ms ++ t) (handed-append xs ys) ∙ sym (append_assoc ms (handed xs) (handed ys))
handed-append (on_presence u st ∷ xs) ys = handed-append xs ys
handed-append (on_status_change st ∷ xs) ys = handed-append xs ys
