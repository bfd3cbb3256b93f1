-- ===== src/Cli/Messages.antt =====
-- The messages that the terminal shows.
use relationship_os.Base.{
  String, Bool, true, false, ◌||◌, ◌≡◌, refl, ap, List, [], ◌∷◌, ◌++◌, arith, eq_refl, exists_row,
  Bool-cases, inl, inr, if◌then◌else◌,
}
use relationship_os.Cli.{ChatMessage, App, has_id, add_missing, on_replay}

-- No message is shown twice.
abbrev pub HasNoRepeats : List ChatMessage → Type 0
HasNoRepeats [] = Unit
HasNoRepeats (m ∷ ms) = (exists_row (has_id m.id) ms ≡ false) × HasNoRepeats ms

exists-append :
    (p : ChatMessage → Bool) (xs : List ChatMessage) (m : ChatMessage)
    → exists_row p (xs ++ (m ∷ [])) ≡ (exists_row p xs || p m)
exists-append p [] m = ground arith
exists-append p (x ∷ xs) m = ground (arith, exists-append p xs m)

add-kept :
    (id : String) (ms shown : List ChatMessage)
    → exists_row (has_id id) shown ≡ true
    → exists_row (has_id id) (add_missing ms shown) ≡ true
add-kept id [] shown h = h
add-kept id (m ∷ ms) shown h = elim (Bool-cases (exists_row (has_id m.id) shown)) [
  | inl e ↦ rw e (add-kept id ms shown h)
  | inr e ↦
      rw e
        (add-kept id ms (shown ++ (m ∷ [])) (ground (arith, exists-append (has_id id) shown m, h)))
]

-- Whether all these are shown.
abbrev are_shown : List ChatMessage → List ChatMessage → Bool
are_shown [] shown = true
are_shown (m ∷ ms) shown = if exists_row (has_id m.id) shown then are_shown ms shown else false

add-none : (ms shown : List ChatMessage) → are_shown ms shown ≡ true → add_missing ms shown ≡ shown
add-none [] shown h = refl
add-none (m ∷ ms) shown h = elim (Bool-cases (exists_row (has_id m.id) shown)) [
  | inl e ↦ rw e (add-none ms shown (ground (arith, e, h)))
  | inr e ↦ absurd (ground (arith, e, h))
]

add-shown : (ms shown : List ChatMessage) → are_shown ms (add_missing ms shown) ≡ true
add-shown [] shown = refl
add-shown (m ∷ ms) shown = elim (Bool-cases (exists_row (has_id m.id) shown)) [
  | inl e ↦ rw (e, add-kept m.id ms shown e) (add-shown ms shown)
  | inr e ↦
      rw
        (
          e,
          add-kept m.id ms (shown ++ (m ∷ []))
              (ground (arith, exists-append (has_id m.id) shown m, eq_refl m.id)),
        )
        (add-shown ms (shown ++ (m ∷ [])))
]

same_id : (m x : ChatMessage) → has_id m.id x ≡ false → has_id x.id m ≡ false
same_id m x h = ground arith

append-HasNoRepeats :
    (shown : List ChatMessage) (m : ChatMessage)
    → exists_row (has_id m.id) shown ≡ false
    → HasNoRepeats shown
    → HasNoRepeats (shown ++ (m ∷ []))
append-HasNoRepeats [] m h k = (refl, tt)
append-HasNoRepeats (x ∷ shown) m h k = (
  ground (arith, exists-append (has_id x.id) shown m, same_id m x (ground (arith, h)), k.0),
  append-HasNoRepeats shown m (ground (arith, h)) k.1,
)

add_missing-HasNoRepeats :
    (ms shown : List ChatMessage) → HasNoRepeats shown → HasNoRepeats (add_missing ms shown)
add_missing-HasNoRepeats [] shown k = k
add_missing-HasNoRepeats (m ∷ ms) shown k = elim (Bool-cases (exists_row (has_id m.id) shown)) [
  | inl e ↦ rw e (add_missing-HasNoRepeats ms shown k)
  | inr e ↦ rw e (add_missing-HasNoRepeats ms (shown ++ (m ∷ [])) (append-HasNoRepeats shown m e k))
]

-- If no message is shown twice, then none is after a replay either; and the same replay once more
-- changes nothing.
pub on_replay-HasNoRepeats :
    (ms : List ChatMessage) (app : App)
    → HasNoRepeats app.messages
    → HasNoRepeats (on_replay ms app).messages
      × (on_replay ms (on_replay ms app) ≡ on_replay ms app)
unfolding on_replay
on_replay-HasNoRepeats ms app k = (
  add_missing-HasNoRepeats ms app.messages k,
  ap (λ shown. record app { messages = shown })
      (add-none ms (add_missing ms app.messages) (add-shown ms app.messages)),
)
