-- ===== src/RateLimit/Window.antt =====
-- The limit over a run of requests.
use relationship_os.Base.{
  ℕ, ◌+◌, ◌≤◌, max, String, Bool, true, false, ◌≡◌, refl, Option, none, some, List, [], ◌∷◌, ◌++◌,
  arith, ltb, length, length-append, select-append, length-select-le, Bool-cases, inl, inr, All,
}
use relationship_os.Presence.{seconds}
use relationship_os.RateLimit.{Requests, recent, retry_after, is_rate_limited}

-- The oldest time that counts, where there is one, lies within the window.
abbrev FirstWaits : ℕ → ℕ → List ℕ → Type 0
FirstWaits now window [] = Unit
FirstWaits now window (first ∷ _) = (1 ≤ window → max 1 (retry_after now window first) ≤ window)

wait_bounds :
    (now window : ℕ) (times : List ℕ)
    → All (λ ts. ts ≤ now) times
    → FirstWaits now window (recent now window times)
wait_bounds now window [] past = tt
wait_bounds now window (x ∷ times) past = elim (Bool-cases (ltb now (x + seconds window))) [
  | inl e ↦ rw e (λ w. let p = past.0 in ground arith)
  | inr e ↦ rw e (wait_bounds now window times past.1)
]

-- With a window of at least a second and recorded times that are not in the future, the wait that
-- a limited request is told is at least a second, and no longer than the window.
pub is_rate_limited-wait :
    (now : ℕ) (key : String) (limit window : ℕ) (r : Requests) {wait : ℕ}
    → 1 ≤ window
    → All (λ ts. ts ≤ now) (r key)
    → (is_rate_limited now key limit window r).0 ≡ some (true, wait)
    → (1 ≤ wait) × (wait ≤ window)
unfolding is_rate_limited
is_rate_limited-wait now key limit window r {wait} pos past h =
    ground (arith, wait_bounds now window (r key) past)

-- The times that were let in, after one more answer.
abbrev record_answer : ℕ → Option (Bool × ℕ) → List ℕ → List ℕ
record_answer now (some (false, _)) h = h ++ (now ∷ [])
record_answer now (some (true, _)) h = h
record_answer now none h = h

-- Calls for one key at the given times, with the times that were let in, oldest first.
unfoldable pub admit : String → ℕ → ℕ → List ℕ → List ℕ × Requests → List ℕ × Requests
admit key limit window [] (h, r) = (h, r)
admit key limit window (now ∷ times) (h, r) =
    let (answer, r') = is_rate_limited now key limit window r in
    admit key limit window times (record_answer now answer h, r')

recent-recent :
    (t now window : ℕ) (h : List ℕ)
    → t ≤ now
    → recent now window (recent t window h) ≡ recent now window h
recent-recent t now window [] e = refl
recent-recent t now window (x ∷ h) e = ground (arith, recent-recent t now window h e)

-- The times that count at a moment are those that were let in within the window before it.
record IsTracked (key : String) (limit window t : ℕ) (h : List ℕ) (r : Requests) : Type 0 where
  tracked : r key ≡ recent t window h
  within : length (recent t window h) ≤ limit

recent_now : (now window : ℕ) → 1 ≤ window → recent now window (now ∷ []) ≡ now ∷ []
recent_now now window w = ground arith

step-IsTracked :
    (key : String) (limit window t now : ℕ) (h : List ℕ) (r : Requests)
    → t ≤ now
    → 1 ≤ window
    → IsTracked key limit window t h r
    → let (answer, r') = is_rate_limited now key limit window r in
      IsTracked key limit window now (record_answer now answer h) r'
unfolding is_rate_limited
step-IsTracked key limit window t now h r later wide inv = ground (
  arith,
  recent-recent t now window h later,
  length-select-le (λ ts. ltb now (ts + seconds window)) (recent t window h),
  select-append (λ ts. ltb now (ts + seconds window)) h (now ∷ []),
  recent_now now window wide,
  length-append (recent now window h) (now ∷ []),
)

-- The times do not go back from a given moment on.
pub data Follows : ℕ → List ℕ → Type 0 where
  done : {t : ℕ} → Follows t []
  next : {t now : ℕ} {times : List ℕ} → t ≤ now → Follows now times → Follows t (now ∷ times)

abbrev pub last_of : ℕ → List ℕ → ℕ
last_of t [] = t
last_of t (now ∷ times) = last_of now times

admit-IsTracked :
    (key : String) (limit window t : ℕ) (times : List ℕ) (h : List ℕ) (r : Requests)
    → Follows t times
    → 1 ≤ window
    → IsTracked key limit window t h r
    → let (h', r') = admit key limit window times (h, r) in
      IsTracked key limit window (last_of t times) h' r'
unfolding admit
admit-IsTracked key limit window t [] h r done wide inv = inv
admit-IsTracked key limit window t (now ∷ times) h r (next later follows) wide inv =
    let (answer, r') = is_rate_limited now key limit window r in
    admit-IsTracked key limit window now times (record_answer now answer h) r' follows wide
      (step-IsTracked key limit window t now h r later wide inv)

-- With a window of at least a second, however often a key asks, at times that do not go back and
-- starting from an empty table, the requests let in during the window that ends with the last of
-- them are at most the limit.
pub admit-within :
    (key : String) (limit window : ℕ) (times : List ℕ)
    → Follows 0 times
    → 1 ≤ window
    → length (recent (last_of 0 times) window (admit key limit window times ([], λ _. [])).0)
      ≤ limit
admit-within key limit window times follows wide =
    (admit-IsTracked key limit window 0 times [] (λ _. []) follows wide
      (record { tracked = refl; within = ground arith })).within
