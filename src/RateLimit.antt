-- ===== src/RateLimit.antt =====
-- `InMemoryRateLimiter` of apps/api/src/core/middleware.py. `now` is the clock's reading in
-- microseconds; `ts > now - window` is written `now < ts + window`, since the numbers have no sign.
pub mod Window
use relationship_os.Base.{
  ℕ, ◌+◌, ◌-◌, ◌/◌, max, String, Bool, true, false, Option, none, some, List, [], ◌∷◌, ◌++◌, ◌==◌,
  ltb, leb, length, select, if◌then◌else◌,
}
use relationship_os.Presence.{seconds}

-- The `defaultdict(list)`: the times that count for each key.
abbrev pub Requests : Type 0
Requests = String → List ℕ

abbrev pub put : String → List ℕ → Requests → Requests
put key times r k = if k == key then times else r k

abbrev pub recent : ℕ → ℕ → List ℕ → List ℕ
recent now window = select (λ ts. ltb now (ts + seconds window))

-- `int(window - (now - first))`
abbrev pub retry_after : ℕ → ℕ → ℕ → ℕ
retry_after now window first = (seconds window + first - now) / 1000000

-- Whether the request is limited, and the seconds to wait. Without a request in the window a limit of
-- 0 is an `IndexError`: `none`.
unfoldable pub is_rate_limited : ℕ → String → ℕ → ℕ → Requests → Option (Bool × ℕ) × Requests
is_rate_limited now key max_requests window r =
    let kept = recent now window (r key) in
    if leb max_requests (length kept)
    then (
      elim kept [ [] ↦ none | first ∷ _ ↦ some (true, max 1 (retry_after now window first)) ],
      put key kept r,
    )
    else (some (false, 0), put key (kept ++ (now ∷ [])) r)
