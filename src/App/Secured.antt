-- ===== src/App/Secured.antt =====
-- Which responses carry the headers.
use relationship_os.Base.{
  ℕ, String, true, ◌≡◌, ◌⊎◌, inl, inr, refl, Bool-cases, Option-cases, ◌<>◌, some, [], ◌∷◌, ◌==◌,
  if◌then◌else◌, List, ◌++◌, arith,
}
use relationship_os.Shared.Constants.{ErrorCode}
use relationship_os.Shared.Config.{Settings}
use relationship_os.Auth.Account.{or_text}
use relationship_os.RateLimit.{Requests, is_rate_limited}
use relationship_os.Middleware.{
  HttpRequest, HttpResponse, passed, raised, refused, is_login, client_ip, limit_login, too_many,
}
use relationship_os.App.{Cors, limited, Answer, answered, failed, handle, unhandled, inner, respond}

-- The headers that a response is to carry, by their names.
abbrev expected_headers : Settings → String → List (String × String)
expected_headers cfg request_id =
    ("x-request-id", request_id)
    ∷ ("x-content-type-options", "nosniff")
    ∷ ("x-frame-options", "DENY")
    ∷ ("referrer-policy", "strict-origin-when-cross-origin")
    ∷ ("permissions-policy", "camera=(), microphone=(), geolocation=()")
    ∷ ("content-security-policy", "default-src 'self'; frame-ancestors 'none';")
    ∷ (if cfg.environment == "production"
        then ("strict-transport-security", "max-age=31536000; includeSubDomains") ∷ []
        else [])

-- The headers of a response are those of its own, these, and the ones that CORS appends.
abbrev pub IsSecured : Settings → String → List (String × String) → HttpResponse → Type 0
IsSecured cfg request_id added response =
    (own : List (String × String)) × (response.headers
      ≡ (own ++ expected_headers cfg request_id) ++ added)

inner-IsSecured :
    (cfg : Settings) (request_id : String) (added : List (String × String)) (a : Answer)
    → IsSecured cfg request_id added (inner cfg request_id added a).response
      ⊎ (inner cfg request_id added a ≡ unhandled)
inner-IsSecured cfg request_id added (answered response) = inl (response.headers, refl)
inner-IsSecured cfg request_id added (failed x) = elim (Option-cases (handle x)) [
  | inl none_handled ↦ inr (ground (arith, none_handled))
  | inr (reply, handled) ↦ inl (reply.response.headers, ground (arith, handled))
]

limit_login-cases :
    (str : ℕ → String) (cfg : Settings) (now : ℕ) (r : HttpRequest) (requests : Requests)
    → let gate = (limit_login str cfg now r requests).0 in
      ((gate ≡ passed) ⊎ (gate ≡ raised))
      ⊎ ((n : ℕ) × (gate ≡ refused (too_many str n)) × (is_login r ≡ true))
unfolding limit_login
limit_login-cases str cfg now r requests = elim (Bool-cases (is_login r)) [
  | inr other ↦ inl (inl (ground (arith, other)))
  | inl login ↦
      let key = "login:" <> client_ip r in
      elim (Option-cases (is_rate_limited now key cfg.rate_limit_login_per_minute 60 requests).0) [
        | inl e ↦ inl (inr (ground (arith, login, e)))
        | inr ((limited, n), e) ↦ elim (Bool-cases limited) [
          | inl h ↦ inr (n, ground (arith, login, e, h), login)
          | inr h ↦ inl (inl (ground (arith, login, e, h)))
        ]
      ]
]

-- Whatever the routes answer or raise, a response that CORSMiddleware does not make itself for a
-- preflight has its own headers, then the request's identifier and the five security headers, in
-- production with the one for HTTPS, and then what CORSMiddleware appends; but for two: the answer
-- 500 to an exception that no handler takes, and the answer 429 to a login that the limit refuses,
-- which has no header but the content type, the time to wait and what CORSMiddleware appends.
pub respond-IsSecured :
    (str : ℕ → String) (cfg : Settings) (cors : Cors) (now : ℕ) (drawn : String)
    (routes : HttpRequest → Answer) (r : HttpRequest) (requests : Requests)
    → let reply = (respond str cfg cors now drawn routes r requests).0 in
      (cors.preflight r ≡ some reply)
      ⊎ (IsSecured cfg (or_text r.request_id drawn) (cors.added r) reply.response
          ⊎ (reply ≡ unhandled))
      ⊎ ((n : ℕ) × (reply.response.headers ≡ (too_many str n).headers ++ cors.added r)
          × (reply.response.status ≡ 429)
          × (reply.code ≡ some ErrorCode.rate_limited)
          × (is_login r ≡ true))
unfolding respond
respond-IsSecured str cfg cors now drawn routes r requests =
    elim (Option-cases (cors.preflight r)) [
      | inr (reply, e) ↦ inl (ground (arith, e))
      | inl p ↦ inr (elim (limit_login-cases str cfg now r requests) [
        | inl (inl e) ↦ inl (
            rw (p, e, respond, limited)
              (inner-IsSecured cfg (or_text r.request_id drawn) (cors.added r) (routes r)))
        | inl (inr e) ↦ inl (inr (ground (arith, p, e)))
        | inr (n, e, login) ↦
            inr (n, ground (arith, p, e), ground (arith, p, e), ground (arith, p, e), login)
      ])
    ]
