-- ===== src/Middleware.antt =====
-- The two ASGI wrappers of apps/api/src/core/middleware.py: the headers of every response, and the
-- limit of the logins. `f` is the application below; the access log is left out.
pub mod Limit
use relationship_os.Base.{
  ℕ, String, ◌<>◌, Bool, true, false, ◌&&◌, Option, none, some, List, [], ◌∷◌, ◌++◌, ◌==◌,
  if◌then◌else◌,
}
use relationship_os.Shared.Config.{Settings}
use relationship_os.RateLimit.{Requests, is_rate_limited}
use relationship_os.Auth.Account.{is_empty, or_text}
use relationship_os.Integrations.Text.{starts_with}

-- `request_id` is the header of the request, empty if there is none; `client` its address.
pub record HttpRequest : Type 0 where
  pub path : String
  pub method : String
  pub client : Option String
  pub request_id : String

pub record HttpResponse : Type 0 where
  pub status : ℕ
  pub headers : List (String × String)

-- `drawn` is the identifier that is drawn if the request has none.
abbrev pub security_headers : Settings → String → List (String × String)
security_headers cfg request_id =
    ("x-request-id", request_id)
    ∷ ("x-content-type-options", "nosniff")
    ∷ ("x-frame-options", "DENY")
    ∷ ("referrer-policy", "strict-origin-when-cross-origin")
    ∷ ("permissions-policy", "camera=(), microphone=(), geolocation=()")
    ∷ ("content-security-policy", "default-src 'self'; frame-ancestors 'none';")
    ∷ (if cfg.environment == "production"
        then ("strict-transport-security", "max-age=31536000; includeSubDomains") ∷ []
        else [])

unfoldable pub with_security_headers :
    Settings → String → (HttpRequest → HttpResponse) → HttpRequest → HttpResponse
with_security_headers cfg drawn f r =
    let response = f r in
    record response {
      headers = response.headers ++ security_headers cfg (or_text r.request_id drawn);
    }

abbrev pub client_ip : HttpRequest → String
client_ip r = elim r.client [ none ↦ "unknown" | some ip ↦ ip ]

unfoldable pub is_login : HttpRequest → Bool
unfolding starts_with
is_login r = starts_with "/api/v1/auth/login" r.path && r.method == "POST"

-- What the wrapper makes of a request: it passes it on, answers it, or raises.
pub data Gate : Type 0 where
  passed raised : Gate
  refused : HttpResponse → Gate

abbrev pub too_many : (ℕ → String) → ℕ → HttpResponse
too_many str retry_after = record {
  status = 429;
  headers = ("content-type", "application/json") ∷ ("retry-after", str retry_after) ∷ [];
}

-- `str` is the decimal numeral.
unfoldable pub limit_login : (ℕ → String) → Settings → ℕ → HttpRequest → Requests → Gate × Requests
unfolding is_login is_rate_limited
limit_login str cfg now r requests =
    if is_login r
    then (let (answer, requests') =
          is_rate_limited now ("login:" <> client_ip r) cfg.rate_limit_login_per_minute 60
            requests in
        elim answer [
          | none ↦ (raised, requests')
          | some (limited, retry_after) ↦
              ((if limited then refused (too_many str retry_after) else passed), requests')
        ])
    else (passed, requests)
