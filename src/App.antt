-- ===== src/App.antt =====
-- The application of apps/api/src/main.py: its routes, its exception handlers (core/exceptions.py), and
-- the order of its wrappers. Starlette runs the wrapper that is added last first, the handlers of
-- exceptions inside all of them, and the handler of `Exception` outside. The routers are the
-- parameter `api`, CORSMiddleware the parameter `Cors`; the static files are left out.
pub mod Secured
use relationship_os.Base.{
  ℕ, String, Bool, true, false, ◌&&◌, ◌||◌, Option, none, some, List, [], ◌∷◌, ◌++◌, ◌==◌, eqb,
  contains, if◌then◌else◌,
}
use relationship_os.Shared.Constants.{ErrorCode}
use relationship_os.Shared.Errors.{Error, app_exception}
use relationship_os.Shared.Config.{Settings}
use relationship_os.Auth.Account.{or_text}
use relationship_os.RateLimit.{Requests}
use relationship_os.Integrations.Text.{starts_with}
use relationship_os.Middleware.{
  HttpRequest, HttpResponse, security_headers, Gate, passed, raised, refused, limit_login,
}

-- What an endpoint raises: an exception of a service, `HTTPException` with its status, or
-- `RequestValidationError`.
pub data Raised : Type 0 where
  service : Error → Raised
  http_exception : ℕ → Raised
  validation_error : Raised

pub data Answer : Type 0 where
  answered : HttpResponse → Answer
  failed : Raised → Answer

-- A response, and the code in its body if it is an error's.
pub record Response : Type 0 where
  pub response : HttpResponse
  pub code : Option ErrorCode

-- `JSONResponse` of an error
abbrev pub error_reply : ErrorCode → ℕ → Response
error_reply code status = record {
  response = record { status = status; headers = ("content-type", "application/json") ∷ [] };
  code = some code;
}

-- The handlers that `main.py` registers; `none` for what only the last of them takes.
abbrev pub handle : Raised → Option Response
handle (service (app_exception code status)) = some (error_reply code status)
handle (service _) = none
handle (http_exception status) =
    some (
      error_reply (if eqb status 404 then ErrorCode.not_found else ErrorCode.invalid_request)
        status)
handle validation_error = some (error_reply ErrorCode.invalid_request 422)

abbrev pub unhandled : Response
unhandled = error_reply ErrorCode.internal_error 500

abbrev pub append_headers : List (String × String) → Response → Response
append_headers headers reply = record reply {
  response = record reply.response { headers = reply.response.headers ++ headers };
}

abbrev pub secure : Settings → String → Response → Response
secure cfg request_id reply = append_headers (security_headers cfg request_id) reply

-- The answer of the routes as it leaves the wrappers, of which the outermost appends the headers
-- `added`. An exception that no handler takes passes through them.
abbrev pub inner : Settings → String → List (String × String) → Answer → Response
inner cfg request_id added (answered response) =
    append_headers added (secure cfg request_id (record { response = response; code = none }))
inner cfg request_id added (failed x) = elim (handle x) [
  | some reply ↦ append_headers added (secure cfg request_id reply)
  | none ↦ unhandled
]

-- `docs_url` with the redirect page that FastAPI adds to it, `redoc_url` and `openapi_url`
abbrev pub docs_urls : Settings → List String
docs_urls cfg =
    if cfg.environment == "production"
    then []
    else "/docs" ∷ "/docs/oauth2-redirect" ∷ "/redoc" ∷ "/openapi.json" ∷ []

abbrev strip_slash : String → String
strip_slash String.[] = ""
strip_slash (String.◌∷◌ c path) = path

-- `index` is the page if it is built, and the JSON text if it is not.
unfoldable pub serve_spa : HttpResponse → String → Answer
unfolding starts_with
serve_spa index full_path =
    if starts_with "api/" full_path
      || starts_with "docs" full_path
      || starts_with "openapi" full_path
    then failed (http_exception 404)
    else answered index

-- The documentation, the routers, and the page of the web client for every other path.
unfoldable pub route :
    Settings → HttpResponse → HttpResponse → (HttpRequest → Option Answer) → HttpRequest → Answer
unfolding serve_spa
route cfg docs index api r =
    if contains (docs_urls cfg) r.path && (r.method == "GET" || r.method == "HEAD")
    then answered docs
    else elim (api r) [
      | some answer ↦ answer
      | none ↦
          if r.method == "GET"
          then serve_spa index (strip_slash r.path)
          else failed (http_exception 405)
    ]

-- What the code relies on of Starlette's CORSMiddleware: the answer to a preflight, which it makes
-- itself, and the headers that it appends to the other responses.
pub record Cors : Type 0 where
  pub preflight : HttpRequest → Option Response
  pub added : HttpRequest → List (String × String)

-- A request below the wrapper for CORS, with the responses that come back through it.
abbrev pub limited :
    (ℕ → String)
    → Settings
    → Cors
    → ℕ
    → String
    → (HttpRequest → Answer)
    → HttpRequest
    → Requests
    → Response × Requests
limited str cfg cors now drawn routes r requests =
    let (gate, requests') = limit_login str cfg now r requests in
    elim gate [
      | passed ↦ (inner cfg (or_text r.request_id drawn) (cors.added r) (routes r), requests')
      | refused response ↦ (
        append_headers (cors.added r)
            (record { response = response; code = some ErrorCode.rate_limited }),
        requests',
      )
      | raised ↦ (unhandled, requests')
    ]

-- A request from the outside: the wrapper for CORS comes first, then the limit of the logins, then
-- the headers, then the routes. `drawn` is the identifier of a request that brings none.
unfoldable pub respond :
    (ℕ → String)
    → Settings
    → Cors
    → ℕ
    → String
    → (HttpRequest → Answer)
    → HttpRequest
    → Requests
    → Response × Requests
respond str cfg cors now drawn routes r requests = elim (cors.preflight r) [
  | some reply ↦ (reply, requests)
  | none ↦ limited str cfg cors now drawn routes r requests
]
