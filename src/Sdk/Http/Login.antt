-- ===== src/Sdk/Http/Login.antt =====
-- A login by the client at the server: the body of the request as `LoginRequest` of routers/auth.py, the
-- route, the answer, and the header of the requests that follow.
use relationship_os.Base.{ℕ, String, Option, none, some, List, [], ◌∷◌, ◌&&◌, ◌==◌, if◌then◌else◌}
use relationship_os.Shared.Config.{Settings}
use relationship_os.Db.Rows.{User}
use relationship_os.Db.Session.{ok, err, Session}
use relationship_os.Auth.Account.{Crypto, Origin}
use relationship_os.Auth.Token.{Jwt, Auth}
use relationship_os.Auth.Routes.{TokenResponse, Draws, login, get_me}
use relationship_os.Sdk.Http.{
  Value, text, number, object, ClientRequest, Served, failed, answered, store,
}
use relationship_os.Sdk.Http as Http

-- The text of a key, or the default of an optional one.
abbrev pub text_at : String → List (String × Value) → Option String
text_at key [] = none
text_at key ((k, text s) ∷ fields) = if k == key then some s else text_at key fields
text_at key ((k, _) ∷ fields) = if k == key then none else text_at key fields

abbrev or_default : String → Option String → String
or_default d none = d
or_default d (some s) = s

pub record LoginRequest : Type 0 where
  pub username : String
  pub password : String
  pub device_name : String
  pub platform : String

unfoldable pub read_login : List (String × Value) → Option LoginRequest
read_login fields = elim (text_at "username" fields) [
  | none ↦ none
  | some username ↦ elim (text_at "password" fields) [
    | none ↦ none
    | some password ↦ some (record {
      username = username;
      password = password;
      device_name = or_default "Web Browser" (text_at "device_name" fields);
      platform = or_default "browser" (text_at "platform" fields);
    })
  ]
]

module _ (cfg : Settings) (crypto : Crypto) (jwt : Jwt) {D : Type 0} (encode : TokenResponse → D)
    (o : Origin) (draws : Draws) where
  -- What the server makes of a request to its path for a login, and its session after it.
  unfoldable pub login_route : ClientRequest → Session → Served D × Session
  unfolding read_login
  login_route r s =
      if r.method == "POST" && r.path == "/api/v1/auth/login"
      then elim (read_login r.json) [
        | none ↦ (failed, s)
        | some body ↦
            let (result, s') =
              login cfg crypto jwt o draws body.username body.password body.device_name
                body.platform s in
            elim result [ ok response ↦ (answered (encode response), s') | err _ ↦ (failed, s') ]
      ]
      else (failed, s)

-- What the server answers to a request to its path for the account.
unfoldable pub get_me_route :
    (List (String × String) → Option String)
    → Settings
    → Crypto
    → Jwt
    → ℕ
    → ClientRequest
    → Session
    → Option User
get_me_route bearer_of cfg crypto jwt now r s =
    if r.method == "GET" && r.path == "/api/v1/auth/me"
    then elim (get_me cfg crypto jwt now (record { bearer = bearer_of r.headers; cookie = none })
        s).0 [ ok user ↦ some user | err _ ↦ none ]
    else none
