-- ===== src/Sdk/Http.antt =====
-- `RelationshipOSClient` of packages/sdk/python/relationship_os_sdk/client.py: the requests of its methods,
-- and what it keeps of their answers. `Data` is the JSON of an answer; what reads it is an argument.
pub mod Login
use relationship_os.Base.{String, ◌<>◌, ℕ, Option, none, some, List, [], ◌∷◌, ◌++◌, if◌then◌else◌}
use relationship_os.Base.Int.{ℤ, pos}
use relationship_os.Auth.Account.{is_empty, or_text}
use relationship_os.ImportBots.{rstrip_of}

-- A value of the JSON or of the query of a request.
pub data Value : Type 0 where
  text : String → Value
  number : ℤ → Value
  object : List (String × String) → Value

pub record ClientRequest : Type 0 where
  pub method : String
  pub path : String
  pub params : List (String × Value)
  pub json : List (String × Value)
  pub headers : List (String × String)

-- What comes back: no answer, or a status for which `raise_for_status` raises; or the JSON.
pub data Served (D : Type 0) : Type 0 where
  failed : Served D
  answered : D → Served D

pub record HttpClient (D : Type 0) : Type 0 where
  pub base_url : String
  pub access_token : Option String
  pub user_data : Option D

pub record Paging : Type 0 where
  pub before_seq : Option ℤ
  pub after_seq : Option ℤ
  pub limit : ℤ

abbrev pub request : String → String → List (String × String) → ClientRequest
request method path headers = record {
  method = method;
  path = path;
  params = [];
  json = [];
  headers = headers;
}

abbrev pub login_request : String → String → String → String → ClientRequest
login_request username password device_name platform =
    record (request "POST" "/api/v1/auth/login" []) {
      json =
          ("username", text username)
          ∷ ("password", text password)
          ∷ ("device_name", text device_name)
          ∷ ("platform", text platform)
          ∷ [];
    }

abbrev pub enroll_request : String → String → String → ClientRequest
enroll_request token device_name platform = record (request "POST" "/api/v1/auth/enroll" []) {
  json =
      ("token", text token) ∷ ("device_name", text device_name) ∷ ("platform", text platform) ∷ [];
}

abbrev optional : String → Option ℤ → List (String × Value)
optional name none = []
optional name (some n) = (name, number n) ∷ []

abbrev conversation_path : String → String → String
conversation_path conversation_id rest = "/api/v1/conversations/" <> conversation_id <> rest

-- `client_message_id or str(uuid.uuid4())`
abbrev given_id : String → Option String → String
given_id drawn none = drawn
given_id drawn (some id) = or_text id drawn

module _ {D : Type 0} where
  unfoldable pub new_client : String → HttpClient D
  unfolding rstrip_of
  new_client base_url = record {
    base_url = rstrip_of "/" base_url;
    access_token = none;
    user_data = none;
  }

  abbrev pub auth_headers : HttpClient D → List (String × String)
  auth_headers cl = ("User-Agent", "RelationshipOS-Client/1.0") ∷ (elim cl.access_token [
    | none ↦ []
    | some token ↦ if is_empty token then [] else ("Authorization", "Bearer " <> token) ∷ []
  ])

  abbrev pub get_me_request : HttpClient D → ClientRequest
  get_me_request cl = request "GET" "/api/v1/auth/me" (auth_headers cl)

  abbrev pub get_conversations_request : HttpClient D → ClientRequest
  get_conversations_request cl = request "GET" "/api/v1/conversations" (auth_headers cl)

  abbrev pub get_history_request : String → Paging → HttpClient D → ClientRequest
  get_history_request conversation_id p cl =
      record (request "GET" (conversation_path conversation_id "/messages") (auth_headers cl)) {
        params =
            ("limit", number p.limit)
            ∷ (optional "before_seq" p.before_seq ++ optional "after_seq" p.after_seq);
      }

  -- `drawn` is the identifier of a message that is given none.
  abbrev pub send_message_request :
      String → String → String → Option String → HttpClient D → ClientRequest
  send_message_request drawn conversation_id body client_message_id cl =
      record (request "POST" (conversation_path conversation_id "/messages") (auth_headers cl)) {
        json =
            ("client_message_id", text (given_id drawn client_message_id))
            ∷ ("message", object (("type", "text") ∷ ("body", body) ∷ []))
            ∷ [];
      }

  abbrev pub mark_read_request : String → ℤ → HttpClient D → ClientRequest
  mark_read_request conversation_id last_read_sequence cl =
      record (request "POST" (conversation_path conversation_id "/read") (auth_headers cl)) {
        json = ("last_read_sequence", number last_read_sequence) ∷ [];
      }

  abbrev pub search_request : String → String → ℤ → HttpClient D → ClientRequest
  search_request conversation_id query limit cl =
      record (request "GET" (conversation_path conversation_id "/search") (auth_headers cl)) {
        params = ("q", text query) ∷ ("limit", number limit) ∷ [];
      }

  -- `http` sends a request; `token_field` and `user_field` are `data["access_token"]` and
  -- `data["user"]`, `none` where the key is missing.
  module _ (http : ClientRequest → Served D) (token_field : D → Option String)
      (user_field : D → Option D) where
    -- What `login` and `enroll` keep; the token is kept before a missing user raises.
    abbrev pub store : D → HttpClient D → Option D × HttpClient D
    store data_ cl = elim (token_field data_) [
      | none ↦ (none, cl)
      | some token ↦
          let cl' = record cl { access_token = some token } in
          elim (user_field data_) [
            | none ↦ (none, cl')
            | some user ↦ (some data_, record cl' { user_data = some user })
          ]
    ]

    -- `none` where the method raises.
    abbrev authenticate_by : ClientRequest → HttpClient D → Option D × HttpClient D
    authenticate_by r cl = elim (http r) [ failed ↦ (none, cl) | answered data_ ↦ store data_ cl ]

    unfoldable pub login :
        String → String → String → String → HttpClient D → Option D × HttpClient D
    login username password device_name platform cl =
        authenticate_by (login_request username password device_name platform) cl

    unfoldable pub enroll : String → String → String → HttpClient D → Option D × HttpClient D
    enroll token device_name platform cl =
        authenticate_by (enroll_request token device_name platform) cl

    -- Every other method keeps nothing.
    abbrev pub fetch : ClientRequest → Option D
    fetch r = elim (http r) [ failed ↦ none | answered data_ ↦ some data_ ]
