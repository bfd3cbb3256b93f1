-- ===== src/Tests/Logins.antt =====
-- A login by the client of the SDK, and two starts of the terminal client. The test's JSON is the record itself.
use relationship_os.Base.{Bool, String, true, ◌≡◌, refl, none, some, Option, List, [], ◌∷◌}
use relationship_os.Auth.Routes.{TokenResponse}
use relationship_os.Sdk.Http.{HttpClient}
use relationship_os.Sdk.Http as Http
use relationship_os.Cli.{App, Api, new_app, initialize_auth, id_or_empty}
use relationship_os.Cli.Resume.{initialize_auth-resumes}

-- What follows the seven characters of `Bearer `.
abbrev seventh : String → String
seventh
      (String.◌∷◌ a (
        String.◌∷◌ b
          (String.◌∷◌ c (String.◌∷◌ d (String.◌∷◌ e (String.◌∷◌ f (String.◌∷◌ g rest))))))) =
    rest
seventh _ = ""

abbrev bearer_of : List (String × String) → Option String
bearer_of (agent ∷ (name, value) ∷ []) = some (seventh value)
bearer_of _ = none

abbrev fresh_client : HttpClient TokenResponse
fresh_client = record { base_url = "http://h"; access_token = none; user_data = none }

-- A server that knows one user, one token and one conversation.
abbrev api : Api
api = record {
  enroll = λ token. none;
  login = λ name password.
      some (record { access_token = "t1"; user_id = "ann"; username = name; display_name = "Ann" });
  get_me = λ token. some tt;
  get_conversations = λ token. some ("c" ∷ []);
}

abbrev first_start : Bool × App
first_start = initialize_auth api ("ann", "pw") none (new_app "http://h/" none)

started : first_start.0 ≡ true
unfolding initialize_auth new_app
started = refl

initialize_auth-resumes_example :
    let app = first_start.1 in
    let (again, app') = initialize_auth api ("", "") none (new_app "http://h/" app.file) in
    (again ≡ true)
    × (app'.access_token ≡ app.access_token)
    × (app'.user_id ≡ app.user_id)
    × (app'.username ≡ app.username)
    × (id_or_empty app'.conversation_id ≡ id_or_empty app.conversation_id)
    × (app'.file ≡ app.file)
initialize_auth-resumes_example =
    initialize_auth-resumes api api ("ann", "pw") ("", "") none "http://h/" none started refl
