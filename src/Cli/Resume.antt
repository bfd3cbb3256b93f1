-- ===== src/Cli/Resume.antt =====
-- A second start of the client.
use relationship_os.Base.{
  String, Bool-cases, Option-cases, inl, inr, true, ◌≡◌, refl, sym, ap, ◌∙◌, Option, none, some,
  arith, ◌==◌, eq_refl,
}
use relationship_os.Auth.Account.{is_empty}
use relationship_os.Cli.{
  App, Api, Granted, StoredCredentials, new_app, use_grant, initialize_auth, id_or_empty, first_id,
  use_saved, restore, clear_credentials,
}

-- The credential file holds what the application knows.
record IsSaved (app : App) : Type 0 where
  credentials : StoredCredentials
  file : app.file ≡ some credentials
  server : (credentials.server_url == app.server_url) ≡ true
  token : app.access_token ≡ some credentials.access_token
  user : app.user_id ≡ some credentials.user_id
  name : app.username ≡ some credentials.username
  room : id_or_empty app.conversation_id ≡ credentials.conversation_id

use_grant-IsSaved :
    (api : Api) (granted : Option Granted) (app : App)
    → (use_grant api granted app).0 ≡ true
    → IsSaved (use_grant api granted app).1
use_grant-IsSaved api none app h = absurd cc
use_grant-IsSaved api (some g) app h = elim (Option-cases (api.get_conversations g.access_token)) [
  | inl e ↦ absurd (ground (arith, e, h))
  | inr (convs, e) ↦
      rw (e, use_grant)
        (record {
          credentials = record {
            access_token = g.access_token;
            server_url = app.server_url;
            user_id = g.user_id;
            username = g.username;
            conversation_id = id_or_empty (first_id convs);
          };
          file = refl;
          server = eq_refl app.server_url;
          token = refl;
          user = refl;
          name = refl;
          room = refl;
        })
]

use_grant-server_url :
    (api : Api) (granted : Option Granted) (app : App)
    → (use_grant api granted app).1.server_url ≡ app.server_url
use_grant-server_url api none app = refl
use_grant-server_url api (some g) app = ground arith

use_saved-IsSaved :
    (api : Api) (prompt : String × String) (c : StoredCredentials) (app : App)
    → app.file ≡ some c
    → (c.server_url == app.server_url) ≡ true
    → (use_saved api prompt c app).0 ≡ true
    → IsSaved (use_saved api prompt c app).1
use_saved-IsSaved api prompt c app file same h =
    elim (Option-cases (api.get_me (some c.access_token))) [
      | inr (u, e) ↦
          rw (e, use_saved)
            (record {
              credentials = c;
              file = file;
              server = same;
              token = refl;
              user = refl;
              name = refl;
              room = refl;
            })
      | inl e ↦
          rw (e, use_saved)
            (use_grant-IsSaved api (api.login prompt.0 prompt.1) (clear_credentials (restore c app))
              (ground (arith, e, h)))
    ]

use_saved-server_url :
    (api : Api) (prompt : String × String) (c : StoredCredentials) (app : App)
    → (use_saved api prompt c app).1.server_url ≡ app.server_url
use_saved-server_url api prompt c app = ground (
  arith,
  use_grant-server_url api (api.login prompt.0 prompt.1) (clear_credentials (restore c app)),
)

initialize_auth-server_url :
    (api : Api) (prompt : String × String) (enroll_token : Option String) (app : App)
    → (initialize_auth api prompt enroll_token app).1.server_url ≡ app.server_url
unfolding initialize_auth
initialize_auth-server_url api prompt enroll_token app =
    elim (Bool-cases (is_empty (id_or_empty enroll_token))) [
      | inr e ↦ rw e (use_grant-server_url api (api.enroll (id_or_empty enroll_token)) app)
      | inl e ↦ elim (Option-cases app.file) [
        | inl f ↦ rw (e, f) (use_grant-server_url api (api.login prompt.0 prompt.1) app)
        | inr (c, f) ↦ elim (Bool-cases (c.server_url == app.server_url)) [
          | inl g ↦ rw (e, f, g) (use_saved-server_url api prompt c app)
          | inr g ↦ rw (e, f, g) (use_grant-server_url api (api.login prompt.0 prompt.1) app)
        ]
      ]
    ]

initialize_auth-IsSaved :
    (api : Api) (prompt : String × String) (enroll_token : Option String) (app : App)
    → (initialize_auth api prompt enroll_token app).0 ≡ true
    → IsSaved (initialize_auth api prompt enroll_token app).1
unfolding initialize_auth
initialize_auth-IsSaved api prompt enroll_token app h =
    elim (Bool-cases (is_empty (id_or_empty enroll_token))) [
      | inr e ↦
          rw e (
            use_grant-IsSaved api (api.enroll (id_or_empty enroll_token)) app
              (ground (arith, e, h)))
      | inl e ↦ elim (Option-cases app.file) [
        | inl f ↦
            rw (e, f)
              (use_grant-IsSaved api (api.login prompt.0 prompt.1) app (ground (arith, e, f, h)))
        | inr (c, f) ↦ elim (Bool-cases (c.server_url == app.server_url)) [
          | inl g ↦
              rw (e, f, g) (use_saved-IsSaved api prompt c app f g (ground (arith, e, f, g, h)))
          | inr g ↦
              rw (e, f, g)
                (use_grant-IsSaved api (api.login prompt.0 prompt.1) app
                  (ground (arith, e, f, g, h)))
        ]
      ]
    ]

url_kept :
    (url : String) (file file' : Option StoredCredentials)
    → (new_app url file).server_url ≡ (new_app url file').server_url
unfolding new_app
url_kept url file file' = refl

file_kept : (url : String) (file : Option StoredCredentials) → (new_app url file).file ≡ file
unfolding new_app
file_kept url file = refl

resumed :
    (api : Api) (prompt : String × String) (c : StoredCredentials) (app : App)
    → app.file ≡ some c
    → (c.server_url == app.server_url) ≡ true
    → api.get_me (some c.access_token) ≡ some tt
    → initialize_auth api prompt none app ≡ (true, restore c app)
unfolding initialize_auth
resumed api prompt c app file same h = ground (arith, file, same, h)

-- After a start of the client that has logged in, by a token, saved credentials or a password, another
-- start for the same server without an enrollment token, while the server still accepts the access
-- token, logs in again without a question: with the same token, for the same user, in the same
-- conversation, and with the credential file as it was.
pub initialize_auth-resumes :
    (api api' : Api) (prompt prompt' : String × String) (enroll_token : Option String)
    (url : String) (file : Option StoredCredentials)
    → let (done, app) = initialize_auth api prompt enroll_token (new_app url file) in
      done ≡ true
      → api'.get_me app.access_token ≡ some tt
      → let (again, app') = initialize_auth api' prompt' none (new_app url app.file) in
        (again ≡ true)
        × (app'.access_token ≡ app.access_token)
        × (app'.user_id ≡ app.user_id)
        × (app'.username ≡ app.username)
        × (id_or_empty app'.conversation_id ≡ id_or_empty app.conversation_id)
        × (app'.file ≡ app.file)
initialize_auth-resumes api api' prompt prompt' enroll_token url file done accepted =
    let app = (initialize_auth api prompt enroll_token (new_app url file)).1 in
    let saved = initialize_auth-IsSaved api prompt enroll_token (new_app url file) done in
    let same = initialize_auth-server_url api prompt enroll_token (new_app url file) in
    let c = saved.credentials in
    let second = new_app url app.file in
    let address : second.server_url ≡ app.server_url = url_kept url app.file file ∙ sym same in
    let back =
      resumed api' prompt' c second (file_kept url app.file ∙ saved.file)
        (ap (λ x. c.server_url == x) address ∙ saved.server)
        (ap api'.get_me (sym saved.token) ∙ accepted) in
    (
      ap (λ p. p.0) back,
      ap (λ p. p.1.access_token) back ∙ sym saved.token,
      ap (λ p. p.1.user_id) back ∙ sym saved.user,
      ap (λ p. p.1.username) back ∙ sym saved.name,
      ap (λ p. id_or_empty p.1.conversation_id) back ∙ sym saved.room,
      ap (λ p. p.1.file) back ∙ file_kept url app.file,
    )
