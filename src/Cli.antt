-- ===== src/Cli.antt =====
-- apps/cli/src/cli.py: the terminal client. The calls of the API, the prompts and the clock's format
-- are parameters; the credential file (apps/cli/src/storage.py) is its content. What is printed is
-- left out, but for the lines of the messages.
pub mod Messages
pub mod Resume
use relationship_os.Base.{
  String, ◌<>◌, Bool, true, false, ◌&&◌, Option, none, some, List, [], ◌∷◌, ◌++◌, ◌==◌, exists_row,
  if◌then◌else◌,
}
use relationship_os.Auth.Account.{is_empty, or_text}
use relationship_os.ImportBots.{rstrip_of}
use relationship_os.Sdk.{Status, connected, disconnected}

-- A message as the client receives it; what is missing is empty.
pub record ChatMessage : Type 0 where
  pub id : String
  pub sender_id : String
  pub sender_name : String
  pub body : String
  pub created_at : String

pub record StoredCredentials : Type 0 where
  pub access_token : String
  pub server_url : String
  pub user_id : String
  pub username : String
  pub conversation_id : String

-- The application, the token of its HTTP client, and the content of the credential file.
pub record App : Type 0 where
  pub server_url : String
  pub access_token : Option String
  pub conversation_id : Option String
  pub user_id : Option String
  pub username : Option String
  pub display_name : Option String
  pub status : Status
  pub messages : List ChatMessage
  pub file : Option StoredCredentials

-- The constructor, on a device with the given credential file.
unfoldable pub new_app : String → Option StoredCredentials → App
unfolding rstrip_of
new_app server_url file = record {
  server_url = rstrip_of "/" server_url;
  access_token = none;
  conversation_id = none;
  user_id = none;
  username = none;
  display_name = none;
  status = disconnected;
  messages = [];
  file = file;
}

abbrev pub is_me : App → ChatMessage → Bool
is_me app msg = elim app.user_id [ none ↦ false | some id ↦ msg.sender_id == id ]

-- `clock` gives the hours and minutes, or nothing where the time cannot be read.
unfoldable pub format_message : (String → String) → App → ChatMessage → String
format_message clock app msg =
    let sender = or_text msg.sender_name (if is_me app msg then "You" else "Partner") in
    let time = clock msg.created_at in
    if is_me app msg
    then "[bold cyan]You[/] [dim](" <> time <> ")[/]: " <> msg.body <> " [dim green]✓[/]"
    else "[bold magenta]" <> sender <> " ♥[/] [dim](" <> time <> ")[/]: " <> msg.body

unfoldable pub on_inbound_message : ChatMessage → App → App
on_inbound_message msg app = record app { messages = app.messages ++ (msg ∷ []) }

abbrev pub has_id : String → ChatMessage → Bool
has_id id msg = msg.id == id

-- The loop of `on_replay`.
abbrev pub add_missing : List ChatMessage → List ChatMessage → List ChatMessage
add_missing [] shown = shown
add_missing (m ∷ ms) shown =
    add_missing ms (if exists_row (has_id m.id) shown then shown else shown ++ (m ∷ []))

unfoldable pub on_replay : List ChatMessage → App → App
on_replay new_msgs app = record app { messages = add_missing new_msgs app.messages }

abbrev pub on_status_change : Status → App → App
on_status_change status app = record app { status = status }

-- What a login and an enrollment answer.
pub record Granted : Type 0 where
  pub access_token : String
  pub user_id : String
  pub username : String
  pub display_name : String

-- The API: `none` is an exception.
pub record Api : Type 0 where
  pub enroll : String → Option Granted
  pub login : String → String → Option Granted
  pub get_me : Option String → Option (Unit {0})
  pub get_conversations : String → Option (List String)

abbrev pub first_id : List String → Option String
first_id [] = none
first_id (c ∷ cs) = some c

abbrev pub id_or_empty : Option String → String
id_or_empty none = ""
id_or_empty (some c) = c

abbrev pub save_credentials : Granted → Option String → App → App
save_credentials g conversation_id app = record app {
  file = some (record {
    access_token = g.access_token;
    server_url = app.server_url;
    user_id = g.user_id;
    username = g.username;
    conversation_id = id_or_empty conversation_id;
  });
}

abbrev pub clear_credentials : App → App
clear_credentials app = record app { file = none }

-- What follows a grant: the first conversation is looked up, and the credentials are saved.
abbrev pub use_grant : Api → Option Granted → App → Bool × App
use_grant api none app = (false, app)
use_grant api (some g) app =
    let known = record app {
      access_token = some g.access_token;
      user_id = some g.user_id;
      username = some g.username;
      display_name = some g.display_name;
    } in
    elim (api.get_conversations g.access_token) [
      | none ↦ (false, known)
      | some convs ↦ (
        true,
        save_credentials g (first_id convs) (record known { conversation_id = first_id convs }),
      )
    ]

abbrev pub restore : StoredCredentials → App → App
restore c app = record app {
  access_token = some c.access_token;
  user_id = some c.user_id;
  username = some c.username;
  conversation_id = some c.conversation_id;
}

abbrev pub prompt_login : Api → String × String → App → Bool × App
prompt_login api (username, password) app = use_grant api (api.login username password) app

abbrev pub use_saved : Api → String × String → StoredCredentials → App → Bool × App
use_saved api prompt c app =
    let restored = restore c app in
    elim (api.get_me restored.access_token) [
      | some _ ↦ (true, restored)
      | none ↦ prompt_login api prompt (clear_credentials restored)
    ]

-- Without an enrollment token or saved credentials of this server, the user is asked.
unfoldable pub initialize_auth : Api → String × String → Option String → App → Bool × App
initialize_auth api prompt enroll_token app =
    if is_empty (id_or_empty enroll_token)
    then elim app.file [
      | none ↦ prompt_login api prompt app
      | some c ↦
          if c.server_url == app.server_url
          then use_saved api prompt c app
          else prompt_login api prompt app
    ]
    else use_grant api (api.enroll (id_or_empty enroll_token)) app

-- A line of the input loop, stripped.
pub data Command : Type 0 where
  nothing quit redraw logout : Command
  say_socket say_rest : String → Command

abbrev is_connected : Status → Bool
is_connected connected = true
is_connected _ = false

unfoldable pub read_command : Bool → App → String → Command
read_command has_ws app text =
    if is_empty text
    then nothing
    else if text == "/quit"
    then quit
    else if text == "/exit"
    then quit
    else if text == "/clear"
    then redraw
    else if text == "/logout"
    then logout
    else if has_ws && is_connected app.status
    then say_socket text
    else say_rest text

-- `start` after the login: the conversation of the socket. `none` where the client ends instead.
unfoldable pub open_room : Api → App → Option App
open_room api app =
    if is_empty (id_or_empty app.conversation_id)
    then elim (api.get_conversations (id_or_empty app.access_token)) [
      | none ↦ none
      | some convs ↦ elim (first_id convs) [
        | none ↦ none
        | some c ↦ some (record app { conversation_id = some c })
      ]
    ]
    else some app
