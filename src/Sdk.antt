-- ===== src/Sdk.antt =====
-- `RelationshipOSWebSocket` of packages/sdk/python/relationship_os_sdk/ws_client.py: the connection
-- loop, the frames in and out, and the sequence number up to which the client has seen the
-- conversation. Delays are whole seconds; the jitter is drawn and left out. A callback that raises
-- is caught in the loop.
pub mod Seen
pub mod CatchUp
pub mod Backoff
pub mod Http
use relationship_os.Base.{
  ℕ, ◌*◌, min, String, Bool, true, false, Option, none, some, List, [], ◌∷◌, ◌++◌, ltb,
  if◌then◌else◌,
}
use relationship_os.Base.Int.{ℤ, pos}
use relationship_os.Shared.Constants.{PresenceState}
use relationship_os.Db.Rows.{Message}
use relationship_os.WebSocket.{ServerFrame}
use relationship_os.WebSocket.Frames.{ClientFrame}

-- What `on_status_change` is told.
pub data Status : Type 0 where
  connecting authenticated syncing connected reconnecting error disconnected : Status

-- A call of a callback.
pub data Call : Type 0 where
  on_message : Message → Call
  on_replay : String → List Message → Call
  on_presence : String → PresenceState → Call
  on_status_change : Status → Call

-- `last_known_sequence`, `_running`, and whether there is a `_ws`; the delay is the loop's local.
pub record Client : Type 0 where
  pub conversation_id : String
  pub last_known_sequence : ℕ
  pub running : Bool
  pub has_ws : Bool
  pub reconnect_delay : ℕ

-- The constructor, and `start`.
abbrev pub new_client : String → Client
new_client conversation_id = record {
  conversation_id = conversation_id;
  last_known_sequence = 0;
  running = false;
  has_ws = false;
  reconnect_delay = 1;
}

abbrev pub start : Client → Client
start cl = record cl { running = true; reconnect_delay = 1 }

-- `if seq > self.last_known_sequence`
abbrev pub see : Message → Client → Client
see m cl =
    if ltb cl.last_known_sequence m.sequence_number
    then record cl { last_known_sequence = m.sequence_number }
    else cl

abbrev pub see_all : List Message → Client → Client
see_all [] cl = cl
see_all (m ∷ ms) cl = see_all ms (see m cl)

-- One inbound message of the loop.
unfoldable pub on_frame : ServerFrame → Client → Client × List Call
on_frame (ServerFrame.event m sender_name) cl = (see m cl, on_message m ∷ [])
on_frame (ServerFrame.replay conv_id ms up_to) cl = (see_all ms cl, on_replay conv_id ms ∷ [])
on_frame (ServerFrame.presence user_id username status) cl = (cl, on_presence user_id status ∷ [])
on_frame _ cl = (cl, [])

unfoldable pub on_frames : List ServerFrame → Client → Client × List Call
unfolding on_frame
on_frames [] cl = (cl, [])
on_frames (f ∷ fs) cl =
    let (cl', calls) = on_frame f cl in let (last, more) = on_frames fs cl' in (last, calls ++ more)

-- The frames that the client sends; `send_chat_message` raises when there is no socket, and
-- `mark_read` does nothing then.
abbrev pub sync_frame : Client → ClientFrame
sync_frame cl = ClientFrame.sync (some cl.conversation_id) (some (pos cl.last_known_sequence))

abbrev pub send_chat_message : String → String → Client → Option ClientFrame
send_chat_message body client_message_id cl =
    if cl.has_ws then some (ClientFrame.send cl.conversation_id client_message_id body) else none

abbrev pub read_frames : ℤ → Client → List ClientFrame
read_frames sequence cl =
    if cl.has_ws then ClientFrame.read cl.conversation_id sequence ∷ [] else []

abbrev pub max_reconnect_delay : ℕ
max_reconnect_delay = 30

-- What happens to the task `_run`: it connects, a frame arrives, the connection is lost, another
-- exception is raised, the server closes the connection so that the loop over its frames ends
-- without an exception, or `stop` is called.
pub data Event : Type 0 where
  connects : Event
  arrives : ServerFrame → Event
  lost fails closes stops : Event

-- What a step does outside: the calls, the frames that are sent, and the seconds that the task
-- sleeps before it connects again.
pub record Effect : Type 0 where
  pub calls : List Call
  pub frames : List ClientFrame
  pub sleep : ℕ

abbrev told : Status → Call
told s = on_status_change s

-- The two `except` clauses of the loop.
abbrev pub on_lost : Client → Client × Effect
on_lost cl =
    let gone = record cl { has_ws = false } in
    if cl.running
    then (
      record gone { reconnect_delay = min max_reconnect_delay (cl.reconnect_delay * 2) },
      record { calls = told reconnecting ∷ []; frames = []; sleep = cl.reconnect_delay },
    )
    else (gone, record { calls = []; frames = []; sleep = 0 })

abbrev pub on_failure : Client → Client × Effect
on_failure cl =
    let gone = record cl { has_ws = false } in
    if cl.running
    then (gone, record { calls = told error ∷ []; frames = []; sleep = 2 })
    else (gone, record { calls = []; frames = []; sleep = 0 })

unfoldable pub step : Event → Client → Client × Effect
unfolding on_frame
step connects cl =
    if cl.running
    then (
      record cl { has_ws = true; reconnect_delay = 1 },
      record {
        calls = told connecting ∷ told authenticated ∷ told syncing ∷ told connected ∷ [];
        frames = sync_frame cl ∷ [];
        sleep = 0;
      },
    )
    else (cl, record { calls = []; frames = []; sleep = 0 })
step (arrives f) cl =
    let (cl', calls) = on_frame f cl in (cl', record { calls = calls; frames = []; sleep = 0 })
step lost cl = on_lost cl
step fails cl = on_failure cl
step closes cl = (cl, record { calls = []; frames = []; sleep = 0 })
step stops cl = (
  record cl { running = false },
  record { calls = told disconnected ∷ []; frames = []; sleep = 0 },
)
