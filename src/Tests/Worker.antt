-- ===== src/Tests/Worker.antt =====
-- The outbox worker: an event with one retry left, and a batch of two.
use relationship_os.Base.{
  String, String-discrete, ◌==◌, map, false, ◌≡◌, ◌≢◌, refl, none, some, [], ◌∷◌, All, arith,
  select,
}
use relationship_os.Base.Sorting.{sort_by}
use relationship_os.Shared.Constants.{EventType, UserRole}
use relationship_os.Shared.Event.{CanonicalMessageEvent}
use relationship_os.Db.Rows.{OutboxEvent, retrying, failed}
use relationship_os.Db.Session.{ok}
use relationship_os.Outbox.Router.{
  Adapters, Outcome, DeliveryResult, route_event, route_discord, route_endpoints, route_signal,
  deliver_event, update_delivery,
}
use relationship_os.Outbox.Worker.{
  Attempt, has_id, due_events, settle_event, process_event, process_events, process_batch, attempt,
  mark_error, fail_event,
}
use relationship_os.Outbox.Worker.Retry.{Step, process_event-Step}
use relationship_os.Outbox.Worker.Loop.{
  IsListed, HasStepped, HasSteppedOrKept, process_batch-Step, process_batch-kept,
}
use relationship_os.Tests.Data.{cfg, db, session, payload, outbox_event}

abbrev refused : Outcome
refused = record { success = false; external_id = none; error = some "HTTP 500" }

abbrev adapters : Adapters
adapters = record {
  discord = λ e. ok refused;
  webhook = λ url secret e allow. ok refused;
  signal = λ e. ok refused;
}

abbrev event : CanonicalMessageEvent
event = record {
  event_id = "e1";
  event_type = EventType.message_created;
  conversation_id = "c";
  message_id = "m1";
  sender_id = "ann";
  sender_role = some UserRole.owner;
  sender_name = some "Ann";
  sequence = 1;
  timestamp = 1;
  origin = "chat";
  message = payload;
  client_message_id = "km1";
}

abbrev pub one_attempt : Attempt
one_attempt = record {
  adapters = adapters;
  draw = λ integration. integration;
  jitter = 500000;
  routing = 1;
  settling = 2;
  marking = 2;
  lock_fault = none;
  commit_fault = none;
  mark_fault = none;
  validate = λ text. some event;
  describe = λ e. "error";
}

-- Discord refuses: the first event is to be retried, the second has used its retries.
process_batch-statuses :
    let outbox = (process_batch cfg (λ id. one_attempt) 20 10 db).1.outbox in
    (map (λ e. e.status) outbox ≡ retrying ∷ failed ∷ [])
    × (map (λ e. e.retry_count) outbox ≡ 1 ∷ 5 ∷ [])
unfolding String-discrete process_batch process_events process_event attempt route_event
    route_discord route_endpoints route_signal deliver_event update_delivery settle_event mark_error
    sort_by
process_batch-statuses = (refl, refl)

process_event-Step_example :
    let s' = (process_event cfg one_attempt 20 (outbox_event "o1" 0) session).1 in
    (s'.work ≡ s'.stored)
    × ((f : OutboxEvent) × (select (has_id "o1") s'.stored.outbox ≡ f ∷ [])
        × Step (outbox_event "o1" 0) f)
unfolding String-discrete
process_event-Step_example =
    process_event-Step cfg one_attempt 20 (outbox_event "o1" 0) session refl refl (refl, refl)

abbrev refusal : DeliveryResult
refusal = record { integration = "discord"; outcome = refused }

pub ne_of_test : (s t : String) → (s == t) ≡ false → s ≢ t
ne_of_test s t h p = ground (arith, p, h)

o2-ne-o1 : ◌≢◌ {A = String} "o2" "o1"
unfolding String-discrete
o2-ne-o1 = ne_of_test "o2" "o1" refl

db-IsListed : IsListed db (due_events 20 10 db)
unfolding String-discrete sort_by
db-IsListed = (refl, (o2-ne-o1, tt), (refl, tt, tt))

process_batch-Step_example :
    All (HasStepped (process_batch cfg (λ id. one_attempt) 20 10 db).1) (due_events 20 10 db)
unfolding String-discrete process_batch process_events process_event attempt route_event
    route_discord route_endpoints route_signal deliver_event update_delivery settle_event mark_error
    sort_by
process_batch-Step_example = process_batch-Step cfg (λ id. one_attempt) 20 10 db db-IsListed refl

-- No payload parses: each attempt raises.
abbrev unreadable : Attempt
unreadable = record one_attempt { validate = λ text. none }

process_batch-kept_example :
    All
      (HasSteppedOrKept db (process_batch cfg (λ id. unreadable) 20 10 db).1)
      (due_events 20 10 db)
process_batch-kept_example = process_batch-kept cfg (λ id. unreadable) 20 10 db db-IsListed

-- The exception on the first event ends the batch: the second keeps its row.
process_batch-raises :
    let (count, d) = process_batch cfg (λ id. unreadable) 20 10 db in
    (count ≡ none) × (map (λ e. e.retry_count) d.outbox ≡ 1 ∷ 4 ∷ [])
unfolding String-discrete process_batch process_events process_event attempt mark_error fail_event
    sort_by
process_batch-raises = (refl, refl)

o2-apart : All (λ e. ◌≢◌ {A = String} "o2" e.id) (due_events 20 1 db)
unfolding sort_by
o2-apart = (o2-ne-o1, tt)

db-IsListed_one : IsListed db (due_events 20 1 db)
unfolding String-discrete sort_by
db-IsListed_one = (refl, tt, tt)
