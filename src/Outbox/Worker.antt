-- ===== src/Outbox/Worker.antt =====
-- `OutboxWorker.process_batch`: the state machine of an outbox event. `now` is the clock's reading
-- at the start of the batch, in microseconds; an attempt reads the clock again later.
pub mod Retry
pub mod Batch
pub mod Progress
pub mod Loop
pub mod Update
pub mod Keys
pub mod Advance
pub mod Drain
use relationship_os.Base.{
  ℕ, ◌+◌, ◌*◌, ◌^◌, min, String, ◌<>◌, Bool, true, false, ◌&&◌, not, Option, none, some, List, [],
  ◌∷◌, ◌++◌, ◌==◌, ltb, leb, length, take, select, update_where, first, if◌then◌else◌,
}
use relationship_os.Base.Sorting.{sort_by}
use relationship_os.Shared.Event.{CanonicalMessageEvent}
use relationship_os.Shared.Errors.{Error, malformed}
use relationship_os.Shared.Config.{Settings}
use relationship_os.Db.Rows.{
  Db, OutboxEvent, OutboxStatus, pending, processing, delivered, failed, retrying,
}
use relationship_os.Db.Session.{
  Session, Action, Result, ok, err, ◌>>=◌, ◌>>◌, pure, query, or_raise, raise, modify, commit,
  rollback, open_session,
}
use relationship_os.Presence.{seconds}
use relationship_os.Outbox.Router.{Adapters, Outcome, DeliveryResult, route_event}

abbrev pub with_outbox : (List OutboxEvent → List OutboxEvent) → Db → Db
with_outbox f d = record d { outbox = f d.outbox }

abbrev pub has_id : String → OutboxEvent → Bool
has_id id e = e.id == id

-- A write to the row of an event.
abbrev pub save_event : OutboxEvent → Action (Unit {0})
save_event e = modify (with_outbox (update_where (has_id e.id) (λ _. e)))

abbrev pub is_waiting : OutboxStatus → Bool
is_waiting pending = true
is_waiting retrying = true
is_waiting _ = false

abbrev pub is_due : ℕ → OutboxEvent → Bool
is_due now e = is_waiting e.status && leb e.next_attempt_at now

abbrev pub older : OutboxEvent → OutboxEvent → Bool
older a b = leb a.created_at b.created_at

-- The events of a batch, the oldest first.
abbrev pub due_events : ℕ → ℕ → Db → List OutboxEvent
due_events now batch_size d = take batch_size (sort_by older (select (is_due now) d.outbox))

abbrev pub lock_event : ℕ → OutboxEvent → OutboxEvent
lock_event now e = record e { status = processing; locked_at = some now }

abbrev pub failures : List DeliveryResult → List DeliveryResult
failures = select (λ r. not r.outcome.success)

abbrev or_none : Option String → String
or_none none = "None"
or_none (some s) = s

-- `"; ".join(f"{integration}: {error}")`
abbrev pub reasons : List DeliveryResult → String
reasons [] = ""
reasons (r ∷ []) = r.integration <> ": " <> or_none r.outcome.error
reasons (r ∷ q ∷ rs) = r.integration <> ": " <> or_none r.outcome.error <> "; " <> reasons (q ∷ rs)

-- `min(300, 2 ** retry_count + uniform(0.1, 1.5))` seconds
abbrev pub backoff : ℕ → ℕ → ℕ
backoff retry_count jitter = min (seconds 300) (seconds (2 ^ retry_count) + jitter)

-- The writes to a locked event once its results are there.
unfoldable pub settle_event : ℕ → ℕ → List DeliveryResult → OutboxEvent → OutboxEvent
settle_event now jitter [] e = record e {
  status = delivered;
  completed_at = some now;
  error_message = none;
}
settle_event now jitter (f ∷ fs) e =
    let retry_count = e.retry_count + 1 in
    if leb e.max_retries retry_count
    then record e {
      retry_count = retry_count;
      error_message = some (reasons (f ∷ fs));
      status = failed;
    }
    else record e {
      retry_count = retry_count;
      error_message = some (reasons (f ∷ fs));
      status = retrying;
      next_attempt_at = now + backoff retry_count jitter;
    }

-- The writes to the stored event after an exception.
unfoldable pub fail_event : ℕ → String → OutboxEvent → OutboxEvent
fail_event now message e =
    let retry_count = e.retry_count + 1 in
    record e {
      retry_count = retry_count;
      status = if ltb retry_count e.max_retries then retrying else failed;
      error_message = some message;
      next_attempt_at = now + seconds 10;
    }

-- What an attempt draws on: the adapters' answers, the identifiers of new rows, the random
-- part of the backoff, how long after the start of the batch the clock is read for the delivery
-- rows, for the settled event and for the mark of an error, what the database raises at the flush of
-- the lock, at the commit of the attempt and in the session of the mark, and the parser of the stored
-- payload (`json.loads` with `model_validate`), whose failure is an exception.
pub record Attempt : Type 0 where
  pub adapters : Adapters
  pub draw : String → String
  pub jitter : ℕ
  pub routing : ℕ
  pub settling : ℕ
  pub marking : ℕ
  pub lock_fault : Option Error
  pub commit_fault : Option Error
  pub mark_fault : Option Error
  pub validate : String → Option CanonicalMessageEvent
  pub describe : Error → String

abbrev pub commit_unless : Option Error → Action (Unit {0})
commit_unless none = commit
commit_unless (some e) = raise e

module _ (cfg : Settings) (a : Attempt) (now : ℕ) where
  -- The `try` block up to its commit.
  unfoldable pub attempt : OutboxEvent → Action (Unit {0})
  attempt e = do
    save_event (lock_event now e)
    event ← or_raise (a.validate e.payload_json) malformed
    results ← route_event cfg a.adapters a.draw (now + a.routing) event
    save_event (settle_event (now + a.settling) a.jitter (failures results) (lock_event now e))
    commit_unless a.commit_fault

  -- The `except` block: a rollback, and the mark on the event, looked up by its key and committed
  -- in a session of its own. If that fails too, only the rollback is left.
  unfoldable pub mark_error : OutboxEvent → Error → Session → Session
  mark_error e error s =
      let back = (rollback s).1 in
      elim a.mark_fault [
        | some _ ↦ back
        | none ↦ elim (first (select (has_id e.id) back.work.outbox)) [
          | none ↦ back
          | some row ↦
              (commit (save_event (fail_event (now + a.marking) (a.describe error) row) back).1).1
        ]
      ]

  -- Whether the event was processed without an exception, and the session after it. The flush of the
  -- lock stands before the `try` block.
  unfoldable pub process_event : OutboxEvent → Session → Bool × Session
  process_event e s = elim a.lock_fault [
    | some _ ↦ (false, (rollback s).1)
    | none ↦
        let (result, s') = attempt e s in
        elim result [ ok _ ↦ (true, s') | err error ↦ (false, mark_error e error s') ]
  ]

-- A rollback expires the rows that a session has loaded, and to read one of them again outside a
-- query raises: the loop that reads the next event's key then ends in an exception, `none`.
abbrev pub after_rollback : List OutboxEvent → ℕ → Option ℕ
after_rollback [] count = some count
after_rollback (e ∷ es) count = none

-- What the loop answers once an event has raised; an exception of the lock or of the mark leaves it.
abbrev pub after_error : Option Error → Option Error → List OutboxEvent → ℕ → Option ℕ
after_error none none es count = after_rollback es count
after_error _ _ es count = none

module _ (cfg : Settings) (attempts : String → Attempt) (now : ℕ) where
  -- The loop, with the number of events that were processed.
  unfoldable pub process_events : List OutboxEvent → ℕ → Session → Option ℕ × Session
  process_events [] count s = (some count, s)
  process_events (e ∷ es) count s =
      let (done, s') = process_event cfg (attempts e.id) now e s in
      let rest = process_events es (count + 1) s' in
      let a = attempts e.id in
      if done then rest else (after_error a.lock_fault a.mark_fault es count, s')

  unfoldable pub process_batch : ℕ → Db → Option ℕ × Db
  process_batch batch_size d =
      let (count, s) = process_events (due_events now batch_size d) 0 (open_session d) in
      (count, s.stored)

-- A turn of `_run_loop`: when it polls, when it is through, and what its attempts draw on.
pub record Poll : Type 0 where
  pub now : ℕ
  pub ended : ℕ
  pub attempts : String → Attempt

-- `_run_loop` until it is stopped, as the polls that it makes; the pauses show in their times. An
-- exception of a poll is logged.
unfoldable pub run_loop : Settings → List Poll → Db → Db
unfolding process_batch
run_loop cfg [] d = d
run_loop cfg (p ∷ ps) d = run_loop cfg ps (process_batch cfg p.attempts p.now 25 d).1
