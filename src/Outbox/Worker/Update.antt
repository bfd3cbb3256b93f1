-- ===== src/Outbox/Worker/Update.antt =====
-- The processing of one event as one write to the outbox, and the attempts that are left.
use mathlib.Core.Path.{subst}
use relationship_os.Base.{
  none, sym, ℕ, ◌+◌, ◌-◌, ◌≤◌, ◌<◌, max, String, true, ap, ◌≡◌, refl, ◌∙◌, inl, inr, some, List, [],
  ◌∷◌, arith, select, update_where, Bool-cases, if◌then◌else◌,
}
use relationship_os.Shared.Event.{CanonicalMessageEvent}
use relationship_os.Shared.Errors.{Error}
use relationship_os.Shared.Config.{Settings}
use relationship_os.Db.Rows.{OutboxEvent}
use relationship_os.Db.Session.{Session, ok, Result-cases}
use relationship_os.Presence.{seconds}
use relationship_os.Outbox.Router.{DeliveryResult, route_event}
use relationship_os.Outbox.Router.Frame.{route_event-IsSame}
use relationship_os.Outbox.Worker.{
  has_id, is_waiting, failures, save_event, lock_event, settle_event, fail_event, Attempt, attempt,
  mark_error, process_event,
}
use relationship_os.Outbox.Worker.Retry.{
  CanMark, lock_holds, Step, deliver, retry, bury, attempt-stored, attempt-routed, settle_event-id,
  fail_event-id, settle_event-Step, fail_event-Step,
}

-- The polls that may still find an event.
unfoldable pub left : OutboxEvent → ℕ
left e = if is_waiting e.status then max 1 (e.max_retries - e.retry_count) else 0

abbrev pub budget : List OutboxEvent → ℕ
budget [] = 0
budget (e ∷ es) = left e + budget es

pub Step-left : (e f : OutboxEvent) → is_waiting e.status ≡ true → Step e f → left f < left e
unfolding left
Step-left e f w (deliver s c m) = ground (arith, s, c, m)
Step-left e f w (retry s c m b) = ground (arith, s, c, m)
Step-left e f w (bury s c m b) = ground (arith, s, c, m)

abbrev pub put_event : OutboxEvent → List OutboxEvent → List OutboxEvent
put_event f = update_where (has_id f.id) (λ _. f)

put_event-twice :
    (f g : OutboxEvent) (es : List OutboxEvent)
    → g.id ≡ f.id
    → put_event f (put_event g es) ≡ put_event f es
put_event-twice f g [] h = refl
put_event-twice f g (e ∷ es) h = ground (arith, put_event-twice f g es)

put_event-absent :
    (f : OutboxEvent) (es : List OutboxEvent) → select (has_id f.id) es ≡ [] → put_event f es ≡ es
put_event-absent f [] h = refl
put_event-absent f (e ∷ es) h = ground (arith, put_event-absent f es)

pub budget-put_event :
    (e f : OutboxEvent) (es : List OutboxEvent)
    → select (has_id f.id) es ≡ e ∷ []
    → budget (put_event f es) + left e ≡ budget es + left f
budget-put_event e f [] h = absurd cc
budget-put_event e f (x ∷ es) h = elim (Bool-cases (has_id f.id x)) [
  | inl t ↦ ground (arith, t, h, put_event-absent f es)
  | inr t ↦ ground (arith, t, h, budget-put_event e f es)
]

-- What the processing of an event comes to: its row is replaced by one that is a legal step further
-- and waits no longer than 300 seconds from the end of the poll, or than before.
pub record HasUpdated (ended : ℕ) (e : OutboxEvent) (s s' : Session) : Type 0 where
  pub row : OutboxEvent
  pub same_id : row.id ≡ e.id
  pub step : Step e row
  pub soon : row.next_attempt_at ≤ max e.next_attempt_at (ended + seconds 300)
  pub outbox : s'.stored.outbox ≡ put_event row s.stored.outbox
  pub committed : s'.work ≡ s'.stored

settle_event-soon :
    (locked now jitter : ℕ) (fs : List DeliveryResult) (e : OutboxEvent)
    → (settle_event now jitter fs (lock_event locked e)).next_attempt_at
      ≤ max e.next_attempt_at (now + seconds 300)
unfolding settle_event
settle_event-soon locked now jitter [] e = omega arith
settle_event-soon locked now jitter (f ∷ fs) e = ground arith

fail_event-soon :
    (now : ℕ) (m : String) (e : OutboxEvent)
    → (fail_event now m e).next_attempt_at ≤ max e.next_attempt_at (now + seconds 300)
unfolding fail_event
fail_event-soon now m e = omega arith

module _ (cfg : Settings) (a : Attempt) (now : ℕ) where
  -- The database takes the lock and the mark, and the clock is read before the poll ends.
  pub record IsTried (ended : ℕ) : Type 0 where
    pub marks : CanMark a
    pub settled : now + a.settling ≤ ended
    pub marked : now + a.marking ≤ ended

  attempt-outbox :
      (e : OutboxEvent) (s : Session) {event : CanonicalMessageEvent} {rs : List DeliveryResult}
      → s.work ≡ s.stored
      → a.validate e.payload_json ≡ some event
      → a.commit_fault ≡ none
      → (route_event cfg a.adapters a.draw
          (now + a.routing)
          event
          (save_event (lock_event now e) s).1).0
        ≡ ok rs
      → let s' = (attempt cfg a now e s).1 in
        (s'.work ≡ s'.stored)
        × (s'.stored.outbox
            ≡ put_event
                (settle_event (now + a.settling) a.jitter (failures rs) (lock_event now e))
                s.stored.outbox)
  unfolding attempt
  attempt-outbox e s {event} {rs} same parsed commits routed =
      let locked = (save_event (lock_event now e) s).1 in
      let last = settle_event (now + a.settling) a.jitter (failures rs) (lock_event now e) in
      ground (
        arith,
        parsed,
        commits,
        routed,
        route_event-IsSame cfg a.adapters a.draw (now + a.routing) event locked,
        settle_event-id (now + a.settling) a.jitter (failures rs) (lock_event now e),
        put_event-twice last (lock_event now e) s.stored.outbox,
      )

  mark_error-outbox :
      (e : OutboxEvent) (x : Error) (s : Session)
      → a.mark_fault ≡ none
      → select (has_id e.id) s.stored.outbox ≡ e ∷ []
      → let s' = mark_error cfg a now e x s in
        (s'.work ≡ s'.stored)
        × (s'.stored.outbox
            ≡ put_event (fail_event (now + a.marking) (a.describe x) e) s.stored.outbox)
  unfolding mark_error
  mark_error-outbox e x s marks one =
      ground (arith, fail_event-id (now + a.marking) (a.describe x) e)

  pub process_event-HasUpdated :
      (ended : ℕ) (e : OutboxEvent) (s : Session)
      → s.work ≡ s.stored
      → select (has_id e.id) s.stored.outbox ≡ e ∷ []
      → IsTried ended
      → HasUpdated ended e s (process_event cfg a now e s).1
  process_event-HasUpdated ended e s same one tried =
      elim (Result-cases (attempt cfg a now e s).0) [
        | inl (done, h) ↦
            let (event, rs, parsed, commits, routed) = attempt-routed cfg a now e s h in
            let (committed, written) = attempt-outbox e s same parsed commits routed in
            subst (λ p. HasUpdated ended e s p.1) (sym (lock_holds cfg a now e s tried.marks.0 h))
              (record {
                row = settle_event (now + a.settling) a.jitter (failures rs) (lock_event now e);
                same_id =
                    settle_event-id (now + a.settling) a.jitter (failures rs) (lock_event now e);
                step = settle_event-Step now (now + a.settling) a.jitter (failures rs) e;
                soon = omega (
                  arith,
                  settle_event-soon now (now + a.settling) a.jitter (failures rs) e,
                  tried.settled,
                );
                outbox = written;
                committed = committed;
              })
        | inr (x, h) ↦
            let s' = (attempt cfg a now e s).1 in
            let kept = attempt-stored cfg a now e s h in
            let (committed, written) = mark_error-outbox e x s' tried.marks.1 (rw kept one) in
            subst (λ p. HasUpdated ended e s p.1) (sym (lock_holds cfg a now e s tried.marks.0 h))
              (record {
                row = fail_event (now + a.marking) (a.describe x) e;
                same_id = fail_event-id (now + a.marking) (a.describe x) e;
                step = fail_event-Step (now + a.marking) (a.describe x) e;
                soon =
                    omega (arith, fail_event-soon (now + a.marking) (a.describe x) e, tried.marked);
                outbox =
                    written
                    ∙ ap (λ d. put_event (fail_event (now + a.marking) (a.describe x) e) d.outbox)
                        kept;
                committed = committed;
              })
      ]
