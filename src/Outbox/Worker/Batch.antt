-- ===== src/Outbox/Worker/Batch.antt =====
-- A whole batch: the backoff, the events that it picks, and the invariant of the outbox.
use relationship_os.Base.{
  ℕ, ◌+◌, ◌^◌, ◌≤◌, min, Bool, true, ◌≡◌, List, [], ◌∷◌, arith, All, All-take, select, length,
  length-take,
}
use relationship_os.Base.Sorting.{sort_by, All-sort_by}
use relationship_os.Db.Rows.{Db, OutboxEvent, retrying}
use relationship_os.Presence.{seconds}
use relationship_os.Outbox.Router.{DeliveryResult}
use relationship_os.Outbox.Worker.{settle_event, is_due, older, due_events}

-- An event that is to be retried waits until at least 2 ** retry_count seconds or 300 seconds have
-- passed, whichever is less, and never longer than 300 seconds.
pub settle_event-backoff :
    (now jitter : ℕ) (fs : List DeliveryResult) (e : OutboxEvent)
    → (settle_event now jitter fs e).status ≡ retrying
    → let f = settle_event now jitter fs e in
      (now + min (seconds 300) (seconds (2 ^ f.retry_count)) ≤ f.next_attempt_at)
      × (f.next_attempt_at ≤ now + seconds 300)
unfolding settle_event
settle_event-backoff now jitter [] e h = absurd (ground arith)
settle_event-backoff now jitter (r ∷ fs) e h = ground arith

All-select : (p : OutboxEvent → Bool) (es : List OutboxEvent) → All (λ e. p e ≡ true) (select p es)
All-select p [] = tt
All-select p (e ∷ es) = ground (arith, All-select p es)

-- A batch holds at most its size, and only events that wait, pending or to be retried, and are
-- due.
pub due_events-All :
    (now n : ℕ) (d : Db)
    → All (λ e. is_due now e ≡ true) (due_events now n d) × (length (due_events now n d) ≤ n)
due_events-All now n d = (
  All-take (λ e. is_due now e ≡ true) n _
      (All-sort_by older (λ e. is_due now e ≡ true) _ (All-select (is_due now) d.outbox)),
  omega (arith, length-take n (sort_by older (select (is_due now) d.outbox))),
)
