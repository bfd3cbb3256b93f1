-- ===== src/Outbox/Worker/Retry.antt =====
-- One step of an event: the states that it may take, the count of its retries, and its backoff.
use mathlib.Core.Path.{subst}
use relationship_os.Base.{
  Bool, true, false, none, Option, ap, ◌⊎◌, ℕ, suc, ◌+◌, ◌≤◌, ◌<◌, String, ◌≡◌, ◌≢◌, refl, sym, ◌∙◌,
  inl, inr, some, List, [], ◌∷◌, arith, select, select-update_where, ltb, leb, ltb→lt, leb→le,
  Bool-cases, Option-cases,
}
use relationship_os.Shared.Event.{CanonicalMessageEvent}
use relationship_os.Shared.Errors.{Error}
use relationship_os.Shared.Config.{Settings}
use relationship_os.Db.Rows.{OutboxEvent, OutboxStatus, delivered, failed, retrying}
use relationship_os.Db.Session.{Session, Result, ok, err, Result-cases}
use relationship_os.Outbox.Router.{DeliveryResult, route_event}
use relationship_os.Outbox.Router.Frame.{route_event-IsSame}
use relationship_os.Outbox.Worker.{
  failures, save_event, has_id, lock_event, settle_event, fail_event, Attempt, attempt, mark_error,
  process_event,
}

delivered-ne-retrying : ◌≢◌ {A = OutboxStatus} delivered retrying
delivered-ne-retrying h = cc

failed-ne-retrying : ◌≢◌ {A = OutboxStatus} failed retrying
failed-ne-retrying h = cc

-- The legal steps of an event, from the row before a poll to the row after it.
pub data Step (e : OutboxEvent) (f : OutboxEvent) : Type 0 where
  deliver :
      f.status ≡ delivered
      → f.retry_count ≡ e.retry_count
      → f.max_retries ≡ e.max_retries
      → Step e f
  retry :
      f.status ≡ retrying
      → f.retry_count ≡ e.retry_count + 1
      → f.max_retries ≡ e.max_retries
      → f.retry_count < f.max_retries
      → Step e f
  bury :
      f.status ≡ failed
      → f.retry_count ≡ e.retry_count + 1
      → f.max_retries ≡ e.max_retries
      → f.max_retries ≤ f.retry_count
      → Step e f

pub settle_event-Step :
    (locked now jitter : ℕ) (fs : List DeliveryResult) (e : OutboxEvent)
    → Step e (settle_event now jitter fs (lock_event locked e))
unfolding settle_event
settle_event-Step locked now jitter [] e = deliver refl refl refl
settle_event-Step locked now jitter (f ∷ fs) e =
    elim (Bool-cases (leb e.max_retries (e.retry_count + 1))) [
      | inl h ↦ rw h (bury refl refl refl (leb→le _ _ h))
      | inr h ↦ rw h (retry refl refl refl (ground arith))
    ]

pub fail_event-Step : (now : ℕ) (m : String) (e : OutboxEvent) → Step e (fail_event now m e)
unfolding fail_event
fail_event-Step now m e = elim (Bool-cases (ltb (e.retry_count + 1) e.max_retries)) [
  | inl h ↦ rw h (retry refl refl refl (ltb→lt _ _ h))
  | inr h ↦ rw h (bury refl refl refl (ground arith))
]

pub fail_event-id : (now : ℕ) (m : String) (e : OutboxEvent) → (fail_event now m e).id ≡ e.id
unfolding fail_event
fail_event-id now m e = refl

pub settle_event-id :
    (now jitter : ℕ) (fs : List DeliveryResult) (e : OutboxEvent)
    → (settle_event now jitter fs e).id ≡ e.id
unfolding settle_event
settle_event-id now jitter [] e = refl
settle_event-id now jitter (f ∷ fs) e = ground arith

-- The database takes the lock of the event and the mark of an error.
abbrev pub CanMark : Attempt → Type 0
CanMark a = (a.lock_fault ≡ none) × (a.mark_fault ≡ none)

abbrev HasRow : OutboxEvent → Bool × Session → Type 0
HasRow e p =
    (p.1.work ≡ p.1.stored)
    × ((f : OutboxEvent) × (select (has_id e.id) p.1.stored.outbox ≡ f ∷ []) × Step e f)

false-ne-true : false ≡ true → ⊥
false-ne-true h = cc

none-ne-some : {x : Error} → ◌≡◌ {A = Option Error} none (some x) → ⊥
none-ne-some h = cc

module _ (cfg : Settings) (a : Attempt) (now : ℕ) where
  -- The event's row after an attempt that returned with the given results.
  attempt-row :
      (e : OutboxEvent) (s : Session) {event : CanonicalMessageEvent} {rs : List DeliveryResult}
      → select (has_id e.id) s.work.outbox ≡ e ∷ []
      → a.validate e.payload_json ≡ some event
      → a.commit_fault ≡ none
      → (route_event cfg a.adapters a.draw
          (now + a.routing)
          event
          (save_event (lock_event now e) s).1).0
        ≡ ok rs
      → let (result, s') = attempt cfg a now e s in
        (result ≡ ok tt)
        × (s'.work ≡ s'.stored)
        × (select (has_id e.id) s'.stored.outbox
            ≡ settle_event (now + a.settling) a.jitter (failures rs) (lock_event now e) ∷ [])
  unfolding attempt
  attempt-row e s {event} {rs} one parsed commits routed =
      let locked = (save_event (lock_event now e) s).1 in
      let after = (route_event cfg a.adapters a.draw (now + a.routing) event locked).1 in
      ground (
        arith,
        route_event-IsSame cfg a.adapters a.draw (now + a.routing) event locked,
        select-update_where (has_id e.id) (lock_event now e) s.work.outbox e,
        settle_event-id (now + a.settling) a.jitter (failures rs) (lock_event now e),
        select-update_where (has_id e.id)
            (settle_event (now + a.settling) a.jitter (failures rs) (lock_event now e))
            after.work.outbox (lock_event now e),
      )

  -- An attempt that raised has committed nothing.
  pub attempt-stored :
      (e : OutboxEvent) (s : Session) {x : Error}
      → (attempt cfg a now e s).0 ≡ err x
      → (attempt cfg a now e s).1.stored ≡ s.stored
  unfolding attempt
  attempt-stored e s h = elim (Option-cases (a.validate e.payload_json)) [
    | inl none_parsed ↦ ground arith
    | inr (event, parsed) ↦
        let locked = (save_event (lock_event now e) s).1 in
        elim (Option-cases a.commit_fault) [
          | inl commits ↦ ground (
            arith,
            parsed,
            commits,
            route_event-IsSame cfg a.adapters a.draw (now + a.routing) event locked,
          )
          | inr (y, fails) ↦ ground (
            arith,
            parsed,
            fails,
            route_event-IsSame cfg a.adapters a.draw (now + a.routing) event locked,
          )
        ]
  ]

  -- Where the mark fails, the database stays as it is.
  pub unmarked-stored :
      (e : OutboxEvent) (x : Error) (s : Session) {y : Error}
      → a.mark_fault ≡ some y
      → (mark_error cfg a now e x s).stored ≡ s.stored
  unfolding mark_error
  unmarked-stored e x s fails = rw fails refl

  mark_error-row :
      (e : OutboxEvent) (x : Error) (s : Session)
      → a.mark_fault ≡ none
      → select (has_id e.id) s.stored.outbox ≡ e ∷ []
      → let s' = mark_error cfg a now e x s in
        (s'.work ≡ s'.stored)
        × (select (has_id e.id) s'.stored.outbox
            ≡ fail_event (now + a.marking) (a.describe x) e ∷ [])
  unfolding mark_error
  mark_error-row e x s marks one = ground (
    arith,
    select-update_where (has_id e.id) (fail_event (now + a.marking) (a.describe x) e)
        s.stored.outbox e,
    fail_event-id (now + a.marking) (a.describe x) e,
  )

  -- An attempt that returned had a payload that parses and an answered route.
  pub attempt-routed :
      (e : OutboxEvent) (s : Session)
      → (attempt cfg a now e s).0 ≡ ok tt
      → (event : CanonicalMessageEvent) × (rs : List DeliveryResult) × (a.validate e.payload_json
          ≡ some event)
        × (a.commit_fault ≡ none)
        × ((route_event cfg a.adapters a.draw
              (now + a.routing)
              event
              (save_event (lock_event now e) s).1).0
            ≡ ok rs)
  unfolding attempt
  attempt-routed e s h = elim (Option-cases (a.validate e.payload_json)) [
    | inl none_parsed ↦ absurd (ground arith)
    | inr (event, parsed) ↦
        elim (Result-cases
          (route_event cfg a.adapters a.draw (now + a.routing) event
            (save_event (lock_event now e) s).1).0) [
              | inl (rs, routed) ↦ elim (Option-cases a.commit_fault) [
                | inl commits ↦ (event, rs, parsed, commits, routed)
                | inr (y, fails) ↦ absurd (ground (arith, parsed, routed, fails))
              ]
              | inr (x, raised) ↦ absurd (ground (arith, parsed, raised))
            ]
  ]

  pub lock_fails :
      (e : OutboxEvent) (s : Session) {x : Error}
      → a.lock_fault ≡ some x
      → process_event cfg a now e s ≡ (false, record s { work = s.stored })
  unfolding process_event
  lock_fails e s h = rw h refl

  pub lock_holds :
      (e : OutboxEvent) (s : Session) {r : Result (Unit {0})}
      → a.lock_fault ≡ none
      → (attempt cfg a now e s).0 ≡ r
      → let s' = (attempt cfg a now e s).1 in
        process_event cfg a now e s ≡ (elim r as (λ _. Bool × Session) [
          | ok _ ↦ (true, s')
          | err x ↦ (false, mark_error cfg a now e x s')
        ])
  unfolding process_event
  lock_holds e s h k =
      let s' = (attempt cfg a now e s).1 in
      let go : Result (Unit {0}) → Bool × Session = λ r. elim r as (λ _. Bool × Session) [
        | ok _ ↦ (true, s')
        | err x ↦ (false, mark_error cfg a now e x s')
      ] in
      ap
        (λ (x : Option Error). elim x as (λ _. Bool × Session) [
          | some _ ↦ (false, record s { work = s.stored })
          | none ↦ go (attempt cfg a now e s).0
        ])
        h
      ∙ ap go k

  pub not_ready :
      (e : OutboxEvent) (s : Session) {x : Error}
      → a.lock_fault ≡ some x
      → ((process_event cfg a now e s).0 ≡ true ⊎ CanMark a)
      → ⊥
  not_ready e s fails (inl done) = false-ne-true (ap (λ p. p.0) (sym (lock_fails e s fails)) ∙ done)
  not_ready e s fails (inr marks) = none-ne-some (sym marks.0 ∙ fails)

  pub can_mark :
      (e : OutboxEvent) (s : Session) {x : Error}
      → a.lock_fault ≡ none
      → (attempt cfg a now e s).0 ≡ err x
      → ((process_event cfg a now e s).0 ≡ true ⊎ CanMark a)
      → a.mark_fault ≡ none
  can_mark e s locks h (inl done) =
      absurd (false-ne-true (ap (λ p. p.0) (sym (lock_holds e s locks h)) ∙ done))
  can_mark e s locks h (inr marks) = marks.1

  pub processed-Step :
      (e : OutboxEvent) (s : Session)
      → s.work ≡ s.stored
      → select (has_id e.id) s.stored.outbox ≡ e ∷ []
      → (process_event cfg a now e s).0 ≡ true ⊎ CanMark a
      → let s' = (process_event cfg a now e s).1 in
        (s'.work ≡ s'.stored)
        × ((f : OutboxEvent) × (select (has_id e.id) s'.stored.outbox ≡ f ∷ []) × Step e f)
  processed-Step e s same one ready = elim (Option-cases a.lock_fault) [
    | inr (x, fails) ↦ absurd (not_ready e s fails ready)
    | inl locks ↦ elim (Result-cases (attempt cfg a now e s).0) [
      | inl (done, h) ↦
          let (event, rs, parsed, commits, routed) = attempt-routed e s h in
          let (_, committed, row) = attempt-row e s (rw same one) parsed commits routed in
          subst (HasRow e) (sym (lock_holds e s locks h)) (
            committed,
            (
              settle_event (now + a.settling) a.jitter (failures rs) (lock_event now e),
              row,
              settle_event-Step now (now + a.settling) a.jitter (failures rs) e,
            ),
          )
      | inr (x, h) ↦
          let s' = (attempt cfg a now e s).1 in
          let marks = can_mark e s locks h ready in
          let (committed, row) = mark_error-row e x s' marks (rw (attempt-stored e s h) one) in
          subst (HasRow e) (sym (lock_holds e s locks h)) (
            committed,
            (
              fail_event (now + a.marking) (a.describe x) e,
              row,
              fail_event-Step (now + a.marking) (a.describe x) e,
            ),
          )
    ]
  ]

  -- In a session without uncommitted changes in which the event stands once, and as long as the
  -- database takes the lock and, where it comes to that, the mark of an error: whether the adapters
  -- answer or raise, the payload parses or not, and the commit of the attempt succeeds or not, the
  -- processing of the event ends with its row committed after one legal step, and never locked: it
  -- is delivered with its count of retries unchanged, or the count has gone up by one and the event
  -- waits for a retry below its maximum and is buried otherwise.
  pub process_event-Step :
      (e : OutboxEvent) (s : Session)
      → s.work ≡ s.stored
      → select (has_id e.id) s.stored.outbox ≡ e ∷ []
      → CanMark a
      → let s' = (process_event cfg a now e s).1 in
        (s'.work ≡ s'.stored)
        × ((f : OutboxEvent) × (select (has_id e.id) s'.stored.outbox ≡ f ∷ []) × Step e f)
  process_event-Step e s same one marks = processed-Step e s same one (inr marks)

-- The step of an event that is not delivered.
failing-count :
    (f g : OutboxEvent)
    → Step f g
    → g.status ≢ delivered
    → (g.retry_count ≡ f.retry_count + 1) × (g.max_retries ≡ f.max_retries)
failing-count f g (deliver s c m) h = absurd (h s)
failing-count f g (retry s c m b) h = (c, m)
failing-count f g (bury s c m b) h = (c, m)

retrying-below :
    (f g : OutboxEvent) → Step f g → g.status ≡ retrying → g.retry_count < g.max_retries
retrying-below f g (deliver s c m) h = absurd (delivered-ne-retrying (sym s ∙ h))
retrying-below f g (retry s c m b) h = b
retrying-below f g (bury s c m b) h = absurd (failed-ne-retrying (sym s ∙ h))

-- n polls of one event, none of which delivers it.
pub data Retries (e : OutboxEvent) : ℕ → OutboxEvent → Type 0 where
  start : {f : OutboxEvent} → f ≡ e → Retries e 0 f
  poll :
      {n : ℕ} {f g : OutboxEvent}
      → Retries e n f
      → Step f g
      → g.status ≢ delivered
      → Retries e (suc n) g

Retries-count :
    (e : OutboxEvent) {n : ℕ} {f : OutboxEvent}
    → Retries e n f
    → (f.retry_count ≡ e.retry_count + n) × (f.max_retries ≡ e.max_retries)
Retries-count e (start p) = ground arith
Retries-count e (poll {f = f} {g = g} r st nd) =
    ground (arith, Retries-count e r, failing-count f g st nd)

-- After any number n > 0 of polls that do not deliver it, an event that waits for another retry has
-- used fewer retries than its maximum: it is buried after as many polls as it has retries left.
pub Retries-bounded :
    (e : OutboxEvent) {n : ℕ} {f : OutboxEvent}
    → Retries e (suc n) f
    → f.status ≡ retrying
    → e.retry_count + suc n < e.max_retries
Retries-bounded e (poll {f = f} {g = g} r st nd) h =
    ground (arith, retrying-below f g st h, Retries-count e (poll r st nd))
